-- ===== src/Indexer/Tests.antt =====
-- The mirror over a small stand-in for the sponge: a run, and the theorems at it.
use zk_api.Prelude.{ℕ, ◌+◌, ◌*◌, ◌%◌, ◌^◌, ◌≡◌, refl, true, List, [], ◌∷◌, arith}
use mathlib.Core.List.{foldl}
use zk_api.Felt.{felt_zero, from_u64, to_be_bytes, from_be_bytes}
use zk_api.Core.{Poseidon, merkle_node}
use zk_api.Merkle.{verify_membership}
use zk_api.Indexer.{
  VaultEvent, note_deposited, escape_withdrawal_initiated, escape_withdrawal_challenged,
  next_note_id, get_root, get_path, process_events, compute_note_leaf,
}
use zk_api.Indexer.Slots.{unused, slot_after, Shows, mirror-Shows}
use zk_api.Indexer.Roots.{mirror, get_path_opens, challenge_restores_root, next_note_id_stuck}

-- Field elements as numbers, and a polynomial in place of the sponge.
abbrev toy : Poseidon ℕ
unfolding to_be_bytes from_be_bytes
toy = record {
  from_be_bytes_mod_order = from_be_bytes 0;
  to_bytes_be = to_be_bytes 32;
  absorb_squeeze = foldl (λ acc x. (acc * 31 + x + 7) % 2 ^ 61) 5;
}

abbrev deposits : List VaultEvent
deposits =
    note_deposited 0 (from_u64 12345) 1000 1700000000 felt_zero
    ∷ note_deposited 1 (from_u64 777) 50 1700000001 felt_zero
    ∷ []

mirror-Shows_example : Shows toy (mirror toy deposits) (λ i. slot_after toy i unused deposits)
mirror-Shows_example = mirror-Shows toy deposits

get_path_opens_example :
    verify_membership
      (merkle_node toy)
      (get_root (mirror toy deposits))
      1
      (compute_note_leaf toy 1 (from_u64 777) 50 1700000001)
      (get_path (mirror toy deposits) 1)
    ≡ true
get_path_opens_example = get_path_opens toy deposits 1 (omega arith)

challenge_restores_root_example :
    get_root (
      process_events toy (mirror toy deposits) (
        escape_withdrawal_initiated 0 (from_u64 9) 900 1700086400 felt_zero
        ∷ escape_withdrawal_challenged 0 (from_u64 9) felt_zero
        ∷ []))
    ≡ get_root (mirror toy deposits)
challenge_restores_root_example =
    challenge_restores_root toy deposits 0
      (compute_note_leaf toy 0 (from_u64 12345) 1000 1700000000) (from_u64 9) (from_u64 9) felt_zero
      felt_zero 900 1700086400 refl

next_note_id_stuck_example : next_note_id (mirror toy deposits) ≡ 0
next_note_id_stuck_example = next_note_id_stuck toy deposits
