-- ===== src/Stark.antt =====
-- rust/crates/zkapi-types/src/domain.rs, rust/crates/zkapi-core/src/poseidon.rs and commitment.rs:
-- domain tags, hashes over the Stark field and the messages of the first protocol. The field and its
-- Poseidon are `starknet_types_core`'s and `starknet_crypto`'s: they enter as `StarkField`.
use zk_api.Prelude.{ℕ, ◌-◌, ◌++◌, List, [], ◌∷◌, map, Str, codes, length, replicate}
use zk_api.Felt.{Felt252, from_u64}

-- `Felt::to_bytes_be`, `Felt::from_bytes_be`, `Felt::from(u64)` and `poseidon_hash_many`.
pub record StarkField (F : Type 0) : Type 0 where
  pub poseidon_hash_many : List F → F
  pub to_bytes_be : F → List ℕ
  pub from_bytes_be : List ℕ → F
  pub from_u64 : ℕ → F

-- A label of at most 31 bytes, as a big-endian number.
unfoldable pub domain_felt : Str → Felt252
domain_felt label = record { bytes = replicate (32 - length label) 0 ++ label }

module _ {F : Type 0} (k : StarkField F) where
  unfoldable pub felt_to_field : Felt252 → F
  felt_to_field f = k.from_bytes_be f.bytes

  unfoldable pub field_to_felt : F → Felt252
  field_to_felt x = record { bytes = k.to_bytes_be x }

  unfoldable pub poseidon_hash : Felt252 → Felt252 → Felt252 → Felt252
  unfolding felt_to_field field_to_felt
  poseidon_hash domain a b =
      field_to_felt
        (k.poseidon_hash_many (felt_to_field domain ∷ felt_to_field a ∷ felt_to_field b ∷ []))

  unfoldable pub poseidon_hash_chain : Felt252 → List Felt252 → Felt252
  unfolding felt_to_field field_to_felt
  poseidon_hash_chain domain inputs =
      field_to_felt (k.poseidon_hash_many (felt_to_field domain ∷ map felt_to_field inputs))

  unfoldable pub compute_state_message : ℕ → ℕ → Felt252 → Felt252 → Felt252 → Felt252 → Felt252
  unfolding poseidon_hash_chain domain_felt
  compute_state_message version chain_id contract commitment_x commitment_y anchor =
      poseidon_hash_chain (domain_felt (codes "zkapi.state")) (
        from_u64 version ∷ from_u64 chain_id ∷ contract ∷ commitment_x ∷ commitment_y ∷ anchor ∷ [])

  unfoldable pub compute_clearance_message : ℕ → ℕ → Felt252 → Felt252 → Felt252
  unfolding poseidon_hash_chain domain_felt
  compute_clearance_message version chain_id contract withdrawal_nullifier =
      poseidon_hash_chain (domain_felt (codes "zkapi.clear"))
        (from_u64 version ∷ from_u64 chain_id ∷ contract ∷ withdrawal_nullifier ∷ [])

  unfoldable pub compute_next_anchor : Felt252 → Felt252 → Felt252 → Felt252 → ℕ → Felt252
  unfolding poseidon_hash_chain domain_felt
  compute_next_anchor server_rng nullifier next_x next_y leaf_index =
      poseidon_hash_chain (domain_felt (codes "zkapi.anchor"))
        (server_rng ∷ nullifier ∷ next_x ∷ next_y ∷ from_u64 leaf_index ∷ [])

  unfoldable pub compute_blind_delta : Felt252 → Felt252 → ℕ → Felt252
  unfolding poseidon_hash_chain domain_felt
  compute_blind_delta server_rng nullifier leaf_index =
      poseidon_hash_chain (domain_felt (codes "zkapi.blind"))
        (server_rng ∷ nullifier ∷ from_u64 leaf_index ∷ [])
