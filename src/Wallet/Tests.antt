-- ===== src/Wallet/Tests.antt =====
-- The wallet at concrete inputs, over the small group of Curve/Toy.
mod Stuck
use zk_api.Wallet.Balance.{Accepted-NoteOpens, current_commitment-NoteOpens}
use zk_api.Prelude.{
  ◌++◌, Result-cases, inl, inr, ℕ, ◌+◌, ◌≡◌, ◌≤◌, refl, Bool, true, false, none, some, List, codes,
  length, replicate, ok, err, arith, subst, ◌⊎◌, bytes_eq,
}
use zk_api.Felt.{
  from_be_bytes, felt_eq, felt_eq_refl, Felt252, from_u64, felt_zero, felt_one, to_be_bytes,
  try_from_bytes_be, bytes_lt, field_modulus_bytes, is_zero,
}
use zk_api.Core.{field_to_felt, felt_to_field, state_message, nullifier}
use zk_api.Curve.Commitments.{point_from-to_wire}
use zk_api.Curve.{
  updated_point, server_update, rerandomize_commitment, wire_eq, balance_commitment, rerandomize,
  CurvePointWire, from_secret, sign, point_to_wire, signature_to_wire, commitment_point, scalar,
  scalar_to_felt, verify_signature,
}
use zk_api.Curve.Toy.{Bits, toy, toy_curve, toy_laws}
use zk_api.Curve.Commitments.{rerandomize-balance_commitment, server_update-point}
use zk_api.Curve.Signatures.{verify_signature-sign}
use zk_api.Inputs.{
  canonical_request_context, canonical_response_hash, canonical_payload_hash, digest,
  hash_bytes_to_felt, hash_from,
}
use zk_api.Merkle.{merkle_depth}
use zk_api.Wallet.Close.{handle_reply, error_status}
use zk_api.Wallet.{
  io, read, groth16_bn254, server_error, solvency_bound, new_from_deposit, ClientConfig,
  ClientError, pending_request, NoteState, RequestResponseV2, ApiRequestV2, PendingRequestJournal,
  Wallet, missing, holds, applied_cap, open_wallet, load, has_pending_request,
}
use zk_api.Wallet.Request.{
  failed, siblings_array, build_request, RequestEnv, confirm_deposit, prepare_request,
  deposited_note, state_note_leaf,
}
use zk_api.Wallet.Response.{next_state, pending_commitment, complete_pending_response}
use zk_api.Wallet.Invariant.{Accepted, next_state-Accepted, IsWellFormed, NoteOpens}
use zk_api.Wallet.Steps.{deposited_note-NoteOpens}
use zk_api.Wallet.Run.{opened, stepped, deposited, prepared, Reachable-IsWellFormed}
use zk_api.Wallet.Crash.{complete_pending_response_stuck}
use zk_api.Wallet.Settled.{
  next_state-IsHonest, pending_commitment-NoteOpens, IsHonest, complete_pending_response_charges,
  complete_pending_response-err, complete_pending_response-IsHonest,
}
use zk_api.Wallet.Pending.{IsFor, prepare_request_lem, prepare_request-pending}

-- A digest that tells its length.
abbrev toy_keccak : List ℕ → List ℕ
unfolding to_be_bytes
toy_keccak bytes = to_be_bytes 32 (length bytes)

abbrev config : ClientConfig
config = record {
  protocol_version = 2;
  chain_id = 8453;
  contract_address = from_u64 99;
  request_charge_cap = 100;
  policy_charge_cap = 200;
  policy_enabled = false;
  state_signing_key = point_to_wire toy toy_curve (from_secret toy toy_curve true).public;
  clearance_signing_key = point_to_wire toy toy_curve (from_secret toy toy_curve true).public;
}

abbrev empty : Wallet
empty = record { config = config; state = none; note_file = missing; journal_file = missing }

abbrev env : RequestEnv Bool
env = record {
  rerandomization = true;
  client_request_id = codes "id-1";
  now_seconds = 1700000000;
  prover = ok (λ i x. ok (record { backend = groth16_bn254; proof = codes "proof" }));
  journal_written = true;
}

abbrev siblings : List Felt252
siblings = replicate merkle_depth felt_zero

abbrev after_deposit : Wallet
after_deposit =
    (confirm_deposit toy toy_curve toy_keccak true true (from_u64 1234) 3 1001 1800000000 empty).1

abbrev after_prepare : Wallet
after_prepare =
    (prepare_request toy toy_curve toy_keccak env (codes "hello") (from_u64 33) (from_u64 7)
      siblings after_deposit).1

Reachable-IsWellFormed_example : IsWellFormed toy toy_curve toy_keccak after_prepare
unfolding open_wallet load
Reachable-IsWellFormed_example =
    Reachable-IsWellFormed toy toy_curve toy_keccak toy_laws after_prepare (
      stepped after_deposit after_prepare
        (stepped empty after_deposit (opened config empty refl)
          (deposited true true (from_u64 1234) 3 1001 1800000000))
        (prepared env (codes "hello") (from_u64 33) (from_u64 7) siblings))

abbrev note : NoteState
note = deposited_note toy toy_curve toy_keccak config true (from_u64 1234) 3 1001 1800000000

abbrev deposit_wallet : Wallet
deposit_wallet = record {
  config = config;
  state = some note;
  note_file = holds note;
  journal_file = missing;
}

prepare_request_lem_example :
    ((e : ClientError) × (prepare_request toy toy_curve toy_keccak env
          (codes "hello")
          (from_u64 33)
          (from_u64 7)
          siblings
          deposit_wallet
        ≡ (err e, deposit_wallet)))
    ⊎ ((request : ApiRequestV2) × (j : PendingRequestJournal) × (prepare_request toy toy_curve
            toy_keccak env
            (codes "hello")
            (from_u64 33)
            (from_u64 7)
            siblings
            deposit_wallet
          ≡ (ok request, record deposit_wallet { journal_file = holds j }))
        × IsFor toy toy_curve toy_keccak deposit_wallet note request j
        × (request.payload ≡ codes "hello")
        × (request.payload_hash ≡ from_u64 33)
        × (request.public_inputs.active_root ≡ from_u64 7)
        × (has_pending_request deposit_wallet ≡ false))
prepare_request_lem_example =
    prepare_request_lem toy toy_curve toy_keccak env (codes "hello") (from_u64 33) (from_u64 7)
      siblings deposit_wallet note refl

abbrev journal : PendingRequestJournal
journal = record {
  exists = true;
  client_request_id = codes "id-1";
  nullifier = nullifier toy (from_u64 1234) felt_one;
  payload_hash = from_u64 33;
  user_rerandomization = scalar_to_felt toy toy_curve true;
  created_at_ms = 1700000000000;
  prepared_request = none;
}

abbrev pending_wallet : Wallet
pending_wallet = record deposit_wallet { journal_file = holds journal }

-- The commitment as the request shows it, and as a charge of 1 leaves it.
abbrev leaf : ℕ
leaf = felt_to_field toy (state_note_leaf toy toy_curve toy_keccak note)

abbrev blinding : Bool
blinding =
    toy_curve.scalar_add (scalar toy toy_curve (scalar_to_felt toy toy_curve true))
      (scalar toy toy_curve (scalar_to_felt toy toy_curve true))

abbrev anonymous : CurvePointWire
anonymous = point_to_wire toy toy_curve (commitment_point toy toy_curve (1000 + 1) blinding leaf)

abbrev next_commitment : CurvePointWire
next_commitment = point_to_wire toy toy_curve (
    commitment_point toy toy_curve 1000
      (toy_curve.scalar_add blinding (scalar toy toy_curve (from_u64 1))) leaf)

abbrev message : Felt252
message = state_message toy 2 8453 (from_u64 99) next_commitment.x next_commitment.y (from_u64 5)

abbrev response : RequestResponseV2
response = record {
  status = codes "ok";
  client_request_id = codes "id-1";
  request_nullifier = nullifier toy (from_u64 1234) felt_one;
  response_code = 200;
  response_payload = codes "hi";
  response_hash = from_u64 31;
  charge_applied = 1;
  next_commitment = next_commitment;
  next_anchor = from_u64 5;
  blind_delta_srv = from_u64 1;
  next_state_signature =
      signature_to_wire toy toy_curve
        (sign toy toy_curve (from_secret toy toy_curve true) (felt_to_field toy message) true);
  policy_reason_code = none;
  policy_evidence_hash = none;
}

well_formed : IsWellFormed toy toy_curve toy_keccak pending_wallet
well_formed = record {
  on_disk = refl;
  opens = λ s h. subst (NoteOpens toy toy_curve toy_keccak) (let e : note ≡ s = cc in e) (
      deposited_note-NoteOpens toy toy_curve toy_keccak toy_laws config true (from_u64 1234) 3 1001
        1800000000);
}

rerandomized :
    rerandomize toy toy_curve
      (record { x = note.current_commitment_x; y = note.current_commitment_y })
      journal.user_rerandomization
    ≡ ok anonymous
unfolding deposited_note new_from_deposit state_note_leaf
rerandomized =
    rerandomize-balance_commitment toy toy_curve toy_laws 1001 (scalar_to_felt toy toy_curve true)
      (scalar_to_felt toy toy_curve true) (state_note_leaf toy toy_curve toy_keccak note)

honest : IsHonest toy toy_curve toy_keccak config note journal anonymous response
unfolding deposited_note new_from_deposit
honest = record {
  same_id = refl;
  same_nullifier = refl;
  hashed = hashed;
  capped = capped;
  covered = omega arith;
  anchored = anchored;
  updated = server_update-point toy toy_curve toy_laws 1000 1 blinding (from_u64 1) leaf;
  signed = verify_signature-sign toy toy_curve toy_laws true true message;
}
  where
    hashed :
        canonical_response_hash toy_keccak response.response_payload ≡ some response.response_hash
    hashed =
        unfold canonical_response_hash hash_bytes_to_felt hash_from digest try_from_bytes_be
          bytes_lt field_modulus_bytes from_u64 to_be_bytes in
        refl

    capped : 1 ≤ applied_cap config
    capped = unfold applied_cap in omega arith

    anchored : is_zero (from_u64 5) ≡ false
    anchored = unfold is_zero from_u64 bytes_eq in refl

complete_pending_response-IsHonest_example :
    (complete_pending_response toy toy_curve toy_keccak true true response pending_wallet).0 ≡ ok tt
unfolding read
complete_pending_response-IsHonest_example =
    complete_pending_response-IsHonest toy toy_curve toy_keccak toy_laws pending_wallet note journal
      anonymous response well_formed refl refl rerandomized honest

abbrev settled : Wallet
settled = (complete_pending_response toy toy_curve toy_keccak true true response pending_wallet).1

complete_pending_response_charges_example :
    (n : NoteState) × (settled.state ≡ some n)
    × (settled.note_file ≡ holds n)
    × (settled.journal_file ≡ missing)
    × (n.current_balance + 1 ≡ 1001)
    × (1 ≤ applied_cap config)
    × (verify_signature toy toy_curve config.state_signing_key
          (state_message toy 2 8453
            (from_u64 99)
            n.current_commitment_x
            n.current_commitment_y
            n.current_anchor)
          response.next_state_signature
        ≡ ok true)
    × (n.current_anchor ≡ from_u64 5)
    × (is_zero n.current_anchor ≡ false)
    × (n.is_genesis ≡ false)
    × (n.state_signature ≡ some response.next_state_signature)
unfolding deposited_note new_from_deposit
complete_pending_response_charges_example =
    complete_pending_response_charges toy toy_curve toy_keccak true true response pending_wallet
      note refl complete_pending_response-IsHonest_example

-- Nothing is pending in the wallet after the deposit.
complete_pending_response-err_example :
    (complete_pending_response toy toy_curve toy_keccak true true response deposit_wallet).1
    ≡ deposit_wallet
unfolding complete_pending_response pending_commitment read
complete_pending_response-err_example =
    complete_pending_response-err toy toy_curve toy_keccak true response deposit_wallet
      pending_request refl

abbrev prepared_wallet : Wallet
prepared_wallet =
    (prepare_request toy toy_curve toy_keccak env (codes "hello") (from_u64 33) (from_u64 7)
      siblings deposit_wallet).1

hashed_payload : canonical_payload_hash toy_keccak (codes "hello") ≡ some (from_u64 33)
unfolding canonical_payload_hash hash_bytes_to_felt hash_from digest try_from_bytes_be bytes_lt
    field_modulus_bytes from_u64 to_be_bytes
hashed_payload = refl

hashed_context :
    canonical_request_context toy_keccak (codes "id-1") (from_u64 33)
    ≡ some (record { bytes = to_be_bytes 32 80 })
unfolding canonical_request_context hash_bytes_to_felt hash_from digest try_from_bytes_be bytes_lt
    field_modulus_bytes from_u64 to_be_bytes
hashed_context = refl

enough_siblings : siblings_array siblings ≡ ok siblings
unfolding siblings_array
enough_siblings = refl

request_made :
    (r : ApiRequestV2) × ((prepare_request toy toy_curve toy_keccak env
        (codes "hello")
        (from_u64 33)
        (from_u64 7)
        siblings
        deposit_wallet).0
      ≡ ok r)
unfolding prepare_request build_request solvency_bound deposited_note new_from_deposit
    has_pending_request read
request_made =
    let o = well_formed.opens note refl in
    let current = current_commitment-NoteOpens toy toy_curve toy_keccak toy_laws note o in
    let hash = hashed_payload in
    let context = hashed_context in
    let enough = enough_siblings in
    let same = felt_eq_refl (from_u64 33) in
    let shown : rerandomize toy toy_curve
          (balance_commitment toy toy_curve note.current_balance o.blinding
            (state_note_leaf toy toy_curve toy_keccak note))
          (scalar_to_felt toy toy_curve true)
        ≡ ok anonymous =
      (let k = o.commits in rw k rerandomized) in
    elim (Result-cases (
      (prepare_request toy toy_curve toy_keccak env (codes "hello") (from_u64 33) (from_u64 7)
        siblings deposit_wallet).0)) [ inl found ↦ found | inr (e, k) ↦ absurd (ground arith) ]
