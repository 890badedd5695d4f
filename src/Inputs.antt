-- ===== src/Inputs.antt =====
-- rust/crates/zkapi-types/src/inputs.rs: the public statements of the proofs, as the field elements
-- that the verifiers see, and the hashes of byte strings into field elements. Keccak-256 is the
-- `sha3` crate's: it is the parameter `keccak`, from the concatenated updates to the digest.
pub mod Binding
pub mod Hashing
mod Tests
use zk_api.Prelude.{
  ℕ, zero, suc, ◌^◌, ◌+◌, Bool, Option, none, some, List, [], ◌∷◌, ◌++◌, Str, codes, ◌==◌, length,
  true, false, replicate, Result, ok, err, ◌>>◌, ensure, if◌then◌else◌,
}
use zk_api.Felt.{Felt252, from_u64, from_u128, to_u64, to_be_bytes, try_from_bytes_be}

pub record RequestPublicInputsV2 : Type 0 where
  pub protocol_version : ℕ
  pub chain_id : ℕ
  pub contract_address : Felt252
  pub active_root : Felt252
  pub state_signing_key_x : Felt252
  pub state_signing_key_y : Felt252
  pub request_time : ℕ
  pub solvency_bound : ℕ
  pub request_nullifier : Felt252
  pub authorization_tag : Felt252
  pub anonymous_commitment_x : Felt252
  pub anonymous_commitment_y : Felt252

pub record WithdrawalPublicInputsV2 : Type 0 where
  pub protocol_version : ℕ
  pub chain_id : ℕ
  pub contract_address : Felt252
  pub active_root : Felt252
  pub state_signing_key_x : Felt252
  pub state_signing_key_y : Felt252
  pub clearance_signing_key_x : Felt252
  pub clearance_signing_key_y : Felt252
  pub note_id : ℕ
  pub final_balance : ℕ
  pub destination : List ℕ
  pub withdrawal_nullifier : Felt252
  pub has_clearance : Bool
  pub withdrawal_tag : Felt252

-- A 20-byte address in the last bytes of a field element.
unfoldable pub destination_field : List ℕ → Felt252
destination_field destination = record { bytes = replicate 12 0 ++ destination }

-- `b as u64`.
abbrev pub bool_as_u64 : Bool → ℕ
bool_as_u64 b = if b then 1 else 0

unfoldable pub request_field_elements : RequestPublicInputsV2 → List Felt252
request_field_elements i =
    from_u64 i.protocol_version
    ∷ from_u64 i.chain_id
    ∷ i.contract_address
    ∷ i.active_root
    ∷ i.state_signing_key_x
    ∷ i.state_signing_key_y
    ∷ from_u64 i.request_time
    ∷ from_u128 i.solvency_bound
    ∷ i.request_nullifier
    ∷ i.authorization_tag
    ∷ i.anonymous_commitment_x
    ∷ i.anonymous_commitment_y
    ∷ []

unfoldable pub withdrawal_field_elements : WithdrawalPublicInputsV2 → List Felt252
unfolding destination_field
withdrawal_field_elements i =
    from_u64 i.protocol_version
    ∷ from_u64 i.chain_id
    ∷ i.contract_address
    ∷ i.active_root
    ∷ i.state_signing_key_x
    ∷ i.state_signing_key_y
    ∷ i.clearance_signing_key_x
    ∷ i.clearance_signing_key_y
    ∷ from_u64 i.note_id
    ∷ from_u128 i.final_balance
    ∷ destination_field i.destination
    ∷ i.withdrawal_nullifier
    ∷ from_u64 (bool_as_u64 i.has_clearance)
    ∷ i.withdrawal_tag
    ∷ []

pub record RequestPublicInputs : Type 0 where
  pub statement_type : ℕ
  pub protocol_version : ℕ
  pub chain_id : ℕ
  pub contract_address : Felt252
  pub active_root : Felt252
  pub state_sig_epoch : ℕ
  pub state_sig_root : Felt252
  pub request_nullifier : Felt252
  pub anon_commitment_x : Felt252
  pub anon_commitment_y : Felt252
  pub expiry_ts : ℕ
  pub solvency_bound : ℕ

pub record WithdrawalPublicInputs : Type 0 where
  pub statement_type : ℕ
  pub protocol_version : ℕ
  pub chain_id : ℕ
  pub contract_address : Felt252
  pub active_root : Felt252
  pub note_id : ℕ
  pub final_balance : ℕ
  pub destination : List ℕ
  pub withdrawal_nullifier : Felt252
  pub is_genesis : Bool
  pub has_clearance : Bool
  pub state_sig_epoch : ℕ
  pub state_sig_root : Felt252
  pub clear_sig_epoch : ℕ
  pub clear_sig_root : Felt252

unfoldable pub request_cairo_outputs : RequestPublicInputs → List Felt252
request_cairo_outputs i =
    from_u64 i.statement_type
    ∷ from_u64 i.protocol_version
    ∷ from_u64 i.chain_id
    ∷ i.contract_address
    ∷ i.active_root
    ∷ from_u64 i.state_sig_epoch
    ∷ i.state_sig_root
    ∷ i.request_nullifier
    ∷ i.anon_commitment_x
    ∷ i.anon_commitment_y
    ∷ from_u64 i.expiry_ts
    ∷ from_u128 i.solvency_bound
    ∷ []

unfoldable pub withdrawal_cairo_outputs : WithdrawalPublicInputs → List Felt252
unfolding destination_field
withdrawal_cairo_outputs i =
    from_u64 i.statement_type
    ∷ from_u64 i.protocol_version
    ∷ from_u64 i.chain_id
    ∷ i.contract_address
    ∷ i.active_root
    ∷ from_u64 i.note_id
    ∷ from_u128 i.final_balance
    ∷ destination_field i.destination
    ∷ i.withdrawal_nullifier
    ∷ from_u64 (bool_as_u64 i.is_genesis)
    ∷ from_u64 (bool_as_u64 i.has_clearance)
    ∷ from_u64 i.state_sig_epoch
    ∷ i.state_sig_root
    ∷ from_u64 i.clear_sig_epoch
    ∷ i.clear_sig_root
    ∷ []

-- The messages of the `Err` values.
pub data OutputsError : Type 0 where
  wrong_output_count : ℕ → ℕ → OutputsError
  wrong_statement_type : OutputsError
  unknown_statement_type : ℕ → OutputsError
  no_public_outputs : OutputsError
  counter_exhausted : OutputsError

abbrev pub statement_type_request : ℕ
statement_type_request = 1

abbrev pub statement_type_withdrawal : ℕ
statement_type_withdrawal = 2

abbrev is_statement : Option ℕ → ℕ → Bool
is_statement none n = false
is_statement (some s) n = s == n

module _ (keccak : List ℕ → List ℕ) where
  unfoldable pub digest : Str → List ℕ → ℕ → List ℕ
  digest domain payload counter =
      keccak (domain ++ to_be_bytes 8 (length payload) ++ payload ++ to_be_bytes 4 counter)

  -- The loop, with the number of counters that are left. `none` is the `expect` that the 32-bit
  -- counter is not exhausted.
  unfoldable pub hash_from : ℕ → Str → List ℕ → ℕ → Option Felt252
  unfolding digest
  hash_from zero domain payload counter = none
  hash_from (suc left) domain payload counter =
      elim (try_from_bytes_be (digest domain payload counter)) [
        | ok felt ↦ some felt
        | err e ↦ hash_from left domain payload (counter + 1)
      ]

  unfoldable pub hash_bytes_to_felt : Str → List ℕ → Option Felt252
  unfolding hash_from
  hash_bytes_to_felt domain payload = hash_from (2 ^ 32) domain payload 0

  unfoldable pub canonical_payload_hash : List ℕ → Option Felt252
  unfolding hash_bytes_to_felt
  canonical_payload_hash payload = hash_bytes_to_felt (codes "zkapi.payload.v1") payload

  unfoldable pub canonical_response_hash : List ℕ → Option Felt252
  unfolding hash_bytes_to_felt
  canonical_response_hash payload = hash_bytes_to_felt (codes "zkapi.response.v1") payload

  unfoldable pub canonical_request_context : Str → Felt252 → Option Felt252
  unfolding hash_bytes_to_felt
  canonical_request_context id payload_hash =
      hash_bytes_to_felt (codes "zkapi.v2.request-context")
        (to_be_bytes 8 (length id) ++ id ++ payload_hash.bytes)

  unfoldable pub all_bytes : List Felt252 → List ℕ
  all_bytes [] = []
  all_bytes (f ∷ fs) = f.bytes ++ all_bytes fs

  unfoldable pub hash_felts_to_felt : Str → List Felt252 → Result OutputsError Felt252
  unfolding hash_bytes_to_felt all_bytes
  hash_felts_to_felt domain felts = elim (hash_bytes_to_felt domain (all_bytes felts)) [
    | none ↦ err counter_exhausted
    | some f ↦ ok f
  ]

  unfoldable pub request_public_output_hash : RequestPublicInputs → Result OutputsError Felt252
  unfolding hash_felts_to_felt request_cairo_outputs
  request_public_output_hash i =
      hash_felts_to_felt (codes "zkapi.req.outputs.v1") (request_cairo_outputs i)

  unfoldable pub withdrawal_public_output_hash :
      WithdrawalPublicInputs → Result OutputsError Felt252
  unfolding hash_felts_to_felt withdrawal_cairo_outputs
  withdrawal_public_output_hash i =
      hash_felts_to_felt (codes "zkapi.wd.outputs.v1") (withdrawal_cairo_outputs i)

  -- `outputs[0]` of a list whose length has been checked.
  unfoldable pub first_u64 : List Felt252 → Option ℕ
  first_u64 [] = none
  first_u64 (f ∷ fs) = to_u64 f

  unfoldable pub request_public_output_hash_from_outputs :
      List Felt252 → Result OutputsError Felt252
  unfolding hash_felts_to_felt first_u64
  request_public_output_hash_from_outputs outputs = do
    ensure (length outputs == 12) (wrong_output_count (length outputs) 12)
    ensure (is_statement (first_u64 outputs) statement_type_request) wrong_statement_type
    hash_felts_to_felt (codes "zkapi.req.outputs.v1") outputs

  unfoldable pub withdrawal_public_output_hash_from_outputs :
      List Felt252 → Result OutputsError Felt252
  unfolding hash_felts_to_felt first_u64
  withdrawal_public_output_hash_from_outputs outputs = do
    ensure (length outputs == 15) (wrong_output_count (length outputs) 15)
    ensure (is_statement (first_u64 outputs) statement_type_withdrawal) wrong_statement_type
    hash_felts_to_felt (codes "zkapi.wd.outputs.v1") outputs

  unfoldable pub public_output_hash_from_cairo_outputs : List Felt252 → Result OutputsError Felt252
  unfolding first_u64 request_public_output_hash_from_outputs
      withdrawal_public_output_hash_from_outputs
  public_output_hash_from_cairo_outputs outputs = elim (first_u64 outputs) [
    | none ↦ err no_public_outputs
    | some statement_type ↦ elim (statement_type == statement_type_request) [
      | true ↦ request_public_output_hash_from_outputs outputs
      | false ↦ elim (statement_type == statement_type_withdrawal) [
        | true ↦ withdrawal_public_output_hash_from_outputs outputs
        | false ↦ err (unknown_statement_type statement_type)
      ]
    ]
  ]
