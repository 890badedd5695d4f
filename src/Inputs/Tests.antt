-- ===== src/Inputs/Tests.antt =====
-- The statements and their hashes at concrete inputs.
use zk_api.Prelude.{[], ◌∷◌, ℕ, ◌≡◌, refl, List, some, arith, length, replicate, true, false, codes}
use zk_api.Felt.{from_u64, felt_zero, to_be_bytes, try_from_bytes_be, bytes_lt, field_modulus_bytes}
use zk_api.Inputs.{
  RequestPublicInputsV2, WithdrawalPublicInputsV2, RequestPublicInputs, WithdrawalPublicInputs,
  digest, hash_bytes_to_felt, public_output_hash_from_cairo_outputs, request_cairo_outputs,
  withdrawal_cairo_outputs, request_public_output_hash, withdrawal_public_output_hash,
}
use zk_api.Inputs.Binding.{request_field_elements-injective}
use zk_api.Inputs.Hashing.{hash_bytes_to_felt-first, public_output_hash_from_cairo_outputs_lem}

-- A digest that tells its length.
abbrev toy_keccak : List ℕ → List ℕ
unfolding to_be_bytes
toy_keccak bytes = to_be_bytes 32 (length bytes)

abbrev request : RequestPublicInputsV2
request = record {
  protocol_version = 2;
  chain_id = 8453;
  contract_address = from_u64 99;
  active_root = from_u64 7;
  state_signing_key_x = from_u64 8;
  state_signing_key_y = from_u64 9;
  request_time = 1700000000;
  solvency_bound = 250;
  request_nullifier = from_u64 10;
  authorization_tag = from_u64 11;
  anonymous_commitment_x = from_u64 12;
  anonymous_commitment_y = from_u64 13;
}

abbrev withdrawal : WithdrawalPublicInputsV2
withdrawal = record {
  protocol_version = 2;
  chain_id = 8453;
  contract_address = from_u64 99;
  active_root = from_u64 7;
  state_signing_key_x = from_u64 8;
  state_signing_key_y = from_u64 9;
  clearance_signing_key_x = from_u64 8;
  clearance_signing_key_y = from_u64 9;
  note_id = 4;
  final_balance = 250;
  destination = replicate 20 170;
  withdrawal_nullifier = from_u64 10;
  has_clearance = true;
  withdrawal_tag = from_u64 11;
}

abbrev old_request : RequestPublicInputs
old_request = record {
  statement_type = 1;
  protocol_version = 1;
  chain_id = 8453;
  contract_address = from_u64 99;
  active_root = from_u64 7;
  state_sig_epoch = 0;
  state_sig_root = felt_zero;
  request_nullifier = from_u64 10;
  anon_commitment_x = from_u64 12;
  anon_commitment_y = from_u64 13;
  expiry_ts = 1700000000;
  solvency_bound = 250;
}

abbrev old_withdrawal : WithdrawalPublicInputs
old_withdrawal = record {
  statement_type = 2;
  protocol_version = 1;
  chain_id = 8453;
  contract_address = from_u64 99;
  active_root = from_u64 7;
  note_id = 4;
  final_balance = 250;
  destination = replicate 20 170;
  withdrawal_nullifier = from_u64 10;
  is_genesis = true;
  has_clearance = false;
  state_sig_epoch = 0;
  state_sig_root = felt_zero;
  clear_sig_epoch = 0;
  clear_sig_root = felt_zero;
}

request_field_elements-injective_example : request ≡ request
request_field_elements-injective_example =
    request_field_elements-injective request request (omega arith) (omega arith) refl

hash_bytes_to_felt-first_example :
    hash_bytes_to_felt toy_keccak (codes "domain") (1 ∷ 2 ∷ 3 ∷ [])
    ≡ some (record { bytes = to_be_bytes 32 21 })
unfolding digest try_from_bytes_be bytes_lt field_modulus_bytes to_be_bytes
hash_bytes_to_felt-first_example =
    hash_bytes_to_felt-first toy_keccak 0 (codes "domain") (1 ∷ 2 ∷ 3 ∷ [])
      (record { bytes = to_be_bytes 32 21 }) (omega arith) (λ i h. absurd (omega arith)) refl

public_output_hash_from_cairo_outputs_lem_example :
    (public_output_hash_from_cairo_outputs toy_keccak (request_cairo_outputs old_request)
      ≡ request_public_output_hash toy_keccak old_request)
    × (public_output_hash_from_cairo_outputs toy_keccak (withdrawal_cairo_outputs old_withdrawal)
        ≡ withdrawal_public_output_hash toy_keccak old_withdrawal)
public_output_hash_from_cairo_outputs_lem_example =
    public_output_hash_from_cairo_outputs_lem toy_keccak old_request old_withdrawal refl refl
