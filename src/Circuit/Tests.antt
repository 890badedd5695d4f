-- ===== src/Circuit/Tests.antt =====
-- Runs of the circuits' constraints over the toy curve: a request from the deposit itself, and a
-- withdrawal of a signed state with the server's clearance.
mod Wire
use zk_api.Prelude.{ℕ, ◌==◌, refl, Bool, true, false, List, replicate, arith}
use zk_api.Curve.{
  StateSigningKey, from_secret, sign, signature_challenge, commitment_point, rerandomize_commitment,
}
use zk_api.Curve.Toy.{Bits, toy, toy_curve}
use zk_api.Circuit.{
  CircuitField, RequestPublic, RequestWitness, WithdrawalPublic, WithdrawalWitness,
}
use zk_api.Core.{hash_fields, domain}
use zk_api.Felt.{to_be_bytes, from_be_bytes}
use zk_api.Circuit.Gadgets.{
  uint_bits, path_var, registration_var, leaf_var, commitment_var, state_message_var,
  clearance_message_var, enforce_signature,
}
use zk_api.Circuit.Constraints.{request_constraints, withdrawal_constraints}
use zk_api.Circuit.Native.{
  registration_commitment, note_leaf, merkle_root, state_message, clearance_message,
  request_nullifier, authorization_tag, withdrawal_tag,
}
use zk_api.Circuit.Equal.{CircuitLaws}
use zk_api.Circuit.Sound.{
  IsRequest, IsWithdrawal, request_constraints-IsRequest, withdrawal_constraints-IsWithdrawal,
}

abbrev pub toy_field : CircuitField ℕ
toy_field = record { from_uint = λ n. n; zero = 0; one = 1; field_eq = ◌==◌ }

toy_laws : CircuitLaws toy_field toy_curve
unfolding toy_curve
toy_laws = record {
  field_eq_sound = λ a b e. ground arith;
  field_eq_refl = λ a. ground arith;
  point_eq_sound = λ a b e. ground arith;
  from_uint_injective = λ m n lt lt2 e. e;
  from_uint-one = refl;
  from_uint-zero = refl;
  mul-from_u128 = λ n q lt. ground arith;
  mul-challenge = λ h q. ground arith;
}

abbrev path : List ℕ
path = replicate 32 3

abbrev leaf : ℕ
leaf = note_leaf toy_field toy 5 (registration_commitment toy_field toy 7) 100 900

abbrev spent : ℕ
spent = request_nullifier toy 7 1

abbrev server_key : StateSigningKey Bool Bits
server_key = from_secret toy toy_curve true

abbrev request : RequestPublic ℕ Bits
request = record {
  protocol_version = 2;
  chain_id = 1;
  contract_address = 11;
  active_root = merkle_root toy 5 leaf path;
  state_signing_key = server_key.public;
  request_time = 800;
  solvency_bound = 100;
  request_nullifier = spent;
  authorization_tag = authorization_tag toy spent 42;
  anonymous_commitment =
      rerandomize_commitment toy toy_curve (commitment_point toy toy_curve 100 true leaf) true;
}

abbrev request_witness : RequestWitness ℕ Bool Bits
request_witness = record {
  secret = 7;
  request_context = 42;
  note_id = 5;
  deposit_amount = 100;
  expiry = 900;
  merkle_siblings = path;
  current_balance = 100;
  current_blinding = true;
  rerandomization = true;
  current_anchor = 1;
  is_genesis = true;
  state_signature = record { r = server_key.public; s = false };
}

request_constraints-IsRequest_example : IsRequest toy_field toy toy_curve request request_witness
unfolding request_constraints toy toy_curve merkle_root note_leaf registration_commitment
    authorization_tag request_nullifier rerandomize_commitment commitment_point from_secret path_var
    uint_bits registration_var leaf_var commitment_var state_message_var clearance_message_var
    enforce_signature sign state_message clearance_message withdrawal_tag hash_fields domain
    signature_challenge to_be_bytes from_be_bytes
request_constraints-IsRequest_example =
    request_constraints-IsRequest toy_field toy toy_curve toy_laws request request_witness
      (omega arith) (omega arith) refl refl

abbrev closing : WithdrawalPublic ℕ Bits
closing = record {
  protocol_version = 2;
  chain_id = 1;
  contract_address = 11;
  active_root = merkle_root toy 5 leaf path;
  state_signing_key = server_key.public;
  clearance_signing_key = server_key.public;
  note_id = 5;
  final_balance = 60;
  destination = 77;
  withdrawal_nullifier = request_nullifier toy 7 13;
  has_clearance = true;
  withdrawal_tag = withdrawal_tag toy_field toy (request_nullifier toy 7 13) 77 60 true;
}

abbrev closing_witness : WithdrawalWitness ℕ Bool Bits
closing_witness = record {
  secret = 7;
  deposit_amount = 100;
  expiry = 900;
  merkle_siblings = path;
  final_blinding = true;
  current_anchor = 13;
  is_genesis = false;
  state_signature =
      sign toy toy_curve server_key
        (state_message toy_field toy toy_curve 2 1 11 (commitment_point toy toy_curve 60 true leaf)
          13)
        true;
  clearance_signature =
      sign toy toy_curve server_key
        (clearance_message toy_field toy 2 1 11 closing.withdrawal_nullifier) false;
}

withdrawal_constraints-IsWithdrawal_example :
    IsWithdrawal toy_field toy toy_curve closing closing_witness
unfolding withdrawal_constraints toy toy_curve merkle_root note_leaf registration_commitment
    authorization_tag request_nullifier rerandomize_commitment commitment_point from_secret path_var
    uint_bits registration_var leaf_var commitment_var state_message_var clearance_message_var
    enforce_signature sign state_message clearance_message withdrawal_tag hash_fields domain
    signature_challenge to_be_bytes from_be_bytes
withdrawal_constraints-IsWithdrawal_example =
    withdrawal_constraints-IsWithdrawal toy_field toy toy_curve toy_laws closing closing_witness
      (omega arith) (omega arith) refl refl
