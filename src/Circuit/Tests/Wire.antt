-- ===== src/Circuit/Tests/Wire.antt =====
-- Statements on the wire, read over the toy curve with its two tests of points written out.
use zk_api.Prelude.{ℕ, ◌&&◌, ltb, ◌≡◌, refl, Bool, true, false, map, replicate, arith}
use zk_api.Felt.{from_u64, from_u128, to_be_bytes, from_be_bytes}
use zk_api.Felt.Bytes.{from-to_be_bytes}
use zk_api.Core.{felt_to_field}
use zk_api.Curve.{BabyJubJub, point_from_wire}
use zk_api.Curve.Toy.{Bits, toy, toy_curve}
use zk_api.Inputs.{
  RequestPublicInputsV2, WithdrawalPublicInputsV2, request_field_elements,
  withdrawal_field_elements, destination_field,
}
use zk_api.Circuit.{RequestPublic, WithdrawalPublic}
use zk_api.Circuit.Wire.{
  request_public_from_wire, withdrawal_public_from_wire, request_public_elements,
  withdrawal_public_elements,
}
use zk_api.Circuit.Verified.{
  WireLaws, request_public_elements-from_wire, withdrawal_public_elements-from_wire,
}
use zk_api.Circuit.Tests.{toy_field}

abbrev checked_curve : BabyJubJub ℕ Bool Bits
checked_curve = record toy_curve { is_on_curve = λ x y. ltb x 4 && ltb y 2 }

wire_laws : WireLaws toy_field toy checked_curve
unfolding toy toy_curve felt_to_field from_u64 from_u128 from_be_bytes
wire_laws = record {
  from_u64 = λ n lt. from-to_be_bytes 8 n lt;
  from_u128 = λ n lt. from-to_be_bytes 16 n lt;
  affine_x = λ x y on inside. ground arith;
  affine_y = λ x y on inside. ground arith;
}

abbrev request : RequestPublicInputsV2
request = record {
  protocol_version = 2;
  chain_id = 1;
  contract_address = from_u64 11;
  active_root = from_u64 12;
  state_signing_key_x = from_u64 1;
  state_signing_key_y = from_u64 0;
  request_time = 800;
  solvency_bound = 100;
  request_nullifier = from_u64 13;
  authorization_tag = from_u64 14;
  anonymous_commitment_x = from_u64 3;
  anonymous_commitment_y = from_u64 1;
}

abbrev read_request : RequestPublic ℕ Bits
read_request = record {
  protocol_version = 2;
  chain_id = 1;
  contract_address = 11;
  active_root = 12;
  state_signing_key = record { g = true; h = false; j = false };
  request_time = 800;
  solvency_bound = 100;
  request_nullifier = 13;
  authorization_tag = 14;
  anonymous_commitment = record { g = true; h = true; j = true };
}

request_public_elements-from_wire_example :
    request_public_elements toy_field checked_curve read_request
    ≡ map (felt_to_field toy) (request_field_elements request)
unfolding request_public_from_wire point_from_wire felt_to_field toy toy_curve from_u64 to_be_bytes
    from_be_bytes
request_public_elements-from_wire_example =
    request_public_elements-from_wire toy_field toy checked_curve wire_laws request read_request
      (omega arith) (omega arith) (omega arith) (omega arith) refl

abbrev withdrawal : WithdrawalPublicInputsV2
withdrawal = record {
  protocol_version = 2;
  chain_id = 1;
  contract_address = from_u64 11;
  active_root = from_u64 12;
  state_signing_key_x = from_u64 1;
  state_signing_key_y = from_u64 0;
  clearance_signing_key_x = from_u64 2;
  clearance_signing_key_y = from_u64 1;
  note_id = 5;
  final_balance = 60;
  destination = replicate 20 1;
  withdrawal_nullifier = from_u64 13;
  has_clearance = true;
  withdrawal_tag = from_u64 14;
}

abbrev read_withdrawal : WithdrawalPublic ℕ Bits
read_withdrawal = record {
  protocol_version = 2;
  chain_id = 1;
  contract_address = 11;
  active_root = 12;
  state_signing_key = record { g = true; h = false; j = false };
  clearance_signing_key = record { g = false; h = true; j = true };
  note_id = 5;
  final_balance = 60;
  destination = felt_to_field toy (destination_field (replicate 20 1));
  withdrawal_nullifier = 13;
  has_clearance = true;
  withdrawal_tag = 14;
}

withdrawal_public_elements-from_wire_example :
    withdrawal_public_elements toy_field checked_curve read_withdrawal
    ≡ map (felt_to_field toy) (withdrawal_field_elements withdrawal)
unfolding withdrawal_public_from_wire point_from_wire felt_to_field toy toy_curve from_u64
    to_be_bytes from_be_bytes destination_field
withdrawal_public_elements-from_wire_example =
    withdrawal_public_elements-from_wire toy_field toy checked_curve wire_laws withdrawal
      read_withdrawal (omega arith) (omega arith) (omega arith) (omega arith) refl
