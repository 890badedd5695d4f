-- ===== src/Circuit/Verified.antt =====
-- rust/crates/zkapi-proof/src/compact.rs and groth16.rs, and zkapi-types/src/inputs.rs: the field
-- elements that a proof is verified against are those of the statement on the wire.
use zk_api.Prelude.{ℕ, ◌^◌, ◌<◌, ◌≡◌, true, Bool-cases, inl, inr, map, ok, Result-cases, arith}
use zk_api.Felt.{from_u64, from_u128}
use zk_api.Core.{Poseidon, felt_to_field}
use zk_api.Curve.{CurvePointWire, BabyJubJub, point_from_wire}
use zk_api.Inputs.{
  RequestPublicInputsV2, WithdrawalPublicInputsV2, bool_as_u64, request_field_elements,
  withdrawal_field_elements,
}
use zk_api.Circuit.{CircuitField, RequestPublic, WithdrawalPublic}
use zk_api.Circuit.Wire.{
  request_public_from_wire, withdrawal_public_from_wire, request_public_elements,
  withdrawal_public_elements,
}

-- Integers are the same field element on both ways, and a point that passes the tests keeps its
-- coordinates.
pub record WireLaws {Fr Sc Pt : Type 0} (k : CircuitField Fr) (p : Poseidon Fr)
    (c : BabyJubJub Fr Sc Pt) : Type 0 where
  pub from_u64 : (n : ℕ) → n < 2 ^ 64 → felt_to_field p (from_u64 n) ≡ k.from_uint n
  pub from_u128 : (n : ℕ) → n < 2 ^ 128 → felt_to_field p (from_u128 n) ≡ k.from_uint n
  pub affine_x :
      (x y : Fr)
      → c.is_on_curve x y ≡ true
      → c.is_in_correct_subgroup x y ≡ true
      → c.affine_x (c.into_group x y) ≡ x
  pub affine_y :
      (x y : Fr)
      → c.is_on_curve x y ≡ true
      → c.is_in_correct_subgroup x y ≡ true
      → c.affine_y (c.into_group x y) ≡ y

module _ {Fr Sc Pt : Type 0} (k : CircuitField Fr) (p : Poseidon Fr) (c : BabyJubJub Fr Sc Pt)
    (laws : WireLaws k p c) where
  point_from_wire-affine :
      (w : CurvePointWire) (q : Pt)
      → point_from_wire p c w ≡ ok q
      → (c.affine_x q ≡ felt_to_field p w.x) × (c.affine_y q ≡ felt_to_field p w.y)
  unfolding point_from_wire
  point_from_wire-affine w q h =
      let x = felt_to_field p w.x in
      let y = felt_to_field p w.y in
      elim (Bool-cases (c.is_on_curve x y)) [
        | inr off ↦ absurd (ground arith)
        | inl on ↦ elim (Bool-cases (c.is_in_correct_subgroup x y)) [
          | inr outside ↦ absurd (ground arith)
          | inl inside ↦
              let at_x = laws.affine_x x y on inside in
              let at_y = laws.affine_y x y on inside in (ground arith, ground arith)
        ]
      ]

  -- When a request's public inputs, at machine words, are read from the wire, the list that its
  -- proof is verified against is the list that `RequestPublicInputsV2` spells, element by element.
  pub request_public_elements-from_wire :
      (public : RequestPublicInputsV2) (x : RequestPublic Fr Pt)
      → public.protocol_version < 2 ^ 16
      → public.chain_id < 2 ^ 64
      → public.request_time < 2 ^ 64
      → public.solvency_bound < 2 ^ 128
      → request_public_from_wire p c public ≡ ok x
      → request_public_elements k c x ≡ map (felt_to_field p) (request_field_elements public)
  unfolding request_public_from_wire request_public_elements request_field_elements
  request_public_elements-from_wire public x version chain time bound h =
      let key_wire : CurvePointWire = record {
        x = public.state_signing_key_x;
        y = public.state_signing_key_y;
      } in
      let commitment_wire : CurvePointWire = record {
        x = public.anonymous_commitment_x;
        y = public.anonymous_commitment_y;
      } in
      let v = laws.from_u64 public.protocol_version (omega arith) in
      let i = laws.from_u64 public.chain_id chain in
      let t = laws.from_u64 public.request_time time in
      let s = laws.from_u128 public.solvency_bound bound in
      elim (Result-cases (point_from_wire p c key_wire)) [
        | inr (e, failed) ↦ absurd (ground arith)
        | inl (key, made) ↦ elim (Result-cases (point_from_wire p c commitment_wire)) [
          | inr (e, failed) ↦ absurd (ground arith)
          | inl (commitment, made2) ↦
              let a = point_from_wire-affine key_wire key made in
              let d = point_from_wire-affine commitment_wire commitment made2 in ground arith
        ]
      ]

  -- When a withdrawal's public inputs, at machine words, are read from the wire, the list that its
  -- proof is verified against is the list that `WithdrawalPublicInputsV2` spells, element by element.
  pub withdrawal_public_elements-from_wire :
      (public : WithdrawalPublicInputsV2) (x : WithdrawalPublic Fr Pt)
      → public.protocol_version < 2 ^ 16
      → public.chain_id < 2 ^ 64
      → public.note_id < 2 ^ 32
      → public.final_balance < 2 ^ 128
      → withdrawal_public_from_wire p c public ≡ ok x
      → withdrawal_public_elements k c x ≡ map (felt_to_field p) (withdrawal_field_elements public)
  unfolding withdrawal_public_from_wire withdrawal_public_elements withdrawal_field_elements
  withdrawal_public_elements-from_wire public x version chain note balance h =
      let key_wire : CurvePointWire = record {
        x = public.state_signing_key_x;
        y = public.state_signing_key_y;
      } in
      let clear_wire : CurvePointWire = record {
        x = public.clearance_signing_key_x;
        y = public.clearance_signing_key_y;
      } in
      let v = laws.from_u64 public.protocol_version (omega arith) in
      let i = laws.from_u64 public.chain_id chain in
      let n = laws.from_u64 public.note_id (omega arith) in
      let f = laws.from_u128 public.final_balance balance in
      let b = laws.from_u64 (bool_as_u64 public.has_clearance) (ground arith) in
      elim (Result-cases (point_from_wire p c key_wire)) [
        | inr (e, failed) ↦ absurd (ground arith)
        | inl (key, made) ↦ elim (Result-cases (point_from_wire p c clear_wire)) [
          | inr (e, failed) ↦ absurd (ground arith)
          | inl (clear_key, made2) ↦
              let a = point_from_wire-affine key_wire key made in
              let d = point_from_wire-affine clear_wire clear_key made2 in ground arith
        ]
      ]
