-- ===== src/Circuit/Wire.antt =====
-- rust/crates/zkapi-proof/src/compact.rs and groth16.rs: public inputs read from the wire, and the
-- field elements that proofs are verified against.
use zk_api.Prelude.{List, [], ◌∷◌, Result, ok, ◌>>=◌}
use zk_api.Core.{Poseidon, felt_to_field}
use zk_api.Curve.{BabyJubJub, CurveError, point_from_wire}
use zk_api.Inputs.{RequestPublicInputsV2, WithdrawalPublicInputsV2, destination_field, bool_as_u64}
use zk_api.Circuit.{CircuitField, RequestPublic, WithdrawalPublic}

module _ {Fr Sc Pt : Type 0} (p : Poseidon Fr) (c : BabyJubJub Fr Sc Pt) where
  unfoldable pub request_public_from_wire :
      RequestPublicInputsV2 → Result CurveError (RequestPublic Fr Pt)
  request_public_from_wire public = do
    key ←
        point_from_wire p c
          (record { x = public.state_signing_key_x; y = public.state_signing_key_y })
    commitment ←
        point_from_wire p c
          (record { x = public.anonymous_commitment_x; y = public.anonymous_commitment_y })
    ok (record {
      protocol_version = public.protocol_version;
      chain_id = public.chain_id;
      contract_address = felt_to_field p public.contract_address;
      active_root = felt_to_field p public.active_root;
      state_signing_key = key;
      request_time = public.request_time;
      solvency_bound = public.solvency_bound;
      request_nullifier = felt_to_field p public.request_nullifier;
      authorization_tag = felt_to_field p public.authorization_tag;
      anonymous_commitment = commitment;
    })

  unfoldable pub withdrawal_public_from_wire :
      WithdrawalPublicInputsV2 → Result CurveError (WithdrawalPublic Fr Pt)
  withdrawal_public_from_wire public = do
    key ←
        point_from_wire p c
          (record { x = public.state_signing_key_x; y = public.state_signing_key_y })
    clearance_key ←
        point_from_wire p c
          (record { x = public.clearance_signing_key_x; y = public.clearance_signing_key_y })
    ok (record {
      protocol_version = public.protocol_version;
      chain_id = public.chain_id;
      contract_address = felt_to_field p public.contract_address;
      active_root = felt_to_field p public.active_root;
      state_signing_key = key;
      clearance_signing_key = clearance_key;
      note_id = public.note_id;
      final_balance = public.final_balance;
      destination = felt_to_field p (destination_field public.destination);
      withdrawal_nullifier = felt_to_field p public.withdrawal_nullifier;
      has_clearance = public.has_clearance;
      withdrawal_tag = felt_to_field p public.withdrawal_tag;
    })

module _ {Fr Sc Pt : Type 0} (k : CircuitField Fr) (c : BabyJubJub Fr Sc Pt) where
  unfoldable pub request_public_elements : RequestPublic Fr Pt → List Fr
  request_public_elements x =
      k.from_uint x.protocol_version
      ∷ k.from_uint x.chain_id
      ∷ x.contract_address
      ∷ x.active_root
      ∷ c.affine_x x.state_signing_key
      ∷ c.affine_y x.state_signing_key
      ∷ k.from_uint x.request_time
      ∷ k.from_uint x.solvency_bound
      ∷ x.request_nullifier
      ∷ x.authorization_tag
      ∷ c.affine_x x.anonymous_commitment
      ∷ c.affine_y x.anonymous_commitment
      ∷ []

  unfoldable pub withdrawal_public_elements : WithdrawalPublic Fr Pt → List Fr
  withdrawal_public_elements x =
      k.from_uint x.protocol_version
      ∷ k.from_uint x.chain_id
      ∷ x.contract_address
      ∷ x.active_root
      ∷ c.affine_x x.state_signing_key
      ∷ c.affine_y x.state_signing_key
      ∷ c.affine_x x.clearance_signing_key
      ∷ c.affine_y x.clearance_signing_key
      ∷ k.from_uint x.note_id
      ∷ k.from_uint x.final_balance
      ∷ x.destination
      ∷ x.withdrawal_nullifier
      ∷ k.from_uint (bool_as_u64 x.has_clearance)
      ∷ x.withdrawal_tag
      ∷ []
