-- ===== src/Circuit/Constraints.antt =====
-- rust/crates/zkapi-proof/src/groth16.rs: what `generate_constraints` enforces of a request and of a
-- withdrawal.
use zk_api.Prelude.{Bool, not, ◌&&◌, [], ◌∷◌, codes, leb, if◌then◌else◌}
use zk_api.Core.{Poseidon, domain, hash_fields}
use zk_api.Curve.{BabyJubJub}
use zk_api.Circuit.{
  CircuitField, RequestPublic, RequestWitness, WithdrawalPublic, WithdrawalWitness,
}
use zk_api.Circuit.Gadgets.{
  registration_var, leaf_var, uint_bits, path_var, commitment_var, state_message_var,
  clearance_message_var, enforce_signature, conditional,
}

module _ {Fr Sc Pt : Type 0} (k : CircuitField Fr) (p : Poseidon Fr) (c : BabyJubJub Fr Sc Pt) where
  unfoldable pub request_constraints : RequestPublic Fr Pt → RequestWitness Fr Sc Pt → Bool
  request_constraints x w =
      let leaf = leaf_var k p w.note_id (registration_var k p w.secret) w.deposit_amount w.expiry in
      let current_commitment = commitment_var c w.current_balance w.current_blinding leaf in
      let message =
        state_message_var k p c x.protocol_version x.chain_id x.contract_address current_commitment
          w.current_anchor in
      not (k.field_eq w.secret k.zero)
      && leb x.request_time w.expiry
      && leb x.solvency_bound w.current_balance
      && k.field_eq (path_var p (uint_bits 32 w.note_id) leaf w.merkle_siblings) x.active_root
      && conditional w.is_genesis (k.field_eq w.current_anchor k.one)
      && conditional w.is_genesis
          (k.field_eq (k.from_uint w.current_balance) (k.from_uint w.deposit_amount))
      && enforce_signature p c x.state_signing_key message w.state_signature (not w.is_genesis)
      && c.point_eq
          (c.add current_commitment
            (c.mul_bigint (c.scalar_into_bigint w.rerandomization) c.blinding_generator))
          x.anonymous_commitment
      && k.field_eq
          (hash_fields p (domain p (codes "zkapi.v2.null") ∷ w.secret ∷ w.current_anchor ∷ []))
          x.request_nullifier
      && k.field_eq
          (hash_fields p
            (domain p (codes "zkapi.v2.auth") ∷ x.request_nullifier ∷ w.request_context ∷ []))
          x.authorization_tag

  unfoldable pub withdrawal_constraints : WithdrawalPublic Fr Pt → WithdrawalWitness Fr Sc Pt → Bool
  withdrawal_constraints x w =
      let leaf = leaf_var k p x.note_id (registration_var k p w.secret) w.deposit_amount w.expiry in
      let current_commitment = commitment_var c x.final_balance w.final_blinding leaf in
      let message =
        state_message_var k p c x.protocol_version x.chain_id x.contract_address current_commitment
          w.current_anchor in
      let clear_message =
        clearance_message_var k p x.protocol_version x.chain_id x.contract_address
          x.withdrawal_nullifier in
      not (k.field_eq w.secret k.zero)
      && leb x.final_balance w.deposit_amount
      && k.field_eq (path_var p (uint_bits 32 x.note_id) leaf w.merkle_siblings) x.active_root
      && conditional w.is_genesis (k.field_eq w.current_anchor k.one)
      && conditional w.is_genesis
          (k.field_eq (k.from_uint x.final_balance) (k.from_uint w.deposit_amount))
      && enforce_signature p c x.state_signing_key message w.state_signature (not w.is_genesis)
      && k.field_eq
          (hash_fields p (domain p (codes "zkapi.v2.null") ∷ w.secret ∷ w.current_anchor ∷ []))
          x.withdrawal_nullifier
      && k.field_eq
          (hash_fields p (
            domain p (codes "zkapi.v2.withdraw")
            ∷ x.withdrawal_nullifier
            ∷ x.destination
            ∷ k.from_uint x.final_balance
            ∷ (if x.has_clearance then k.one else k.zero)
            ∷ []))
          x.withdrawal_tag
      && enforce_signature p c x.clearance_signing_key clear_message w.clearance_signature
          x.has_clearance
