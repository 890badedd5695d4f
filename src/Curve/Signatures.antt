-- ===== src/Curve/Signatures.antt =====
-- Schnorr signatures: what the key signs verifies, in the group and over the wire.
use zk_api.Prelude.{◌≡◌, ◌∙◌, ap, true, ok}
use zk_api.Felt.{Felt252}
use zk_api.Core.{Poseidon, felt_to_field}
use zk_api.Curve.{
  BabyJubJub, StateSignature, point_to_wire, signature_challenge, from_secret, sign,
  verify_state_signature, signature_from_wire, signature_to_wire, verify_signature,
}
use zk_api.Curve.Commitments.{CurveLaws, point_from-to_wire}

module _ {Fr Sc Pt : Type 0} (p : Poseidon Fr) (c : BabyJubJub Fr Sc Pt)
    (laws : CurveLaws p c) where
  -- A signature by a key that `from_secret` made verifies under its public key, whatever the
  -- secret, the nonce and the message.
  verify-sign :
      (secret nonce : Sc) (message : Fr)
      → verify_state_signature p c
          (from_secret p c secret).public
          message
          (sign p c (from_secret p c secret) message nonce)
        ≡ true
  unfolding verify_state_signature sign from_secret
  verify-sign secret nonce message =
      let key = from_secret p c secret in
      let r = c.mul_bigint (c.scalar_into_bigint nonce) c.generator in
      let challenge = signature_challenge p c r message in
      let rhs = c.add r (c.mul_bigint (c.scalar_into_bigint challenge) key.public) in
      ap (λ (t : Pt). c.point_eq t rhs)
        (laws.mul_add nonce (c.scalar_mul challenge key.secret) c.generator
          ∙ ap (c.add r) (laws.mul_mul challenge key.secret c.generator))
      ∙ laws.point_eq_refl rhs

  signature_from-to_wire :
      (s : StateSignature Sc Pt) → signature_from_wire p c (signature_to_wire p c s) ≡ ok s
  unfolding signature_from_wire signature_to_wire
  signature_from-to_wire s =
      rw (point_from-to_wire p c laws s.r)
        (ap (λ (t : Sc). ok (record { r = s.r; s = t })) (laws.wire_scalar s.s))

  -- Under the laws of the curve, a signature that `sign` makes with the key of a secret, encoded
  -- for the wire, is accepted by `verify_signature` under the encoded public key of that secret,
  -- for the signed message.
  pub verify_signature-sign :
      (secret nonce : Sc) (message : Felt252)
      → let key = from_secret p c secret in
        verify_signature p c
          (point_to_wire p c key.public)
          message
          (signature_to_wire p c (sign p c key (felt_to_field p message) nonce))
        ≡ ok true
  unfolding verify_signature
  verify_signature-sign secret nonce message =
      rw
        (
          point_from-to_wire p c laws (from_secret p c secret).public,
          signature_from-to_wire
              (sign p c (from_secret p c secret) (felt_to_field p message) nonce),
        )
        (ap ok (verify-sign secret nonce (felt_to_field p message)))
