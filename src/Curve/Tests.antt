-- ===== src/Curve/Tests.antt =====
-- The homomorphism and the signatures at concrete inputs.
use zk_api.Prelude.{◌≡◌, true, ok, ◌>>=◌, arith}
use zk_api.Felt.{from_u64}
use zk_api.Core.{felt_to_field}
use zk_api.Curve.{
  from_secret, sign, point_to_wire, signature_to_wire, verify_signature, balance_commitment,
  rerandomize, server_update, add_blindings,
}
use zk_api.Curve.Toy.{toy, toy_curve, toy_laws}
use zk_api.Curve.Commitments.{server_update-rerandomize}
use zk_api.Curve.Signatures.{verify_signature-sign}

server_update-rerandomize_example :
    (rerandomize toy toy_curve
        (balance_commitment toy toy_curve 900 (from_u64 3) (from_u64 77))
        (from_u64 4)
      >>= λ anonymous. server_update toy toy_curve anonymous 25 (from_u64 5))
    ≡ ok (
        balance_commitment toy toy_curve 875
          (add_blindings toy toy_curve
            (add_blindings toy toy_curve (from_u64 3) (from_u64 4))
            (from_u64 5))
          (from_u64 77))
server_update-rerandomize_example =
    server_update-rerandomize toy toy_curve toy_laws 900 25 (from_u64 3) (from_u64 4) (from_u64 5)
      (from_u64 77) (omega arith)

verify_signature-sign_example :
    let key = from_secret toy toy_curve true in
    verify_signature toy toy_curve (point_to_wire toy toy_curve key.public) (from_u64 99) (
      signature_to_wire toy toy_curve
        (sign toy toy_curve key (felt_to_field toy (from_u64 99)) true))
    ≡ ok true
verify_signature-sign_example = verify_signature-sign toy toy_curve toy_laws true true (from_u64 99)
