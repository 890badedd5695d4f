-- ===== src/Wallet/Tests/Stuck.antt =====
-- A completion that stops before the journal is removed, at the inputs of Wallet/Tests.
use zk_api.Prelude.{false, ◌+◌, ◌≡◌, ◌≢◌, refl, ap, true, some, codes, err}
use zk_api.Felt.{from_u64, to_be_bytes, from_be_bytes}
use zk_api.Curve.{scalar, scalar_to_felt}
use zk_api.Curve.Toy.{Bits, toy, toy_curve, toy_laws}
use zk_api.Wallet.{NoteState, io, read, has_pending_request}
use zk_api.Wallet.Request.{failed}
use zk_api.Wallet.Response.{complete_pending_response}
use zk_api.Wallet.Crash.{complete_pending_response_stuck}
use zk_api.Wallet.Tests.{
  note, journal, pending_wallet, anonymous, response, well_formed, rerandomized, honest, toy_keccak,
}

-- The two blindings cancel, while the charge of 1 is the generator.
blindings_apart :
    toy_curve.add
      (toy_curve.mul_bigint
        (toy_curve.scalar_into_bigint (scalar toy toy_curve journal.user_rerandomization))
        toy_curve.blinding_generator)
      (toy_curve.mul_bigint
        (toy_curve.scalar_into_bigint (scalar toy toy_curve response.blind_delta_srv))
        toy_curve.blinding_generator)
    ≢ toy_curve.mul_bigint
        (toy_curve.scalar_into_bigint (toy_curve.scalar_from_u128 1))
        toy_curve.generator
unfolding scalar scalar_to_felt toy toy_curve from_u64 to_be_bytes from_be_bytes
blindings_apart e = let g = ap (λ (b : Bits). b.g) e in cc

complete_pending_response_stuck_example :
    let w' =
      (complete_pending_response toy toy_curve toy_keccak true false response pending_wallet).1 in
    (n : NoteState) × ((complete_pending_response toy toy_curve toy_keccak true false response
        pending_wallet).0
      ≡ err io)
    × (w'.state ≡ some n)
    × (n.current_balance + 1 ≡ note.current_balance)
    × (has_pending_request w' ≡ true)
    × (complete_pending_response toy toy_curve toy_keccak true true response w'
        ≡ (err (failed (codes "next commitment algebra mismatch")), w'))
unfolding read
complete_pending_response_stuck_example =
    complete_pending_response_stuck toy toy_curve toy_keccak toy_laws true true pending_wallet note
      journal anonymous response well_formed refl refl rerandomized honest blindings_apart
