-- ===== src/Wallet/Crash.antt =====
-- rust/crates/zkapi-client/src/wallet_v2.rs: the window of `complete_pending_response` between
-- saving the new state and removing the journal.
use zk_api.Prelude.{
  ℕ, ◌+◌, ◌≡◌, ◌≢◌, refl, sym, ◌∙◌, Bool, Bool-cases, inl, inr, true, false, some, List, codes, ok,
  err, arith,
}
use zk_api.Felt.{Felt252}
use zk_api.Core.{Poseidon, felt_to_field}
use zk_api.Curve.{
  CurvePointWire, wire_eq, BabyJubJub, balance_commitment, rerandomize, server_update, scalar,
  commitment_point, rerandomize_commitment, updated_point, point_to_wire,
}
use zk_api.Curve.Commitments.{CurveLaws, point_from-to_wire}
use zk_api.Curve.Replay.{point_to_wire-injective, updated_point-rerandomize_commitment}
use zk_api.Wallet.{
  io, NoteState, RequestResponseV2, PendingRequestJournal, Wallet, holds, read, store_state,
  clear_pending_request, has_pending_request,
}
use zk_api.Wallet.Request.{failed, state_note_leaf}
use zk_api.Wallet.Response.{next_state, apply_response, complete_pending_response}
use zk_api.Wallet.Invariant.{NoteOpens, IsWellFormed, next_state-Accepted, wire_eq_sound}
use zk_api.Wallet.Balance.{Accepted-NoteOpens}
use zk_api.Wallet.Settled.{IsHonest, next_state-IsHonest, pending_commitment-NoteOpens}

module _ {Fr Sc Pt : Type 0} (p : Poseidon Fr) (c : BabyJubJub Fr Sc Pt)
    (keccak : List ℕ → List ℕ) where
  next_state-mismatch :
      (w : Wallet) (s n : NoteState) (j : PendingRequestJournal) (a a' e : CurvePointWire)
      (r : RequestResponseV2)
      → next_state p c keccak w.config
          (some s)
          r
          j.client_request_id
          j.nullifier
          a
          j.user_rerandomization
        ≡ ok n
      → server_update p c a' r.charge_applied r.blind_delta_srv ≡ ok e
      → wire_eq e r.next_commitment ≡ false
      → next_state p c keccak w.config
          (some n)
          r
          j.client_request_id
          j.nullifier
          a'
          j.user_rerandomization
        ≡ err (failed (codes "next commitment algebra mismatch"))
  unfolding next_state
  next_state-mismatch w s n j a a' e r h up differs = ground arith

  -- The commitment of a note that opens is a point on the wire.
  opened_point :
      (n : NoteState) (o : NoteOpens p c keccak n)
      → record { x = n.current_commitment_x; y = n.current_commitment_y }
        ≡ point_to_wire p c (
            commitment_point p c n.current_balance
              (scalar p c o.blinding)
              (felt_to_field p (state_note_leaf p c keccak n)))
  opened_point n o = sym o.commits ∙ (unfold balance_commitment in refl)

  -- Updating the point a second time by the same response gives another commitment.
  update-differs :
      (laws : CurveLaws p c) (commitment : Pt) (q delta : Felt252) (charge : ℕ)
      → c.add
          (c.mul_bigint (c.scalar_into_bigint (scalar p c q)) c.blinding_generator)
          (c.mul_bigint (c.scalar_into_bigint (scalar p c delta)) c.blinding_generator)
        ≢ c.mul_bigint (c.scalar_into_bigint (c.scalar_from_u128 charge)) c.generator
      → (a e : CurvePointWire) × (rerandomize p c (point_to_wire p c commitment) q ≡ ok a)
        × (server_update p c a charge delta ≡ ok e)
        × (wire_eq e (point_to_wire p c commitment) ≡ false)
  unfolding rerandomize server_update
  update-differs laws commitment q delta charge apart =
      let moved = rerandomize_commitment p c commitment (scalar p c q) in
      let updated = updated_point p c moved charge (scalar p c delta) in
      (
        point_to_wire p c moved,
        point_to_wire p c updated,
        rw (point_from-to_wire p c laws commitment) refl,
        rw (point_from-to_wire p c laws moved) refl,
        elim (Bool-cases (wire_eq (point_to_wire p c updated) (point_to_wire p c commitment))) [
          | inr apart_again ↦ apart_again
          | inl same ↦ absurd (
              apart (
                updated_point-rerandomize_commitment p c laws commitment (scalar p c q)
                  (scalar p c delta) charge
                  (point_to_wire-injective p c laws updated commitment
                    (wire_eq_sound p c keccak _ _ same))))
        ],
      )

  -- Let a well-formed wallet have a pending request and a response that keeps to the protocol for
  -- it, of which the rerandomization and the delta together, as multiples of the blinding generator,
  -- are not the charge as a multiple of the generator; and let the disk accept the new state and not
  -- the removal of the journal. Then the result is an I/O error, the charge is off the balance, the
  -- request is still pending, and completing the same response again answers "next commitment
  -- algebra mismatch" and changes nothing. The laws of the curve are assumed.
  pub complete_pending_response_stuck :
      (laws : CurveLaws p c) (saved cleared : Bool) (w : Wallet) (s : NoteState)
      (j : PendingRequestJournal) (a : CurvePointWire) (r : RequestResponseV2)
      → IsWellFormed p c keccak w
      → w.state ≡ some s
      → read w.journal_file ≡ ok (some j)
      → rerandomize p c
          (record { x = s.current_commitment_x; y = s.current_commitment_y })
          j.user_rerandomization
        ≡ ok a
      → IsHonest p c keccak w.config s j a r
      → c.add
          (c.mul_bigint
            (c.scalar_into_bigint (scalar p c j.user_rerandomization))
            c.blinding_generator)
          (c.mul_bigint (c.scalar_into_bigint (scalar p c r.blind_delta_srv)) c.blinding_generator)
        ≢ c.mul_bigint (c.scalar_into_bigint (c.scalar_from_u128 r.charge_applied)) c.generator
      → let w' = (complete_pending_response p c keccak true false r w).1 in
        (n : NoteState) × ((complete_pending_response p c keccak true false r w).0 ≡ err io)
        × (w'.state ≡ some n)
        × (n.current_balance + r.charge_applied ≡ s.current_balance)
        × (has_pending_request w' ≡ true)
        × (complete_pending_response p c keccak saved cleared r w'
            ≡ (err (failed (codes "next commitment algebra mismatch")), w'))
  unfolding complete_pending_response apply_response store_state clear_pending_request
      has_pending_request read
  complete_pending_response_stuck laws saved cleared w s j a r i e found ra honest apart =
      let q = j.user_rerandomization in
      let o = i.opens s e in
      let pending = pending_commitment-NoteOpens p c keccak laws w s j a o e found ra in
      let (n, next) =
        next_state-IsHonest p c keccak w.config s j a r o.blinding q o.parses honest in
      let acc =
        next_state-Accepted p c keccak w.config s n r j.client_request_id j.nullifier a q next in
      let shown : rerandomize p c
            (balance_commitment p c s.current_balance o.blinding (state_note_leaf p c keccak s)) q
          ≡ ok a =
        (let k = o.commits in rw k ra) in
      let opens = Accepted-NoteOpens p c keccak laws w.config s n r a q o shown acc in
      let point =
        commitment_point p c n.current_balance (scalar p c opens.blinding)
          (felt_to_field p (state_note_leaf p c keccak n)) in
      let (a', u, moved, up, differs) =
        update-differs laws point q r.blind_delta_srv r.charge_applied apart in
      let stored = opened_point n opens in
      let w1 = record w { state = some n; note_file = holds n } in
      let pending' =
        pending_commitment-NoteOpens p c keccak laws w1 n j a' opens refl found (rw stored moved) in
      let cx = acc.committed.0 in
      let cy = acc.committed.1 in
      let named : r.next_commitment ≡ point_to_wire p c point =
        (let e1 : r.next_commitment
              ≡ record { x = n.current_commitment_x; y = n.current_commitment_y } =
            cc in
          e1 ∙ stored) in
      let bad = next_state-mismatch w s n j a a' u r next up (rw named differs) in
      (n, ground arith, ground arith, acc.charged, ground arith, ground arith)
