-- ===== src/Wallet/Response.antt =====
-- rust/crates/zkapi-client/src/wallet_v2.rs: `apply_response`, `complete_pending_response` and
-- `clear_pending_request`. The flags say whether the disk accepts the new state and the removal of
-- the journal.
use zk_api.Prelude.{
  ℕ, Bool, false, not, ◌&&◌, Option, some, List, Str, codes, leb, bytes_eq, Result, ok, err, ◌>>=◌,
  ◌>>◌, ensure, ok_or, map_err,
}
use zk_api.Felt.{Felt252, felt_eq, is_zero, to_hex}
use zk_api.Core.{Poseidon, state_message}
use zk_api.Curve.{
  CurvePointWire, wire_eq, BabyJubJub, rerandomize, add_blindings, server_update, verify_signature,
}
use zk_api.Inputs.{canonical_response_hash}
use zk_api.Wallet.{
  store_state, clear_pending_request, applied_cap, checked_sub, pending_request, counter_exhausted,
  no_active_note, ClientError, ClientConfig, NoteState, RequestResponseV2, PendingRequestJournal,
  read, Wallet,
}
use zk_api.Wallet.Request.{failed, curve_message, parse_scalar, current_commitment}

module _ {Fr Sc Pt : Type 0} (p : Poseidon Fr) (c : BabyJubJub Fr Sc Pt)
    (keccak : List ℕ → List ℕ) where
  -- The state that `apply_response` saves, or why it does not.
  unfoldable pub next_state :
      ClientConfig
      → Option NoteState
      → RequestResponseV2
      → Str
      → Felt252
      → CurvePointWire
      → Felt252
      → Result ClientError NoteState
  unfolding applied_cap parse_scalar
  next_state config note response request_id null anonymous rerandomization = do
    ensure
        (bytes_eq response.client_request_id request_id && felt_eq response.request_nullifier null)
        (failed (codes "response request identity mismatch"))
    hashed ← ok_or (canonical_response_hash keccak response.response_payload) counter_exhausted
    ensure (felt_eq hashed response.response_hash) (failed (codes "response payload hash mismatch"))
    ensure (leb response.charge_applied (applied_cap config) && not (is_zero response.next_anchor))
        (failed (codes "invalid charge or next anchor"))
    expected ←
        map_err (λ e. failed (curve_message e))
          (server_update p c anonymous response.charge_applied response.blind_delta_srv)
    ensure (wire_eq expected response.next_commitment)
        (failed (codes "next commitment algebra mismatch"))
    state ← ok_or note no_active_note
    let message =
        state_message p state.protocol_version state.chain_id state.contract_address
          response.next_commitment.x response.next_commitment.y response.next_anchor
    verified ←
        map_err (λ e. failed (curve_message e))
          (verify_signature p c config.state_signing_key message response.next_state_signature)
    ensure verified (failed (codes "invalid next-state signature"))
    current_blinding ← parse_scalar state.balance_blinding
    let next_blinding =
        add_blindings p c (add_blindings p c current_blinding rerandomization)
          response.blind_delta_srv
    balance ←
        ok_or (checked_sub state.current_balance response.charge_applied)
          (failed (codes "charge exceeds balance"))
    ok (record state {
      current_balance = balance;
      balance_blinding = to_hex next_blinding;
      current_commitment_x = response.next_commitment.x;
      current_commitment_y = response.next_commitment.y;
      current_anchor = response.next_anchor;
      is_genesis = false;
      state_signature = some response.next_state_signature;
    })

  unfoldable pub apply_response :
      Bool
      → RequestResponseV2
      → Str
      → Felt252
      → CurvePointWire
      → Felt252
      → Wallet
      → Result ClientError (Unit {0}) × Wallet
  unfolding next_state store_state
  apply_response saved response request_id null anonymous rerandomization w =
      elim (next_state w.config w.state response request_id null anonymous rerandomization) [
        | err e ↦ (err e, w)
        | ok next ↦ store_state saved next w
      ]

  -- What `complete_pending_response` reads before it applies the response: the journal entry and
  -- the anonymous commitment of its request.
  unfoldable pub pending_commitment :
      Wallet → Result ClientError (PendingRequestJournal × CurvePointWire)
  unfolding read current_commitment
  pending_commitment w = do
    found ← read w.journal_file
    journal ← ok_or found pending_request
    state ← ok_or w.state no_active_note
    current ← current_commitment p c keccak state
    anonymous ←
        map_err (λ e. failed (curve_message e))
          (rerandomize p c (current.1) journal.user_rerandomization)
    ok (journal, anonymous)

  unfoldable pub complete_pending_response :
      Bool → Bool → RequestResponseV2 → Wallet → Result ClientError (Unit {0}) × Wallet
  unfolding pending_commitment apply_response clear_pending_request
  complete_pending_response saved cleared response w = elim (pending_commitment w) [
    | err e ↦ (err e, w)
    | ok pending ↦
        let journal = pending.0 in
        let applied =
          apply_response saved response journal.client_request_id journal.nullifier (pending.1)
            journal.user_rerandomization w in
        elim (applied.0) [
          | err e ↦ (err e, applied.1)
          | ok u ↦ clear_pending_request cleared (applied.1)
        ]
  ]
