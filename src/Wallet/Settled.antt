-- ===== src/Wallet/Settled.antt =====
-- rust/crates/zkapi-client/src/wallet_v2.rs: what completing a response does to the wallet.
use zk_api.Prelude.{
  bytes_eq, false, refl, bytes_eq_refl, err, ◌≤◌, true, ◌+◌, ℕ, ◌≡◌, Bool, some, List, ok, arith,
  Result-cases, inl, inr,
}
use zk_api.Felt.{felt_eq, Felt252, is_zero, felt_eq_refl, from_hex}
use zk_api.Inputs.{canonical_response_hash}
use zk_api.Core.{state_message, Poseidon}
use zk_api.Curve.{
  balance_commitment, rerandomize, server_update, verify_signature, wire_eq, CurvePointWire,
  BabyJubJub,
}
use zk_api.Wallet.{
  applied_cap, read, ClientError, ClientConfig, holds, NoteState, RequestResponseV2, Wallet,
  missing, PendingRequestJournal, store_state, clear_pending_request,
}
use zk_api.Wallet.Response.{
  next_state, apply_response, pending_commitment, complete_pending_response,
}
use zk_api.Wallet.Invariant.{next_state-Accepted, IsWellFormed, NoteOpens}
use zk_api.Wallet.Balance.{current_commitment-NoteOpens}
use zk_api.Wallet.Request.{parse_scalar, state_note_leaf}
use zk_api.Curve.Commitments.{CurveLaws}

module _ {Fr Sc Pt : Type 0} (p : Poseidon Fr) (c : BabyJubJub Fr Sc Pt)
    (keccak : List ℕ → List ℕ) where
  -- A completed response was applied to the note, and the journal is gone.
  completed_lem :
      (saved cleared : Bool) (r : RequestResponseV2) (w : Wallet) (s : NoteState)
      → w.state ≡ some s
      → (complete_pending_response p c keccak saved cleared r w).0 ≡ ok tt
      → (n : NoteState) × (j : PendingRequestJournal) × (a : CurvePointWire) × (next_state p c
            keccak w.config
            (some s)
            r
            j.client_request_id
            j.nullifier
            a
            j.user_rerandomization
          ≡ ok n)
        × ((complete_pending_response p c keccak saved cleared r w).1.state ≡ some n)
        × ((complete_pending_response p c keccak saved cleared r w).1.note_file ≡ holds n)
        × ((complete_pending_response p c keccak saved cleared r w).1.journal_file ≡ missing)
  unfolding complete_pending_response apply_response store_state clear_pending_request
  completed_lem saved cleared r w s e h = elim (Result-cases (pending_commitment p c keccak w)) [
    | inr (x, k) ↦ absurd (ground arith)
    | inl ((j, a), k) ↦
        elim (Result-cases (
          next_state p c keccak w.config (some s) r j.client_request_id j.nullifier a
            j.user_rerandomization)) [
              | inr (x, f) ↦ absurd (ground arith)
              | inl (n, f) ↦ (n, j, a, f, ground arith, ground arith, ground arith)
            ]
  ]

  -- Completing a response successfully, from a wallet with a note: the wallet then has a note whose
  -- balance is the old one less the charge, the charge is within the cap of the configuration, the
  -- server's signature on the new commitment and the new anchor verifies under the pinned key, the
  -- new anchor is the response's and not zero, the note is no longer a genesis note and keeps the
  -- response's signature, the note's file holds the new note, and the journal is gone.
  pub complete_pending_response_charges :
      (saved cleared : Bool) (r : RequestResponseV2) (w : Wallet) (s : NoteState)
      → w.state ≡ some s
      → (complete_pending_response p c keccak saved cleared r w).0 ≡ ok tt
      → (n : NoteState) × ((complete_pending_response p c keccak saved cleared r w).1.state
          ≡ some n)
        × ((complete_pending_response p c keccak saved cleared r w).1.note_file ≡ holds n)
        × ((complete_pending_response p c keccak saved cleared r w).1.journal_file ≡ missing)
        × (n.current_balance + r.charge_applied ≡ s.current_balance)
        × (r.charge_applied ≤ applied_cap w.config)
        × (verify_signature p c w.config.state_signing_key
              (state_message p s.protocol_version s.chain_id s.contract_address
                n.current_commitment_x n.current_commitment_y n.current_anchor)
              r.next_state_signature
            ≡ ok true)
        × (n.current_anchor ≡ r.next_anchor)
        × (is_zero n.current_anchor ≡ false)
        × (n.is_genesis ≡ false)
        × (n.state_signature ≡ some r.next_state_signature)
  complete_pending_response_charges saved cleared r w s e h =
      let (n, j, a, f, state, file, journal) = completed_lem saved cleared r w s e h in
      let acc =
        next_state-Accepted p c keccak w.config s n r j.client_request_id j.nullifier a
          j.user_rerandomization f in
      let cx = acc.committed.0 in
      let cy = acc.committed.1 in
      let anchor = acc.moved in
      (
        n,
        state,
        file,
        journal,
        acc.charged,
        acc.capped,
        rw (cx, cy, anchor) acc.signed,
        anchor,
        rw anchor acc.anchored,
        acc.later,
        acc.keeps_signature,
      )

  -- When removing the journal does not fail, a completion that reports an error leaves the wallet
  -- as it was, its files included.
  pub complete_pending_response-err :
      (saved : Bool) (r : RequestResponseV2) (w : Wallet) (e : ClientError)
      → (complete_pending_response p c keccak saved true r w).0 ≡ err e
      → (complete_pending_response p c keccak saved true r w).1 ≡ w
  unfolding complete_pending_response apply_response store_state clear_pending_request
  complete_pending_response-err saved r w e h =
      elim (Result-cases (pending_commitment p c keccak w)) [
        | inr (x, k) ↦ rw (complete_pending_response, k) refl
        | inl ((j, a), k) ↦
            elim (Result-cases (
              next_state p c keccak w.config w.state r j.client_request_id j.nullifier a
                j.user_rerandomization)) [ inr (x, f) ↦ ground arith | inl (n, f) ↦ ground arith ]
      ]

  -- What a server that keeps to the protocol sends for this journal entry: the same identity, the
  -- hash of the payload, a charge within the cap and the balance, a new anchor that is not zero,
  -- the updated commitment, and a signature that verifies.
  pub record IsHonest (config : ClientConfig) (s : NoteState) (j : PendingRequestJournal)
      (a : CurvePointWire) (r : RequestResponseV2) : Type 0 where
    pub same_id : r.client_request_id ≡ j.client_request_id
    pub same_nullifier : r.request_nullifier ≡ j.nullifier
    pub hashed : canonical_response_hash keccak r.response_payload ≡ some r.response_hash
    pub capped : r.charge_applied ≤ applied_cap config
    pub covered : r.charge_applied ≤ s.current_balance
    pub anchored : is_zero r.next_anchor ≡ false
    pub updated : server_update p c a r.charge_applied r.blind_delta_srv ≡ ok r.next_commitment
    pub signed :
        verify_signature p c config.state_signing_key
          (state_message p s.protocol_version s.chain_id s.contract_address r.next_commitment.x
            r.next_commitment.y r.next_anchor)
          r.next_state_signature
        ≡ ok true

  wire_eq_refl : (a : CurvePointWire) → wire_eq a a ≡ true
  unfolding wire_eq
  wire_eq_refl a = rw (felt_eq_refl a.x, felt_eq_refl a.y) refl

  -- Such a response leads to a next state.
  pub next_state-IsHonest :
      (config : ClientConfig) (s : NoteState) (j : PendingRequestJournal) (a : CurvePointWire)
      (r : RequestResponseV2) (b q : Felt252)
      → from_hex s.balance_blinding ≡ ok b
      → IsHonest config s j a r
      → (n : NoteState) × (next_state p c keccak config
            (some s)
            r
            j.client_request_id
            j.nullifier
            a
            q
          ≡ ok n)
  unfolding next_state parse_scalar
  next_state-IsHonest config s j a r b q parsed i =
      let named : bytes_eq r.client_request_id j.client_request_id ≡ true =
        (let k = i.same_id in rw k (bytes_eq_refl j.client_request_id)) in
      let nullified : felt_eq r.request_nullifier j.nullifier ≡ true =
        (let k = i.same_nullifier in rw k (felt_eq_refl j.nullifier)) in
      let hashed = i.hashed in
      let hash = felt_eq_refl r.response_hash in
      let capped = i.capped in
      let covered = i.covered in
      let anchored = i.anchored in
      let updated = i.updated in
      let wire = wire_eq_refl r.next_commitment in
      let signed = i.signed in
      elim (Result-cases
        (next_state p c keccak config (some s) r j.client_request_id j.nullifier a q)) [
          | inl found ↦ found
          | inr (e, k) ↦ absurd (ground arith)
        ]

  -- The pending request as it is read back, from a note that opens.
  pub pending_commitment-NoteOpens :
      (laws : CurveLaws p c) (w : Wallet) (s : NoteState) (j : PendingRequestJournal)
      (a : CurvePointWire)
      → NoteOpens p c keccak s
      → w.state ≡ some s
      → read w.journal_file ≡ ok (some j)
      → rerandomize p c
          (record { x = s.current_commitment_x; y = s.current_commitment_y })
          j.user_rerandomization
        ≡ ok a
      → pending_commitment p c keccak w ≡ ok (j, a)
  unfolding pending_commitment
  pending_commitment-NoteOpens laws w s j a o e found ra =
      let shown : rerandomize p c
            (balance_commitment p c s.current_balance o.blinding (state_note_leaf p c keccak s))
            j.user_rerandomization
          ≡ ok a =
        (let k = o.commits in rw k ra) in
      rw (pending_commitment, found, e, current_commitment-NoteOpens p c keccak laws s o, shown)
        refl

  -- From a well-formed wallet with a note and a pending request, when the disk accepts both
  -- writes, a response that keeps to the protocol for the anonymous commitment of that request is
  -- completed: it has the id and nullifier of the request, the hash of its payload, a charge
  -- within the cap and the balance, a non-zero anchor, the updated commitment, and a signature
  -- that verifies. The laws of the curve are assumed.
  pub complete_pending_response-IsHonest :
      (laws : CurveLaws p c) (w : Wallet) (s : NoteState) (j : PendingRequestJournal)
      (a : CurvePointWire) (r : RequestResponseV2)
      → IsWellFormed p c keccak w
      → w.state ≡ some s
      → read w.journal_file ≡ ok (some j)
      → rerandomize p c
          (record { x = s.current_commitment_x; y = s.current_commitment_y })
          j.user_rerandomization
        ≡ ok a
      → IsHonest w.config s j a r
      → (complete_pending_response p c keccak true true r w).0 ≡ ok tt
  unfolding complete_pending_response apply_response store_state clear_pending_request
  complete_pending_response-IsHonest laws w s j a r i e found ra honest =
      let o = i.opens s e in
      let pending = pending_commitment-NoteOpens laws w s j a o e found ra in
      let (n, next) =
        next_state-IsHonest w.config s j a r o.blinding j.user_rerandomization o.parses honest in
      ground arith
