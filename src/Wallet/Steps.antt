-- ===== src/Wallet/Steps.antt =====
-- rust/crates/zkapi-client/src/wallet_v2.rs: every operation keeps the wallet's invariant, also
-- when it fails, and so does any sequence of them.
use zk_api.Prelude.{
  ℕ, zero, ◌≡◌, refl, sym, ap, ◌∙◌, Bool, true, false, Option, none, some, List, Str, ok, arith,
  Result-cases, Option-cases, inl, inr, subst,
}
use zk_api.Felt.{Felt252}
use zk_api.Felt.Hex.{from_hex-to_hex}
use zk_api.Core.{Poseidon}
use zk_api.Curve.{CurvePointWire, BabyJubJub, rerandomize, balance_commitment, scalar_to_felt}
use zk_api.Curve.Commitments.{CurveLaws}
use zk_api.Wallet.{
  ClientConfig, NoteState, RequestResponseV2, Wallet, Stored, PendingRequestJournal, store_state,
  clear_pending_request, new_from_deposit,
}
use zk_api.Wallet.Request.{
  RequestEnv, build_request, confirm_deposit, deposited_note, prepare_request, state_note_leaf,
}
use zk_api.Wallet.Response.{
  next_state, apply_response, pending_commitment, complete_pending_response,
}
use zk_api.Wallet.Invariant.{NoteOpens, IsWellFormed, next_state-Accepted}
use zk_api.Wallet.Balance.{Accepted-NoteOpens, current_commitment-NoteOpens}

module _ {Fr Sc Pt : Type 0} (p : Poseidon Fr) (c : BabyJubJub Fr Sc Pt) (keccak : List ℕ → List ℕ)
    (laws : CurveLaws p c) where
  -- Storing a note that opens keeps the invariant, and so does changing the journal only.
  store_state-IsWellFormed :
      (saved : Bool) (n : NoteState) (w : Wallet)
      → NoteOpens p c keccak n
      → IsWellFormed p c keccak w
      → IsWellFormed p c keccak ((store_state saved n w).1)
  unfolding store_state
  store_state-IsWellFormed false n w o i = i
  store_state-IsWellFormed true n w o i = record {
    on_disk = refl;
    opens = λ s h. subst (NoteOpens p c keccak) (let e : n ≡ s = cc in e) o;
  }

  pub journal-IsWellFormed :
      (w : Wallet) (j : Stored PendingRequestJournal)
      → IsWellFormed p c keccak w
      → IsWellFormed p c keccak (record w { journal_file = j })
  journal-IsWellFormed w j i = record { on_disk = i.on_disk; opens = i.opens }

  -- The note of a deposit opens.
  pub deposited_note-NoteOpens :
      (config : ClientConfig) (blinding : Sc) (secret : Felt252) (id amount expiry : ℕ)
      → NoteOpens p c keccak (deposited_note p c keccak config blinding secret id amount expiry)
  unfolding deposited_note new_from_deposit state_note_leaf
  deposited_note-NoteOpens config blinding secret id amount expiry = record {
    blinding = scalar_to_felt p c blinding;
    parses = from_hex-to_hex (scalar_to_felt p c blinding) (laws.scalar_canonical blinding);
    commits = refl;
    within = omega arith;
  }

  pub confirm_deposit-IsWellFormed :
      (blinding : Sc) (saved : Bool) (secret : Felt252) (id amount expiry : ℕ) (w : Wallet)
      → IsWellFormed p c keccak w
      → IsWellFormed p c keccak
          ((confirm_deposit p c keccak blinding saved secret id amount expiry w).1)
  unfolding confirm_deposit
  confirm_deposit-IsWellFormed blinding saved secret id amount expiry w i =
      elim (Option-cases w.state) [
        | inl e ↦
            rw (e, confirm_deposit)
              (store_state-IsWellFormed saved _ w
                (deposited_note-NoteOpens w.config blinding secret id amount expiry) i)
        | inr (s, e) ↦ rw (e, confirm_deposit) i
      ]

  pub prepare_request-IsWellFormed :
      (env : RequestEnv Sc) (payload : Str) (hash root : Felt252) (siblings : List Felt252)
      (w : Wallet)
      → IsWellFormed p c keccak w
      → IsWellFormed p c keccak ((prepare_request p c keccak env payload hash root siblings w).1)
  unfolding prepare_request
  prepare_request-IsWellFormed env payload hash root siblings w i =
      elim (Result-cases (build_request p c keccak w env payload hash root siblings)) [
        | inl (b, e) ↦ rw (e, prepare_request) (journal-IsWellFormed w _ i)
        | inr (x, e) ↦ rw (e, prepare_request) i
      ]

  clear_pending_request-IsWellFormed :
      (cleared : Bool) (w : Wallet)
      → IsWellFormed p c keccak w
      → IsWellFormed p c keccak ((clear_pending_request cleared w).1)
  unfolding clear_pending_request
  clear_pending_request-IsWellFormed cleared w i = journal-IsWellFormed w _ i

  -- What a completed read of the pending request has found.
  pending_commitment_lem :
      (w : Wallet) (s : NoteState) (o : NoteOpens p c keccak s) (j : PendingRequestJournal)
      (a : CurvePointWire)
      → w.state ≡ some s
      → pending_commitment p c keccak w ≡ ok (j, a)
      → rerandomize p c
          (balance_commitment p c s.current_balance o.blinding (state_note_leaf p c keccak s))
          j.user_rerandomization
        ≡ ok a
  unfolding pending_commitment
  pending_commitment_lem w s o j a e h =
      ground (arith, current_commitment-NoteOpens p c keccak laws s o)

  -- Without a note there is nothing to complete.
  pending_commitment-none :
      (w : Wallet) (found : PendingRequestJournal × CurvePointWire)
      → w.state ≡ none
      → pending_commitment p c keccak w ≡ ok found
      → zero ≡ 1
  unfolding pending_commitment
  pending_commitment-none w found e h = ground arith

  apply_response-IsWellFormed :
      (saved : Bool) (r : RequestResponseV2) (id : Str) (null : Felt252) (a : CurvePointWire)
      (q : Felt252) (w : Wallet) (s : NoteState) (o : NoteOpens p c keccak s)
      → w.state ≡ some s
      → rerandomize p c
          (balance_commitment p c s.current_balance o.blinding (state_note_leaf p c keccak s))
          q
        ≡ ok a
      → IsWellFormed p c keccak w
      → IsWellFormed p c keccak ((apply_response p c keccak saved r id null a q w).1)
  unfolding apply_response
  apply_response-IsWellFormed saved r id null a q w s o e ra i =
      elim (Result-cases (next_state p c keccak w.config w.state r id null a q)) [
        | inl (n, k) ↦
            rw (apply_response, k)
              (store_state-IsWellFormed saved n w
                (Accepted-NoteOpens p c keccak laws w.config s n r a q o ra (
                  next_state-Accepted p c keccak w.config s n r id null a q (
                    ap (λ (t : Option NoteState). next_state p c keccak w.config t r id null a q)
                      (sym e)
                    ∙ k)))
                i)
        | inr (x, k) ↦ rw (apply_response, k) i
      ]

  pub complete_pending_response-IsWellFormed :
      (saved cleared : Bool) (r : RequestResponseV2) (w : Wallet)
      → IsWellFormed p c keccak w
      → IsWellFormed p c keccak ((complete_pending_response p c keccak saved cleared r w).1)
  unfolding complete_pending_response
  complete_pending_response-IsWellFormed saved cleared r w i =
      elim (Result-cases (pending_commitment p c keccak w)) [
        | inr (x, k) ↦ rw (complete_pending_response, k) i
        | inl ((j, a), k) ↦ elim (Option-cases w.state) [
          | inl e ↦ absurd (let z = pending_commitment-none w (j, a) e k in omega arith)
          | inr (s, e) ↦
              let o = i.opens s e in
              let j1 =
                apply_response-IsWellFormed saved r j.client_request_id j.nullifier a
                  j.user_rerandomization w s o e (pending_commitment_lem w s o j a e k) i in
              elim (Result-cases (
                (apply_response p c keccak saved r j.client_request_id j.nullifier a
                  j.user_rerandomization w).0)) [
                    | inr (x, f) ↦ rw (complete_pending_response, k, f) j1
                    | inl (u, f) ↦
                        rw (complete_pending_response, k, f)
                          (clear_pending_request-IsWellFormed cleared _ j1)
                  ]
        ]
      ]
