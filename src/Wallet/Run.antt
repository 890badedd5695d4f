-- ===== src/Wallet/Run.antt =====
-- rust/crates/zkapi-client/src/wallet_v2.rs: the runs of a wallet, as a step relation over its
-- public operations, restarts of the process included, and the invariant along every run.
use zk_api.Prelude.{
  ◌∙◌, ap, sym, refl, arith, ℕ, ◌≡◌, refl, Bool, true, none, some, List, Str, ok, err, arith,
  Result-cases, Option-cases, Bool-cases, inl, inr, bytes_eq, codes,
}
use zk_api.Felt.{Felt252}
use zk_api.Core.{Poseidon}
use zk_api.Curve.{BabyJubJub}
use zk_api.Curve.Commitments.{CurveLaws}
use zk_api.Wallet.{
  NoteState, holds, load, ClientConfig, RequestResponseV2, ApiRequestV2, Wallet, missing, read,
  clear_pending_request, open_wallet,
}
use zk_api.Wallet.Request.{RequestEnv, confirm_deposit, prepare_request}
use zk_api.Wallet.Response.{complete_pending_response}
use zk_api.Wallet.Close.{
  HttpReply, send_failed, error_status, success, RecoveryReply, recovery_send_failed,
  recovery_not_found, recovery_error_status, recovery_body, archive_note, handle_reply,
  request_flow, handle_recovery, recover,
}
use zk_api.Wallet.Invariant.{file_of, IsWellFormed}
use zk_api.Wallet.Steps.{
  confirm_deposit-IsWellFormed, journal-IsWellFormed, prepare_request-IsWellFormed,
  complete_pending_response-IsWellFormed,
}

module _ {Fr Sc Pt : Type 0} (p : Poseidon Fr) (c : BabyJubJub Fr Sc Pt)
    (keccak : List ℕ → List ℕ) where
  -- One call of a public operation, with whatever it is given and whatever comes back.
  pub data Step (w : Wallet) : Wallet → Type 0 where
    deposited :
        (blinding : Sc) (saved : Bool) (secret : Felt252) (id amount expiry : ℕ)
        → Step w ((confirm_deposit p c keccak blinding saved secret id amount expiry w).1)
    prepared :
        (env : RequestEnv Sc) (payload : Str) (hash root : Felt252) (siblings : List Felt252)
        → Step w ((prepare_request p c keccak env payload hash root siblings w).1)
    completed :
        (saved cleared : Bool) (r : RequestResponseV2)
        → Step w ((complete_pending_response p c keccak saved cleared r w).1)
    cancelled : (cleared : Bool) → Step w ((clear_pending_request cleared w).1)
    requested :
        (env : RequestEnv Sc) (reply : ApiRequestV2 → HttpReply) (saved cleared : Bool)
        (payload : Str) (hash root : Felt252) (siblings : List Felt252)
        → Step w ((request_flow p c keccak env reply saved cleared payload hash root siblings w).1)
    recovered :
        (reply : Str → RecoveryReply) (saved cleared : Bool)
        → Step w ((recover p c keccak reply saved cleared w).1)
    archived : (moved cleared : Bool) → Step w ((archive_note moved cleared w).1)
    restarted :
        (directory : Bool) (config : ClientConfig) (w' : Wallet)
        → open_wallet directory config w.note_file w.journal_file ≡ ok w'
        → Step w w'

  -- A wallet that is opened on an empty directory and used in any way.
  pub data Reachable : Wallet → Type 0 where
    opened :
        (config : ClientConfig) (w : Wallet)
        → open_wallet true config missing missing ≡ ok w
        → Reachable w
    stepped : (w w' : Wallet) → Reachable w → Step w w' → Reachable w'

module _ {Fr Sc Pt : Type 0} (p : Poseidon Fr) (c : BabyJubJub Fr Sc Pt) (keccak : List ℕ → List ℕ)
    (laws : CurveLaws p c) where
  handle_reply-IsWellFormed :
      (saved cleared : Bool) (reply : HttpReply) (w : Wallet)
      → IsWellFormed p c keccak w
      → IsWellFormed p c keccak ((handle_reply p c keccak saved cleared reply w).1)
  unfolding handle_reply clear_pending_request
  handle_reply-IsWellFormed saved cleared (send_failed m) w i = i
  handle_reply-IsWellFormed saved cleared (error_status s b none) w i = i
  handle_reply-IsWellFormed saved cleared (error_status s b (some e)) w i =
      elim (Bool-cases (bytes_eq e.error_code (codes "stale_root"))) [
        | inl h ↦ rw h (journal-IsWellFormed p c keccak laws w _ i)
        | inr h ↦ rw h i
      ]
  handle_reply-IsWellFormed saved cleared (success (err m)) w i = i
  handle_reply-IsWellFormed saved cleared (success (ok r)) w i =
      complete_pending_response-IsWellFormed p c keccak laws saved cleared r w i

  request_flow-IsWellFormed :
      (env : RequestEnv Sc) (reply : ApiRequestV2 → HttpReply) (saved cleared : Bool)
      (payload : Str) (hash root : Felt252) (siblings : List Felt252) (w : Wallet)
      → IsWellFormed p c keccak w
      → IsWellFormed p c keccak
          ((request_flow p c keccak env reply saved cleared payload hash root siblings w).1)
  unfolding request_flow
  request_flow-IsWellFormed env reply saved cleared payload hash root siblings w i =
      let i1 = prepare_request-IsWellFormed p c keccak laws env payload hash root siblings w i in
      elim (Result-cases ((prepare_request p c keccak env payload hash root siblings w).0)) [
        | inl (request, e) ↦
            rw (request_flow, e) (handle_reply-IsWellFormed saved cleared (reply request) _ i1)
        | inr (x, e) ↦ rw (request_flow, e) i1
      ]

  handle_recovery-IsWellFormed :
      (saved cleared : Bool) (reply : RecoveryReply) (w : Wallet)
      → IsWellFormed p c keccak w
      → IsWellFormed p c keccak ((handle_recovery p c keccak saved cleared reply w).1)
  unfolding handle_recovery
  handle_recovery-IsWellFormed saved cleared (recovery_send_failed m) w i = i
  handle_recovery-IsWellFormed saved cleared recovery_not_found w i = i
  handle_recovery-IsWellFormed saved cleared (recovery_error_status m) w i = i
  handle_recovery-IsWellFormed saved cleared (recovery_body (err m)) w i = i
  handle_recovery-IsWellFormed saved cleared (recovery_body (ok recovery)) w i =
      elim (Option-cases recovery.request_response) [
        | inl e ↦ rw (handle_recovery, e) i
        | inr (r, e) ↦
            rw (handle_recovery, e)
              (complete_pending_response-IsWellFormed p c keccak laws saved cleared r w i)
      ]

  recover-IsWellFormed :
      (reply : Str → RecoveryReply) (saved cleared : Bool) (w : Wallet)
      → IsWellFormed p c keccak w
      → IsWellFormed p c keccak ((recover p c keccak reply saved cleared w).1)
  unfolding recover
  recover-IsWellFormed reply saved cleared w i = elim (Result-cases (read w.journal_file)) [
    | inr (x, e) ↦ rw (recover, e) i
    | inl (found, e) ↦ elim (Option-cases found) [
      | inl f ↦ rw (recover, e, f) i
      | inr (j, f) ↦
          rw (recover, e, f)
            (handle_recovery-IsWellFormed saved cleared (reply j.client_request_id) w i)
    ]
  ]

  archive_note-IsWellFormed :
      (moved cleared : Bool) (w : Wallet)
      → IsWellFormed p c keccak w
      → IsWellFormed p c keccak ((archive_note moved cleared w).1)
  unfolding archive_note clear_pending_request
  archive_note-IsWellFormed moved cleared w i = elim (Option-cases w.state) [
    | inl e ↦ rw (archive_note, e) (journal-IsWellFormed p c keccak laws w _ i)
    | inr (s, e) ↦ elim (Bool-cases moved) [
      | inl m ↦
          rw (archive_note, e, m) (record { on_disk = refl; opens = λ t h. absurd (ground arith) })
      | inr m ↦ rw (archive_note, e, m) i
    ]
  ]

  -- Reopening the wallet from its files gives back the state that it had.
  pub open_wallet-IsWellFormed :
      (directory : Bool) (config : ClientConfig) (w w' : Wallet)
      → IsWellFormed p c keccak w
      → open_wallet directory config w.note_file w.journal_file ≡ ok w'
      → IsWellFormed p c keccak w'
  unfolding open_wallet load
  open_wallet-IsWellFormed directory config w w' i h = elim (Option-cases w.state) [
    | inl e ↦
        let f : w.note_file ≡ missing = i.on_disk ∙ ap file_of e in
        let state : w'.state ≡ none = ground arith in
        let file : w'.note_file ≡ missing = ground arith in
        record { on_disk = file ∙ ap file_of (sym state); opens = λ t k. absurd (ground arith) }
    | inr (s, e) ↦
        let f : w.note_file ≡ holds s = i.on_disk ∙ ap file_of e in
        let state : w'.state ≡ some s = ground arith in
        let file : w'.note_file ≡ holds s = ground arith in
        record {
          on_disk = file ∙ ap file_of (sym state);
          opens = λ t k.
              i.opens t
                (let same : s ≡ t = ground arith in e ∙ ap (λ (n : NoteState). some n) same);
        }
  ]

  Step-IsWellFormed :
      (w w' : Wallet)
      → Step p c keccak w w'
      → IsWellFormed p c keccak w
      → IsWellFormed p c keccak w'
  Step-IsWellFormed w _ (deposited b s f n a e) i =
      confirm_deposit-IsWellFormed p c keccak laws b s f n a e w i
  Step-IsWellFormed w _ (prepared env pl h r s) i =
      prepare_request-IsWellFormed p c keccak laws env pl h r s w i
  Step-IsWellFormed w _ (completed s cl r) i =
      complete_pending_response-IsWellFormed p c keccak laws s cl r w i
  Step-IsWellFormed w _ (cancelled cl) i =
      unfold clear_pending_request in journal-IsWellFormed p c keccak laws w _ i
  Step-IsWellFormed w _ (requested env reply s cl pl h r sib) i =
      request_flow-IsWellFormed env reply s cl pl h r sib w i
  Step-IsWellFormed w _ (recovered reply s cl) i = recover-IsWellFormed reply s cl w i
  Step-IsWellFormed w _ (archived m cl) i = archive_note-IsWellFormed m cl w i
  Step-IsWellFormed w w' (restarted d config _ h) i = open_wallet-IsWellFormed d config w w' i h

  -- Under the laws of the curve, in every run of the wallet from an empty directory, whatever the
  -- server replies and whichever writes fail, and with the process restarted at will: the note
  -- file holds the note in memory, its blinding parses, its stored commitment is the commitment to
  -- its balance under that blinding, and the balance is at most the deposit.
  pub Reachable-IsWellFormed : (w : Wallet) → Reachable p c keccak w → IsWellFormed p c keccak w
  Reachable-IsWellFormed w (opened config _ h) =
      let empty : Wallet = record {
        config = config;
        state = none;
        note_file = missing;
        journal_file = missing;
      } in
      open_wallet-IsWellFormed true config empty w
        (record { on_disk = refl; opens = λ t k. absurd (ground arith) }) h
  Reachable-IsWellFormed w' (stepped w _ r s) =
      Step-IsWellFormed w w' s (Reachable-IsWellFormed w r)
