-- ===== src/Wallet/Pending.antt =====
-- rust/crates/zkapi-client/src/wallet_v2.rs: what preparing a request does, and that the journal
-- admits one request at a time.
use zk_api.Prelude.{
  ap, ◌∙◌, ◌⊎◌, Option-cases, ℕ, ◌≤◌, ◌≡◌, refl, true, false, some, List, Str, ok, err, arith,
  Result-cases, Bool-cases, inl, inr,
}
use zk_api.Felt.{Felt252, felt_eq_sound}
use zk_api.Core.{Poseidon, nullifier, authorization_tag}
use zk_api.Curve.{BabyJubJub}
use zk_api.Inputs.{canonical_payload_hash, canonical_request_context}
use zk_api.Wallet.{
  io, ClientError, pending_request, NoteState, ApiRequestV2, PendingRequestJournal, Wallet, read,
  holds, has_pending_request, solvency_bound, applied_cap,
}
use zk_api.Wallet.Request.{RequestEnv, build_request, prepare_request}

module _ {Fr Sc Pt : Type 0} (p : Poseidon Fr) (c : BabyJubJub Fr Sc Pt)
    (keccak : List ℕ → List ℕ) where
  -- A request that is prepared for this note: it is solvent, it spends the note's nullifier, its
  -- authorization tag binds the request's id and payload, the payload hashes to its hash, and the
  -- journal entry holds the request with the same nullifier and id.
  pub record IsFor (w : Wallet) (s : NoteState) (request : ApiRequestV2) (j : PendingRequestJournal)
      : Type 0 where
    pub solvent : applied_cap w.config ≤ s.current_balance
    pub bound : request.public_inputs.solvency_bound ≡ applied_cap w.config
    pub spends : request.public_inputs.request_nullifier ≡ nullifier p s.secret_s s.current_anchor
    pub context : Felt252
    pub hashed :
        canonical_request_context keccak request.client_request_id request.payload_hash
        ≡ some context
    pub authorized :
        request.public_inputs.authorization_tag
        ≡ authorization_tag p request.public_inputs.request_nullifier context
    pub payload_hashed : canonical_payload_hash keccak request.payload ≡ some request.payload_hash
    pub exists : j.exists ≡ true
    pub journaled : j.prepared_request ≡ some request
    pub same_id : j.client_request_id ≡ request.client_request_id
    pub same_nullifier : j.nullifier ≡ request.public_inputs.request_nullifier

  payload_hash_ok :
      (w : Wallet) (env : RequestEnv Sc) (payload : Str) (hash root : Felt252)
      (siblings : List Felt252) (request : ApiRequestV2) (j : PendingRequestJournal)
      → build_request p c keccak w env payload hash root siblings ≡ ok (request, j)
      → canonical_payload_hash keccak request.payload ≡ some request.payload_hash
  unfolding build_request
  payload_hash_ok w env payload hash root siblings request j h =
      elim (Option-cases (canonical_payload_hash keccak payload)) [
        | inl k ↦ absurd (ground arith)
        | inr (actual, k) ↦
            let same = felt_eq_sound actual hash (ground arith) in
            let sent : request.payload ≡ payload = ground arith in
            let named : request.payload_hash ≡ hash = ground arith in
            rw (sent, named) (k ∙ ap some same)
      ]

  -- The request carries what the caller gave.
  build_request-given :
      (w : Wallet) (env : RequestEnv Sc) (payload : Str) (hash root : Felt252)
      (siblings : List Felt252) (request : ApiRequestV2) (j : PendingRequestJournal)
      → build_request p c keccak w env payload hash root siblings ≡ ok (request, j)
      → (request.payload ≡ payload)
        × (request.payload_hash ≡ hash)
        × (request.public_inputs.active_root ≡ root)
  unfolding build_request
  build_request-given w env payload hash root siblings request j h =
      (ground arith, ground arith, ground arith)

  build_request-IsFor :
      (w : Wallet) (s : NoteState) (env : RequestEnv Sc) (payload : Str) (hash root : Felt252)
      (siblings : List Felt252) (request : ApiRequestV2) (j : PendingRequestJournal)
      → w.state ≡ some s
      → build_request p c keccak w env payload hash root siblings ≡ ok (request, j)
      → IsFor w s request j
  unfolding build_request solvency_bound applied_cap
  build_request-IsFor w s env payload hash root siblings request j e h =
      elim (Option-cases (canonical_request_context keccak env.client_request_id hash)) [
        | inl k ↦ absurd (ground arith)
        | inr (context, k) ↦ record {
          solvent = ground arith;
          bound = ground arith;
          spends = ground arith;
          context = context;
          hashed = ground arith;
          authorized = ground arith;
          payload_hashed = payload_hash_ok w env payload hash root siblings request j h;
          exists = ground arith;
          journaled = ground arith;
          same_id = ground arith;
          same_nullifier = ground arith;
        }
      ]

  build_request-not_pending :
      (w : Wallet) (env : RequestEnv Sc) (payload : Str) (hash root : Felt252)
      (siblings : List Felt252) (built : ApiRequestV2 × PendingRequestJournal)
      → build_request p c keccak w env payload hash root siblings ≡ ok built
      → has_pending_request w ≡ false
  unfolding build_request
  build_request-not_pending w env payload hash root siblings built k = ground arith

  -- From a wallet with a note, preparing a request either fails, and then the wallet is as it was,
  -- or it succeeds with nothing pending before: then the journal holds the very request with its
  -- id and nullifier, everything else is as it was, the balance covers the solvency bound that the
  -- request states, the request carries the payload, the hash and the root that were given, the
  -- hash is that of the payload, and the request spends the nullifier of the note with a tag that
  -- binds its id and payload hash.
  pub prepare_request_lem :
      (env : RequestEnv Sc) (payload : Str) (hash root : Felt252) (siblings : List Felt252)
      (w : Wallet) (s : NoteState)
      → w.state ≡ some s
      → ((e : ClientError) × (prepare_request p c keccak env payload hash root siblings w
            ≡ (err e, w)))
        ⊎ ((request : ApiRequestV2) × (j : PendingRequestJournal) × (prepare_request p c keccak env
                payload hash root siblings w
              ≡ (ok request, record w { journal_file = holds j }))
            × IsFor w s request j
            × (request.payload ≡ payload)
            × (request.payload_hash ≡ hash)
            × (request.public_inputs.active_root ≡ root)
            × (has_pending_request w ≡ false))
  unfolding prepare_request
  prepare_request_lem env payload hash root siblings w s e =
      elim (Result-cases (build_request p c keccak w env payload hash root siblings)) [
        | inr (x, k) ↦ inl (x, rw (prepare_request, k) refl)
        | inl ((request, j), k) ↦ elim (Bool-cases env.journal_written) [
          | inr z ↦ inl (io, rw (prepare_request, k, z) refl)
          | inl z ↦ inr (
            request,
            j,
            rw (prepare_request, k, z) refl,
            build_request-IsFor w s env payload hash root siblings request j e k,
            (build_request-given w env payload hash root siblings request j k).0,
            (build_request-given w env payload hash root siblings request j k).1,
            (build_request-given w env payload hash root siblings request j k).2,
            build_request-not_pending w env payload hash root siblings (request, j) k,
          )
        ]
      ]

  -- After a request has been prepared, preparing another with any arguments answers
  -- `PendingRequest` and leaves the wallet as it was.
  pub prepare_request-pending :
      (env env' : RequestEnv Sc) (payload payload' : Str) (hash hash' root root' : Felt252)
      (siblings siblings' : List Felt252) (w : Wallet) (request : ApiRequestV2)
      → (prepare_request p c keccak env payload hash root siblings w).0 ≡ ok request
      → let w' = (prepare_request p c keccak env payload hash root siblings w).1 in
        prepare_request p c keccak env' payload' hash' root' siblings' w'
        ≡ (err pending_request, w')
  unfolding prepare_request build_request has_pending_request read
  prepare_request-pending env env' payload payload' hash hash' root root' siblings siblings' w
        request h =
      ground arith
