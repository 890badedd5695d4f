-- ===== src/Processor/Answers.antt =====
-- rust/crates/zkapi-server/src/processor.rs: a request that passes its checks is answered.
use zk_api.Prelude.{
  ◌<◌, Option-cases, inl, inr, ℕ, ◌≤◌, ◌≡◌, refl, true, false, List, [], ◌∷◌, ◌++◌, none, some, ok,
  bytes_eq, bytes_eq_refl, arith, Str,
}
use zk_api.Felt.{Felt252, to_hex}
use zk_api.Inputs.{canonical_response_hash}
use zk_api.Server.{TranscriptRecord, reserved}
use zk_api.Server.Store.{
  NullifierStore, SignatureJson, has_key, select_key, new_row, lookup_by_nullifier, reserve,
  finalize, status_to_str,
}
use zk_api.Server.Transcript.{select_key-last, select_key-updated}
use zk_api.Signature.{XmssSignature}
use zk_api.Stark.{StarkField, felt_to_field, field_to_felt, compute_blind_delta}
use zk_api.Pedersen.{StarkCurve, server_update}
use zk_api.Signer.{sign_next_state}
use zk_api.Signer.Ready.{IsReady, sign_next_state-IsReady}
use zk_api.Xmss.{signature_at}
use zk_api.Xmss.Signing.{IsGenerated}
use zk_api.Processor.Charged.{IsSettled, process_request-IsSettled}
use zk_api.Processor.{
  ServerConfig, ApiRequest, RequestResponse, ProviderResponse, Backend, Env, RequestProcessor,
}
use zk_api.Processor.Checks.{check_request, charge_cap}
use zk_api.Processor.States.{NextState, message_of, sign_request, next_state, generate_server_rng2}
use zk_api.Processor.Handlers.{
  admit, transcript_of, response_of, finalize_charge, charge_request, serve, process_request,
}

has_key-select_key :
    (key : Str) (s : NullifierStore) → select_key key s ≡ none → has_key key s ≡ false
unfolding has_key select_key
has_key-select_key key [] h = refl
has_key-select_key key (row ∷ s) h = ground (arith, has_key-select_key key s)

-- A nullifier without a row is reserved and finalized, when SQLite serves both.
finalize-reserve :
    (json : SignatureJson) (now later : ℕ) (n hash : Felt252) (id : Str) (t : TranscriptRecord)
    (s : NullifierStore)
    → lookup_by_nullifier json n s ≡ none
    → ((reserve true now n id hash s).0 ≡ ok tt)
      × ((finalize json true later n t ((reserve true now n id hash s).1)).0 ≡ ok tt)
unfolding reserve finalize lookup_by_nullifier
finalize-reserve json now later n hash id t s absent =
    let key = to_hex n in
    let row = new_row key (status_to_str reserved) (some id) (some (to_hex hash)) now in
    let none_found : select_key key s ≡ none = ground arith in
    let fresh = has_key-select_key key s none_found in
    let self : bytes_eq row.nullifier key ≡ true = (unfold new_row in bytes_eq_refl key) in
    let status : bytes_eq row.status (status_to_str reserved) ≡ true =
      (unfold new_row in bytes_eq_refl (status_to_str reserved)) in
    let found = select_key-last json key s row fresh self in
    let updated = select_key-updated json key later t (s ++ (row ∷ [])) row found status in
    let met = updated.0 in (ground arith, ground arith)

module _ {F P : Type 0} (b : Backend) (k : StarkField F) (c : StarkCurve F P) where
  sign_request-signs :
      (env : Env) (r : ApiRequest) (anon : P) (charge leaf : ℕ) (m : Felt252) (sig : XmssSignature)
      (next : NextState) (w : RequestProcessor F)
      → w.poisoned ≡ false
      → let state = next_state k c w.config r.public_inputs.request_nullifier anon charge in
        (sign_next_state k env.signer_served (λ l. message_of (state l)) w.signer w.table).0
          ≡ ok (sig, leaf, m)
        → next_state k c w.config r.public_inputs.request_nullifier anon charge leaf ≡ some next
        → let state = next_state k c w.config r.public_inputs.request_nullifier anon charge in
          let call =
            sign_next_state k env.signer_served (λ l. message_of (state l)) w.signer w.table in
          sign_request k c env r anon charge w
          ≡ (ok (sig, next), record w { signer = call.1; table = call.2 })
  unfolding sign_request
  sign_request-signs env r anon charge leaf m sig next w free call at = ground arith

  -- The answer, by the parts that the calls inside give.
  pub process_request-response_of :
      (env : Env) (r : ApiRequest) (w : RequestProcessor F) (bytes : List ℕ)
      (answer : ProviderResponse) (rh m : Felt252) (anon : P) (leaf : ℕ) (sig : XmssSignature)
      (next : NextState)
      → env.reserve_served ≡ true
      → env.finalize_served ≡ true
      → check_request b k env.now r w ≡ ok bytes
      → lookup_by_nullifier b.json r.public_inputs.request_nullifier w.store ≡ none
      → env.execute r.client_request_id r.payload r.payload_hash ≡ ok answer
      → canonical_response_hash b.keccak answer.payload ≡ some rh
      → answer.charge_applied ≤ charge_cap w.config
      → c.from_affine
          (felt_to_field k r.public_inputs.anon_commitment_x)
          (felt_to_field k r.public_inputs.anon_commitment_y)
        ≡ some anon
      → w.poisoned ≡ false
      → let state =
          next_state k c w.config r.public_inputs.request_nullifier anon answer.charge_applied in
        (sign_next_state k env.signer_served (λ l. message_of (state l)) w.signer w.table).0
          ≡ ok (sig, leaf, m)
        → next_state k c w.config r.public_inputs.request_nullifier anon answer.charge_applied leaf
          ≡ some next
        → let state =
            next_state k c w.config r.public_inputs.request_nullifier anon answer.charge_applied in
          let call =
            sign_next_state k env.signer_served (λ l. message_of (state l)) w.signer w.table in
          (process_request b k c env r w).0
          ≡ ok (response_of b k c r answer rh sig next (record w { signer = call.1 }))
  unfolding process_request admit serve charge_request finalize_charge response_of
  process_request-response_of env r w bytes answer rh m anon leaf sig next up up2 checked absent
        executed hashed within point free call at =
      let n = r.public_inputs.request_nullifier in
      let w1 = record w {
        store = (admit b env r w.store).1;
        provider_calls = r.client_request_id ∷ w.provider_calls;
      } in
      let signed =
        sign_request-signs env r anon answer.charge_applied leaf m sig next w1 free call at in
      let w2 = (sign_request k c env r anon answer.charge_applied w1).1 in
      let both =
        finalize-reserve b.json env.now env.finalized_at n r.payload_hash r.client_request_id
          (transcript_of b k c env r bytes answer rh sig next w2) w.store absent in
      ground arith

  -- The next state at coordinates that the updated commitment has.
  next_state-some :
      (config : ServerConfig) (n : Felt252) (anon : P) (charge leaf : ℕ) (x y : F)
      → let blind = compute_blind_delta k (generate_server_rng2 k c n) n leaf in
        c.to_affine (server_update c anon charge (felt_to_field k blind)) ≡ some (x, y)
        → (next : NextState) × (next_state k c config n anon charge leaf ≡ some next)
          × (next.next_cx ≡ field_to_felt k x)
          × (next.next_cy ≡ field_to_felt k y)
          × (next.blind_delta_felt ≡ blind)
  unfolding next_state
  next_state-some config n anon charge leaf x y h =
      elim (Option-cases (next_state k c config n anon charge leaf)) [
        | inl e ↦ absurd (ground arith)
        | inr (next, e) ↦ (next, e, ground arith, ground arith, ground arith)
      ]

  -- What the client of an answered request receives of the request, of the provider's answer and of
  -- the leaf that signs the next state.
  pub record IsAnswer (r : ApiRequest) (answer : ProviderResponse) (leaf : ℕ) (x y : F)
      (response : RequestResponse) : Type 0 where
    pub same_id : response.client_request_id ≡ r.client_request_id
    pub same_nullifier : response.request_nullifier ≡ r.public_inputs.request_nullifier
    pub code : response.response_code ≡ answer.status_code
    pub payload : response.response_payload ≡ answer.payload
    pub hashed :
        canonical_response_hash b.keccak response.response_payload ≡ some response.response_hash
    pub charge : response.charge_applied ≡ answer.charge_applied
    pub reason : response.policy_reason_code ≡ answer.policy_reason_code
    pub evidence : response.policy_evidence_hash ≡ answer.policy_evidence_hash
    pub at_x : response.next_commitment.x ≡ field_to_felt k x
    pub at_y : response.next_commitment.y ≡ field_to_felt k y
    pub at_leaf : response.next_state_sig.leaf_index ≡ leaf
    pub delta :
        response.blind_delta_srv
        ≡ compute_blind_delta k
            (generate_server_rng2 k c r.public_inputs.request_nullifier)
            r.public_inputs.request_nullifier
            leaf

  -- Let both databases serve the call, the lock of the signer not be poisoned, and the signer be
  -- ready with a leaf, its state keypair one generated with a height below 32, up to its cursor. Let
  -- a request with a new nullifier pass the checks, its anonymous commitment be a point, and the
  -- provider answer it within the cap, with a payload that has a hash. Unless the commitment that
  -- the charge leaves, blinded by the delta of that leaf, is the point without coordinates, the
  -- request is answered: the response has the request's id and nullifier, the provider's code,
  -- payload, charge and policy fields, the hash of the payload, that commitment and delta, a
  -- signature at that leaf, and what `IsSettled` says of the charge and the signature.
  pub process_request-answers :
      (round : (x : F) → k.from_bytes_be (k.to_bytes_be x) ≡ x) (seed : F) (height : ℕ) (env : Env)
      (r : ApiRequest) (w : RequestProcessor F) (bytes : List ℕ) (answer : ProviderResponse)
      (rh : Felt252) (anon : P) (leaf : ℕ) (x y : F)
      → env.reserve_served ≡ true
      → env.finalize_served ≡ true
      → w.poisoned ≡ false
      → IsReady k env.signer_served w.signer w.table leaf
      → IsGenerated k seed height w.signer.state_keypair
      → height < 32
      → check_request b k env.now r w ≡ ok bytes
      → lookup_by_nullifier b.json r.public_inputs.request_nullifier w.store ≡ none
      → c.from_affine
          (felt_to_field k r.public_inputs.anon_commitment_x)
          (felt_to_field k r.public_inputs.anon_commitment_y)
        ≡ some anon
      → env.execute r.client_request_id r.payload r.payload_hash ≡ ok answer
      → answer.charge_applied ≤ charge_cap w.config
      → canonical_response_hash b.keccak answer.payload ≡ some rh
      → c.to_affine (
          server_update c anon answer.charge_applied (
            felt_to_field k (
              compute_blind_delta k
                (generate_server_rng2 k c r.public_inputs.request_nullifier)
                r.public_inputs.request_nullifier
                leaf)))
        ≡ some (x, y)
      → (response : RequestResponse) × ((process_request b k c env r w).0 ≡ ok response)
        × IsAnswer r answer leaf x y response
        × IsSettled b k c env r w response
  unfolding response_of signature_at
  process_request-answers round seed height env r w bytes answer rh anon leaf x y up up2 free ready
        g small checked absent point executed within hashed updated =
      let n = r.public_inputs.request_nullifier in
      let charge = answer.charge_applied in
      let (next, at, cx, cy, delta) = next_state-some w.config n anon charge leaf x y updated in
      let build : ℕ → Felt252 = λ l. message_of (next_state k c w.config n anon charge l) in
      let sig = record (signature_at k w.signer.state_keypair leaf (build leaf)) {
        epoch = w.signer.state_epoch;
      } in
      let call = sign_next_state-IsReady k env.signer_served build w.signer w.table leaf ready in
      let done =
        process_request-response_of env r w bytes answer rh (build leaf) anon leaf sig next up up2
          checked absent executed hashed within point free call at in
      (
        _,
        done,
        record {
          same_id = refl;
          same_nullifier = refl;
          code = refl;
          payload = refl;
          hashed = hashed;
          charge = refl;
          reason = refl;
          evidence = refl;
          at_x = cx;
          at_y = cy;
          at_leaf = refl;
          delta = delta;
        },
        process_request-IsSettled b k c round seed height env r w _ g small absent done,
      )
