-- ===== src/Processor/Charged.antt =====
-- rust/crates/zkapi-server/src/processor.rs: an answered request carries a charge within the cap, the
-- commitment that the charge leaves, and a signature on exactly that next state.
use zk_api.Prelude.{
  ℕ, ◌≤◌, ◌<◌, ◌≡◌, refl, sym, ap, ap₂, ◌∙◌, subst, true, ◌∷◌, none, some, ok, arith, Result-cases,
  Option-cases, Bool-cases, inl, inr,
}
use zk_api.Felt.{Felt252}
use zk_api.Server.Store.{lookup_by_nullifier}
use zk_api.Signature.{XmssSignature}
use zk_api.Stark.{
  StarkField, felt_to_field, field_to_felt, compute_state_message, compute_blind_delta,
}
use zk_api.Xmss.{verify, root_felt}
use zk_api.Xmss.Signing.{IsGenerated}
use zk_api.Pedersen.{StarkCurve, server_update}
use zk_api.Signer.{ServerSigner, sign_next_state, state_root}
use zk_api.Signer.Accepted.{sign_next_state-verify}
use zk_api.Processor.{
  ServerConfig, ApiRequest, RequestResponse, ProviderResponse, Backend, Env, RequestProcessor,
}
use zk_api.Processor.Checks.{charge_cap}
use zk_api.Processor.States.{NextState, message_of, sign_request, next_state, generate_server_rng2}
use zk_api.Processor.Handlers.{response_of, process_request}
use zk_api.Processor.Served.{process_request-IsServed}

module _ {F P : Type 0} (b : Backend) (k : StarkField F) (c : StarkCurve F P) where
  -- The commitment and the message of a next state.
  pub record IsNext (config : ServerConfig) (anon : P) (charge : ℕ) (next : NextState)
      : Type 0 where
    pub x : F
    pub y : F
    pub updates :
        c.to_affine (server_update c anon charge (felt_to_field k next.blind_delta_felt))
        ≡ some (x, y)
    pub at_x : next.next_cx ≡ field_to_felt k x
    pub at_y : next.next_cy ≡ field_to_felt k y
    pub says :
        next.message
        ≡ compute_state_message k config.protocol_version config.chain_id config.contract_address
            next.next_cx next.next_cy next.next_anchor

  next_state-IsNext :
      (config : ServerConfig) (nullifier : Felt252) (anon : P) (charge leaf : ℕ) (next : NextState)
      → next_state k c config nullifier anon charge leaf ≡ some next
      → IsNext config anon charge next
  unfolding next_state
  next_state-IsNext config nullifier anon charge leaf next h =
      let blind = compute_blind_delta k (generate_server_rng2 k c nullifier) nullifier leaf in
      elim (Option-cases (c.to_affine (server_update c anon charge (felt_to_field k blind)))) [
        | inl e ↦ absurd (ground arith)
        | inr ((x, y), e) ↦ record {
          x = x;
          y = y;
          updates = ground arith;
          at_x = ground arith;
          at_y = ground arith;
          says = ground arith;
        }
      ]

  -- The signer's part of a signed request.
  sign_request-ok :
      (env : Env) (r : ApiRequest) (anon : P) (charge : ℕ) (w signed : RequestProcessor F)
      (sig : XmssSignature) (next : NextState)
      → sign_request k c env r anon charge w ≡ (ok (sig, next), signed)
      → let state = next_state k c w.config r.public_inputs.request_nullifier anon charge in
        let call =
          sign_next_state k env.signer_served (λ leaf. message_of (state leaf)) w.signer w.table in
        (leaf : ℕ) × (m : Felt252) × (call.0 ≡ ok (sig, leaf, m))
        × (state leaf ≡ some next)
        × (signed.signer ≡ call.1)
  unfolding sign_request
  sign_request-ok env r anon charge w signed sig next h =
      let state = next_state k c w.config r.public_inputs.request_nullifier anon charge in
      let call =
        sign_next_state k env.signer_served (λ leaf. message_of (state leaf)) w.signer w.table in
      elim (Bool-cases w.poisoned) [
        | inl locked ↦ absurd (ground arith)
        | inr free ↦ elim (Result-cases (call.0)) [
          | inr (e, failed) ↦ absurd (ground arith)
          | inl ((s, leaf, m), done) ↦ elim (Option-cases (state leaf)) [
            | inl e ↦ absurd (ground arith)
            | inr (n, built) ↦ (leaf, m, ground arith, ground arith, ground arith)
          ]
        ]
      ]

  -- The signer's root stays that of its generated keypair.
  state_root-IsGenerated :
      (seed : F) (height : ℕ) (s t : ServerSigner F)
      → IsGenerated k seed height s.state_keypair
      → IsGenerated k seed height t.state_keypair
      → state_root k s ≡ state_root k t
  unfolding state_root root_felt
  state_root-IsGenerated seed height s t g h = ap (field_to_felt k) (g.top ∙ sym h.top)

  -- What an answer of the provider within the cap is charged and signed as.
  pub record IsSettled (env : Env) (r : ApiRequest) (w : RequestProcessor F)
      (response : RequestResponse) : Type 0 where
    pub answer : ProviderResponse
    pub anon : P
    pub x : F
    pub y : F
    pub executes : env.execute r.client_request_id r.payload r.payload_hash ≡ ok answer
    pub charge : response.charge_applied ≡ answer.charge_applied
    pub within : response.charge_applied ≤ charge_cap w.config
    pub point :
        c.from_affine
          (felt_to_field k r.public_inputs.anon_commitment_x)
          (felt_to_field k r.public_inputs.anon_commitment_y)
        ≡ some anon
    pub updates :
        c.to_affine
          (server_update c anon response.charge_applied (felt_to_field k response.blind_delta_srv))
        ≡ some (x, y)
    pub at_x : response.next_commitment.x ≡ field_to_felt k x
    pub at_y : response.next_commitment.y ≡ field_to_felt k y
    pub signed :
        verify k response.next_state_sig_root
          (compute_state_message k w.config.protocol_version w.config.chain_id
            w.config.contract_address response.next_commitment.x response.next_commitment.y
            response.next_anchor)
          response.next_state_sig
        ≡ true
    pub under : response.next_state_sig_root ≡ state_root k w.signer

  module _ (round : (x : F) → k.from_bytes_be (k.to_bytes_be x) ≡ x) where
    -- When the state keypair is one generated with a height below 32, up to its cursor, the answer to
    -- a request whose nullifier is new carries the charge of the provider's answer, within the cap of
    -- the configuration; its commitment is the anonymous commitment less the charge, blinded by the
    -- delta that it reveals; and its signature on exactly that commitment and anchor is verified
    -- under the server's state root, which it names.
    pub process_request-IsSettled :
        (seed : F) (height : ℕ) (env : Env) (r : ApiRequest) (w : RequestProcessor F)
        (response : RequestResponse)
        → IsGenerated k seed height w.signer.state_keypair
        → height < 32
        → lookup_by_nullifier b.json r.public_inputs.request_nullifier w.store ≡ none
        → (process_request b k c env r w).0 ≡ ok response
        → IsSettled env r w response
    unfolding response_of
    process_request-IsSettled seed height env r w response g small absent h =
        let s = process_request-IsServed b k c env r w response absent h in
        let at = s.charged in
        let w1 = record w {
          store = s.store1;
          provider_calls = r.client_request_id ∷ w.provider_calls;
        } in
        let (leaf, m, call, built, moved) =
          sign_request-ok env r at.anon s.answer.charge_applied w1 at.signed at.sig at.next
            at.signs in
        let state =
          next_state k c w.config r.public_inputs.request_nullifier at.anon
            s.answer.charge_applied in
        let next =
          next_state-IsNext w.config r.public_inputs.request_nullifier at.anon
            s.answer.charge_applied leaf at.next built in
        let (is_built, low, at_leaf, at_epoch, good, kept) =
          sign_next_state-verify k round seed height env.signer_served (λ l. message_of (state l))
            w.signer w.table at.sig leaf m g small call in
        let root : state_root k at.signed.signer ≡ state_root k w.signer =
          ap (state_root k) moved ∙ sym (state_root-IsGenerated seed height w.signer _ g kept) in
        let message : m ≡ at.next.message = is_built ∙ ap message_of built in
        subst (IsSettled env r w) (sym at.answers) (record {
          answer = s.answer;
          anon = at.anon;
          x = next.x;
          y = next.y;
          executes = s.executes;
          charge = refl;
          within = s.within;
          point = at.point;
          updates = next.updates;
          at_x = next.at_x;
          at_y = next.at_y;
          signed =
              ap₂ (λ (u v : Felt252). verify k u v at.sig) root (sym (message ∙ next.says)) ∙ good;
          under = root;
        })
