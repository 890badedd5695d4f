-- ===== src/Processor/Retry.antt =====
-- rust/crates/zkapi-server/src/processor.rs: an answered request that comes again, or is recovered.
use zk_api.Prelude.{
  ℕ, ◌<◌, ◌^◌, ◌≡◌, refl, sym, ap, ap₂, subst, ◌∙◌, Bool, true, false, List, none, some, Str, codes,
  ok, bytes_eq_refl, arith,
}
use zk_api.Felt.{Felt252, felt_eq_refl}
use zk_api.Felt.Bytes.{IsCanonical}
use zk_api.Signature.{XmssSignature}
use zk_api.Server.{TranscriptRecord, finalized}
use zk_api.Server.Store.{NullifierStore, SignatureJson, lookup_by_nullifier, reserve, finalize}
use zk_api.Server.Lifecycle.{History, lookup_by_nullifier-History}
use zk_api.Server.Transcript.{IsStorable, OptCanonical, lookup-finalize}
use zk_api.Stark.{StarkField}
use zk_api.Pedersen.{StarkCurve}
use zk_api.Processor.{ProviderResponse, ApiRequest, RequestResponse, Backend, Env, RequestProcessor}
use zk_api.Processor.States.{NextState}
use zk_api.Processor.Checks.{check_request}
use zk_api.Processor.Responses.{build_response_from_record, recover_by_nullifier}
use zk_api.Processor.Handlers.{admit, same_request, transcript_of, response_of, process_request}
use zk_api.Processor.Served.{IsServed, process_request-IsServed}

-- The values of a response that its columns keep: a charge below 2^63, canonical field elements and
-- a signature that comes back from its text.
pub record IsKept (json : SignatureJson) (response : RequestResponse) : Type 0 where
  pub charge : response.charge_applied < 2 ^ 63
  pub response_hash : IsCanonical response.response_hash
  pub next_x : IsCanonical response.next_commitment.x
  pub next_y : IsCanonical response.next_commitment.y
  pub next_anchor : IsCanonical response.next_anchor
  pub blind_delta_srv : IsCanonical response.blind_delta_srv
  pub next_state_sig_root : IsCanonical response.next_state_sig_root
  pub policy_evidence_hash : OptCanonical response.policy_evidence_hash
  pub json_back :
      json.from_str (json.to_string response.next_state_sig) ≡ some response.next_state_sig

reserve_served :
    (served : Bool) (now : ℕ) (n hash : Felt252) (id : Str) (s s1 : NullifierStore)
    → reserve served now n id hash s ≡ (ok tt, s1)
    → served ≡ true
unfolding reserve
reserve_served true now n hash id s s1 h = refl
reserve_served false now n hash id s s1 h = absurd (ground arith)

finalize_served :
    (json : SignatureJson) (served : Bool) (now : ℕ) (n : Felt252) (t : TranscriptRecord)
    (s s1 : NullifierStore)
    → finalize json served now n t s ≡ (ok tt, s1)
    → served ≡ true
unfolding finalize
finalize_served json true now n t s s1 h = refl
finalize_served json false now n t s s1 h = absurd (ground arith)

module _ {F P : Type 0} (b : Backend) (k : StarkField F) (c : StarkCurve F P) where
  IsKept-IsStorable :
      (env : Env) (r : ApiRequest) (bytes : List ℕ) (answer : ProviderResponse) (rh : Felt252)
      (sig : XmssSignature) (next : NextState) (w : RequestProcessor F)
      → IsKept b.json (response_of b k c r answer rh sig next w)
      → IsStorable b.json (transcript_of b k c env r bytes answer rh sig next w)
  unfolding transcript_of response_of
  IsKept-IsStorable env r bytes answer rh sig next w h = record {
    charge = h.charge;
    response_hash = h.response_hash;
    next_commitment_x = h.next_x;
    next_commitment_y = h.next_y;
    next_anchor = h.next_anchor;
    blind_delta_srv = h.blind_delta_srv;
    next_state_sig_root = h.next_state_sig_root;
    policy_evidence_hash = h.policy_evidence_hash;
    json_back = λ sig' e. cc (h.json_back);
  }

  -- The stored transcript of an answered request.
  pub served_lookup :
      (env : Env) (r : ApiRequest) (w : RequestProcessor F) (response : RequestResponse)
      (after : NullifierStore)
      → (s : IsServed b k c env r w response after) → IsKept b.json response
      → IsCanonical r.public_inputs.request_nullifier
      → IsCanonical r.payload_hash
      → (t : TranscriptRecord) × (lookup_by_nullifier b.json r.public_inputs.request_nullifier after
          ≡ some t)
        × (t.status ≡ finalized)
        × (t.client_request_id ≡ some r.client_request_id)
        × (t.payload_hash ≡ some r.payload_hash)
        × (build_response_from_record t r.client_request_id ≡ response)
        × (t.request_inputs_json ≡ b.inputs_to_string r.public_inputs)
        × (t.proof_blob ≡ some s.proof_bytes)
  unfolding transcript_of response_of build_response_from_record
  served_lookup env r w response after s kept cn ch =
      let n = r.public_inputs.request_nullifier in
      let at = s.charged in
      let t0 =
        transcript_of b k c env r s.proof_bytes s.answer s.response_hash at.sig at.next at.signed in
      let storable : IsStorable b.json t0 =
        IsKept-IsStorable env r s.proof_bytes s.answer s.response_hash at.sig at.next at.signed
          (subst (IsKept b.json) at.answers kept) in
      let up =
        reserve_served env.reserve_served env.now n r.payload_hash r.client_request_id w.store
          s.store1 s.reserves in
      let up2 =
        finalize_served b.json env.finalize_served env.finalized_at n t0 at.signed.store after
          at.stores in
      let made : reserve true env.now n r.client_request_id r.payload_hash w.store
          ≡ (ok tt, s.store1) =
        ap (λ (v : Bool). reserve v env.now n r.client_request_id r.payload_hash w.store) (sym up)
        ∙ s.reserves in
      let found =
        lookup-finalize b.json env.now env.finalized_at n r.payload_hash r.client_request_id t0
          w.store cn ch storable (λ i. (made i).0) in
      let ended : finalize b.json true env.finalized_at n t0
            ((reserve true env.now n r.client_request_id r.payload_hash w.store).1)
          ≡ (ok tt, after) =
        ap₂ (λ (v : Bool) (x : NullifierStore). finalize b.json v env.finalized_at n t0 x) (sym up2)
          ((λ i. (made i).1) ∙ sym at.kept)
        ∙ at.stores in
      (
        record t0 { created_at = env.now; finalized_at = some env.finalized_at },
        ap (lookup_by_nullifier b.json n) (sym (λ i. (ended i).1)) ∙ found.1,
        refl,
        refl,
        refl,
        sym at.answers,
        refl,
        refl,
      )

  -- Let a request whose nullifier is new be answered, with a response that the columns keep, for a
  -- canonical nullifier and payload hash. After any further statements on the table, and whatever
  -- the signer, the provider and the root are then, the same request that passes the checks is
  -- answered with the same response, and the processor stays as it is: nothing is charged, signed
  -- or passed to the provider again. Recovery by the nullifier finds the same response.
  pub process_request-retry :
      (env env2 : Env) (r : ApiRequest) (w w2 : RequestProcessor F) (response : RequestResponse)
      (bytes2 : List ℕ)
      → lookup_by_nullifier b.json r.public_inputs.request_nullifier w.store ≡ none
      → (process_request b k c env r w).0 ≡ ok response
      → IsKept b.json response
      → IsCanonical r.public_inputs.request_nullifier
      → IsCanonical r.payload_hash
      → History b.json ((process_request b k c env r w).1.store) w2.store
      → check_request b k env2.now r w2 ≡ ok bytes2
      → (process_request b k c env2 r w2 ≡ (ok response, w2))
        × (recover_by_nullifier b r.public_inputs.request_nullifier w2 ≡ record {
          status = codes "ok";
          nullifier_status = codes "finalized";
          request_response = some response;
        })
  unfolding process_request admit same_request recover_by_nullifier
  process_request-retry env env2 r w w2 response bytes2 absent h kept cn ch past checked =
      let s = process_request-IsServed b k c env r w response absent h in
      let (t, found, final, id, hash, same, inputs, proof) =
        served_lookup env r w response _ s kept cn ch in
      let later =
        lookup_by_nullifier-History b.json r.public_inputs.request_nullifier _ w2.store t found
          (λ e. cc) past in
      (
        ground (arith, bytes_eq_refl r.client_request_id, felt_eq_refl r.payload_hash),
        ground (arith),
      )
