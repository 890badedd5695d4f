-- ===== src/Watcher/Archive.antt =====
-- rust/crates/zkapi-server/src/watcher.rs: every answered request can be used in a challenge.
use zk_api.Prelude.{ℕ, ◌≡◌, List, none, some, Str, ok, arith}
use zk_api.Felt.{Felt252, felt_eq_refl}
use zk_api.Felt.Bytes.{IsCanonical}
use zk_api.Server.Store.{lookup_by_nullifier}
use zk_api.Server.Lifecycle.{History, lookup_by_nullifier-History}
use zk_api.Stark.{StarkField}
use zk_api.Pedersen.{StarkCurve}
use zk_api.Processor.{ApiRequest, RequestResponse, Backend, Env, RequestProcessor}
use zk_api.Processor.Checks.{check_request}
use zk_api.Processor.Handlers.{process_request}
use zk_api.Processor.Served.{process_request-IsServed}
use zk_api.Processor.Retry.{IsKept, served_lookup}
use zk_api.Watcher.{finalized_transcript, build_challenge_action}

module _ {F P : Type 0} (b : Backend) (k : StarkField F) (c : StarkCurve F P) where
  -- Let a request whose nullifier is new be answered, with a response that the columns keep, for a
  -- canonical nullifier and payload hash, and let the text of its inputs read back as them. After any
  -- further statements on the table, the watcher builds a challenge for its nullifier, with the
  -- inputs of the request and the bytes of the very proof that passed the checks.
  pub build_challenge_action-process_request :
      (env : Env) (r : ApiRequest) (w w2 : RequestProcessor F) (response : RequestResponse)
      (note_id : ℕ) (siblings : List Felt252) (text : Str)
      → lookup_by_nullifier b.json r.public_inputs.request_nullifier w.store ≡ none
      → (process_request b k c env r w).0 ≡ ok response
      → IsKept b.json response
      → IsCanonical r.public_inputs.request_nullifier
      → IsCanonical r.payload_hash
      → b.inputs_to_string r.public_inputs ≡ some text
      → b.inputs_from_string text ≡ some r.public_inputs
      → History b.json ((process_request b k c env r w).1.store) w2.store
      → (bytes : List ℕ) × (check_request b k env.now r w ≡ ok bytes)
        × (build_challenge_action b note_id r.public_inputs.request_nullifier siblings w2.store
            ≡ ok (record {
              note_id = note_id;
              request_inputs = r.public_inputs;
              proof_artifact = bytes;
              siblings = siblings;
            }))
  unfolding build_challenge_action finalized_transcript
  build_challenge_action-process_request env r w w2 response note_id siblings text absent h kept cn
        ch written read past =
      let s = process_request-IsServed b k c env r w response absent h in
      let (t, found, final, id, hash, same, inputs, proof) =
        served_lookup b k c env r w response _ s kept cn ch in
      let later =
        lookup_by_nullifier-History b.json r.public_inputs.request_nullifier _ w2.store t found
          (λ e. cc) past in
      (s.proof_bytes, s.checked, ground (arith, felt_eq_refl r.public_inputs.request_nullifier))
