-- ===== src/Watcher/Tests.antt =====
-- The watcher on the transcript of an answered request.
use zk_api.Prelude.{ℕ, List, [], ◌≡◌, refl, codes, ok}
use zk_api.Felt.{from_u64}
use zk_api.Server.Store.{lookup_by_nullifier}
use zk_api.Server.Lifecycle.{start}
use zk_api.Xmss.Toy.{small_field}
use zk_api.Processor.Checks.{check_request}
use zk_api.Processor.Toy.{
  points, inputs, request, processor, env, backend, response, answered, served, response-IsKept,
  small-IsCanonical,
}
use zk_api.Watcher.{build_challenge_action}
use zk_api.Watcher.Archive.{build_challenge_action-process_request}

build_challenge_action-process_request_example :
    (bytes : List ℕ) × (check_request backend small_field 10 (request 5) processor ≡ ok bytes)
    × (build_challenge_action backend 7 (from_u64 42) [] served.store
        ≡ ok (record {
          note_id = 7;
          request_inputs = inputs 5;
          proof_artifact = bytes;
          siblings = [];
        }))
build_challenge_action-process_request_example =
    build_challenge_action-process_request backend small_field points env (request 5) processor
      served response 7 [] (codes "inputs") (unfold lookup_by_nullifier in refl) answered
      response-IsKept (small-IsCanonical.0) (small-IsCanonical.1) refl refl start
