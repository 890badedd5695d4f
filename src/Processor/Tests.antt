-- ===== src/Processor/Tests.antt =====
-- The request processor and the watcher at concrete inputs.
mod Panic
use zk_api.Prelude.{
  ℕ, ◌+◌, ◌<◌, ◌≤◌, ◌≡◌, ◌≢◌, refl, true, false, [], ◌∷◌, List, none, some, codes, ok, err, arith,
  sym, ap, ◌∙◌,
}
use zk_api.Felt.{Felt252, felt_zero, from_u64, to_hex, from_be_bytes, field_modulus_bytes, bytes_lt}
use zk_api.Felt.Bytes.{IsCanonical}
use zk_api.Inputs.{canonical_response_hash, RequestPublicInputs}
use zk_api.Server.{nullifier_used}
use zk_api.Server.Store.{lookup_by_nullifier, select_key, reserve, reserve_clearance}
use zk_api.Server.Lifecycle.{History, start}
use zk_api.Signature.{XmssSignature}
use zk_api.Stark.{
  field_to_felt, felt_to_field, compute_next_anchor, compute_blind_delta, compute_clearance_message,
  poseidon_hash_chain, poseidon_hash, domain_felt,
}
use zk_api.Xmss.{
  signature_at, generate_with_height, root_felt, verify, sign_with_index, levels_from, next_level,
  node, xmss_node_hash, range_from,
}
use zk_api.Xmss.Signing.{IsGenerated}
use zk_api.Xmss.Toy.{small_field, small_round}
use zk_api.Signer.{
  with_height, state_root, clear_root, sign_clearance, sign_tree, sign_in_memory, sign_next_state,
}
use zk_api.Processor.{
  panics, fails, ClearanceResponse, RequestResponse, RequestProcessor, ApiRequest,
}
use zk_api.Processor.Checks.{check_request, charge_cap}
use zk_api.Processor.States.{
  NextState, message_of, next_state, generate_server_rng, generate_server_rng2,
}
use zk_api.Processor.Handlers.{process_request, process_clearance, response_of, admit}
use zk_api.Processor.Responses.{recover_by_nullifier}
use zk_api.Processor.Retry.{IsKept, process_request-retry}
use zk_api.Processor.Charged.{IsSettled, process_request-IsSettled}
use zk_api.Processor.Clearance.{process_clearance-once}
use zk_api.Processor.Poisoned.{Calls, no_calls, process_request-IsPanicked, process_request-poisons}
use zk_api.Processor.Answers.{IsAnswer, process_request-answers}
use zk_api.Signer.Ready.{in_memory}
use zk_api.Pedersen.{server_update, scalar_mul, double_and_add}
use zk_api.Processor.Toy.{
  points, inputs, request, config, processor, answer, env, next, signature, backend, response,
  checked, next_at, signs, answered, served, response-IsKept, small-IsCanonical, hash_zero,
}

process_request-retry_example :
    (process_request backend small_field points env (request 5) served ≡ (ok response, served))
    × (recover_by_nullifier backend (from_u64 42) served ≡ record {
      status = codes "ok";
      nullifier_status = codes "finalized";
      request_response = some response;
    })
process_request-retry_example =
    process_request-retry backend small_field points env env (request 5) processor served response
      (1 ∷ []) (unfold lookup_by_nullifier in refl) answered response-IsKept (small-IsCanonical.0)
      (small-IsCanonical.1) start (unfold check_request in checked 5)

keypairs :
    IsGenerated small_field 42 1 processor.signer.state_keypair
    × IsGenerated small_field 43 1 processor.signer.clear_keypair
unfolding with_height generate_with_height
keypairs = (
  record { secrets = refl; levels = refl; top = refl; rounds = refl },
  record { secrets = refl; levels = refl; top = refl; rounds = refl },
)

process_request-IsSettled_example :
    IsSettled backend small_field points env (request 5) processor response
process_request-IsSettled_example =
    process_request-IsSettled backend small_field points small_round 42 1 env (request 5) processor
      response (keypairs.0) (omega arith) (unfold lookup_by_nullifier in refl) answered

updated_at :
    points.to_affine (
      server_update points 5 30 (
        felt_to_field small_field (
          compute_blind_delta small_field
            (generate_server_rng2 small_field points (from_u64 42))
            (from_u64 42)
            0)))
    ≡ some (5, 1)
unfolding server_update scalar_mul double_and_add
updated_at = refl

process_request-answers_example :
    (r : RequestResponse) × ((process_request backend small_field points env
        (request 5)
        processor).0
      ≡ ok r)
    × IsAnswer backend small_field points (request 5) answer 0 5 1 r
    × IsSettled backend small_field points env (request 5) processor r
unfolding lookup_by_nullifier charge_cap felt_to_field from_u64 from_be_bytes
    canonical_response_hash with_height generate_with_height
process_request-answers_example =
    process_request-answers backend small_field points small_round 42 1 env (request 5) processor
      (1 ∷ []) answer felt_zero 5 0 5 1 refl refl refl (in_memory refl refl (omega arith))
      (keypairs.0) (omega arith) (checked 5) refl refl refl (omega arith)
      (hash_zero (codes "zkapi.response.v1") (codes "hello")) updated_at

clear_message_text : Felt252
clear_message_text = compute_clearance_message small_field 1 1 (from_u64 5) (from_u64 42)

abbrev cleared : ClearanceResponse
cleared = record {
  status = codes "ok";
  withdrawal_nullifier = from_u64 42;
  clear_sig_epoch = 1;
  clear_sig_root =
      clear_root small_field
        ((sign_clearance small_field true clear_message_text processor.signer []).1);
  clear_sig =
      record (signature_at small_field processor.signer.clear_keypair 0 clear_message_text) {
        epoch = 1;
      };
}

abbrev after_clearance : RequestProcessor ℕ
after_clearance = (process_clearance backend small_field points env (from_u64 42) processor).1

is_cleared :
    (process_clearance backend small_field points env (from_u64 42) processor).0 ≡ ok cleared
unfolding process_clearance lookup_by_nullifier reserve_clearance sign_clearance sign_tree
    sign_in_memory sign_with_index with_height generate_with_height clear_message_text
is_cleared = refl

process_clearance-once_example :
    (verify small_field cleared.clear_sig_root
        (compute_clearance_message small_field 1 1 (from_u64 5) (from_u64 42))
        cleared.clear_sig
      ≡ true)
    × (process_clearance backend small_field points env (from_u64 42) after_clearance
        ≡ (err (fails nullifier_used), after_clearance))
    × ((process_request backend small_field points env (request 5) after_clearance).0 ≢ ok response)
process_clearance-once_example =
    process_clearance-once backend small_field points small_round 43 1 env env (from_u64 42)
      processor after_clearance cleared (request 5) response (keypairs.1) (omega arith) is_cleared
      start refl
