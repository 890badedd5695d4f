-- ===== src/Processor/Tests/Panic.antt =====
-- The request processor at an anonymous commitment that the charge takes to the identity.
use zk_api.Prelude.{
  ℕ, ◌≡◌, ◌≢◌, refl, ap, ◌∙◌, true, [], ◌∷◌, none, codes, ok, err, arith, bytes_eq,
}
use zk_api.Felt.{felt_zero, from_u64, from_be_bytes, to_hex}
use zk_api.Inputs.{canonical_response_hash}
use zk_api.Server.Store.{lookup_by_nullifier, select_key, reserve}
use zk_api.Signature.{XmssSignature}
use zk_api.Stark.{felt_to_field}
use zk_api.Pedersen.{server_update, scalar_mul, double_and_add}
use zk_api.Xmss.{signature_at, generate_with_height, sign_with_index}
use zk_api.Xmss.Toy.{small_field}
use zk_api.Signer.{with_height, sign_next_state, sign_tree, sign_in_memory}
use zk_api.Processor.{ClearanceResponse, panics, RequestProcessor, ApiRequest}
use zk_api.Processor.Checks.{charge_cap}
use zk_api.Processor.States.{message_of, next_state}
use zk_api.Processor.Handlers.{process_request, process_clearance, admit}
use zk_api.Processor.Poisoned.{
  no_calls, IsPanicked, process_request-IsPanicked, process_request-poisons,
}
use zk_api.Processor.Toy.{
  points, inputs, request, config, processor, answer, env, backend, response, checked, hash_zero,
}

none_at : next_state small_field points config (from_u64 42) 0 30 0 ≡ none
unfolding next_state server_update scalar_mul double_and_add
none_at = refl

abbrev blank : XmssSignature
blank = record (signature_at small_field processor.signer.state_keypair 0 felt_zero) { epoch = 1 }

signs_blank :
    (sign_next_state small_field true
      (λ l. message_of (next_state small_field points config (from_u64 42) 0 30 l))
      processor.signer
      []).0
    ≡ ok (blank, 0, felt_zero)
unfolding sign_next_state sign_tree sign_in_memory sign_with_index with_height generate_with_height
signs_blank = rw none_at refl

admitted : (admit backend env (request 0) processor.store).0 ≡ ok none
unfolding admit lookup_by_nullifier reserve
admitted = refl

abbrev stuck : RequestProcessor ℕ
stuck = (process_request backend small_field points env (request 0) processor).1

panicked :
    IsPanicked backend small_field points processor
      ((admit backend env (request 0) processor.store).1)
      []
      (process_request backend small_field points env (request 0) processor)
unfolding charge_cap felt_to_field from_u64 from_be_bytes canonical_response_hash sign_next_state
    with_height
panicked =
    process_request-IsPanicked backend small_field points env (request 0) processor (1 ∷ []) answer
      felt_zero felt_zero 0 0 blank (checked 0) admitted refl
      (hash_zero (codes "zkapi.response.v1") (codes "hello")) (omega arith) refl refl signs_blank
      none_at

abbrev cleared : ClearanceResponse
cleared = record {
  status = codes "ok";
  withdrawal_nullifier = from_u64 7;
  clear_sig_epoch = 1;
  clear_sig_root = felt_zero;
  clear_sig = blank;
}

abbrev other : ApiRequest
other = record (request 5) { public_inputs = record (inputs 5) { request_nullifier = from_u64 43 } }

elsewhere :
    lookup_by_nullifier backend.json
      (from_u64 43)
      ((admit backend env (request 0) processor.store).1)
    ≡ none
unfolding admit lookup_by_nullifier select_key reserve to_hex bytes_eq from_u64
elsewhere = refl

absent : lookup_by_nullifier backend.json (from_u64 43) stuck.store ≡ none
absent = ap (lookup_by_nullifier backend.json (from_u64 43)) panicked.store ∙ elsewhere

process_request-poisons_example :
    ((process_request backend small_field points env (request 0) processor).0 ≡ err panics)
    × (stuck.signer ≡ processor.signer)
    × (stuck.table ≡ [])
    × ((process_clearance backend small_field points env (from_u64 7) stuck).0 ≢ ok cleared)
    × ((process_request backend small_field points env other stuck).0 ≢ ok response)
unfolding charge_cap felt_to_field from_u64 from_be_bytes canonical_response_hash sign_next_state
    with_height
process_request-poisons_example =
    process_request-poisons backend small_field points env env (request 0) other (from_u64 7)
      processor stuck (1 ∷ []) answer felt_zero felt_zero 0 0 blank response cleared (checked 0)
      admitted refl (hash_zero (codes "zkapi.response.v1") (codes "hello")) (omega arith) refl refl
      signs_blank none_at no_calls absent
