-- ===== src/Processor/Toy.antt =====
-- A processor at concrete inputs: a hash that is always zero, numbers for points, and the small
-- stand-in for the Stark field.
use zk_api.Prelude.{
  ℕ, ◌+◌, ◌≡◌, refl, true, false, List, [], ◌∷◌, none, some, Str, codes, replicate, ok, bytes_eq,
  ◌==◌, if◌then◌else◌, arith,
}
use zk_api.Felt.{
  Felt252, felt_zero, from_u64, from_be_bytes, try_from_bytes_be, bytes_lt, field_modulus_bytes,
  is_zero, felt_eq,
}
use zk_api.Inputs.{
  RequestPublicInputs, digest, hash_bytes_to_felt, request_cairo_outputs, canonical_payload_hash,
  canonical_response_hash, request_public_output_hash, hash_felts_to_felt,
}
use zk_api.Inputs.Hashing.{hash_bytes_to_felt-first}
use zk_api.Stark.{
  field_to_felt, felt_to_field, compute_next_anchor, compute_blind_delta, compute_state_message,
}
use zk_api.Signature.{XmssSignature}
use zk_api.Xmss.{signature_at, generate_with_height, sign_with_index, xmss_node_hash, root_felt}
use zk_api.Xmss.Toy.{small_field}
use zk_api.Pedersen.{StarkCurve, server_update, scalar_mul, double_and_add}
use zk_api.Signer.{with_height, state_root, sign_next_state, sign_tree, sign_in_memory}
use zk_api.Wallet.{stwo_cairo}
use zk_api.Server.Store.{lookup_by_nullifier}
use zk_api.Processor.{
  ServerConfig, ApiRequest, RequestResponse, ProviderResponse, Backend, Env, RequestProcessor,
}
use zk_api.Processor.Checks.{charge_cap, check_request}
use zk_api.Processor.States.{
  NextState, message_of, next_state, generate_server_rng, generate_server_rng2,
}
use zk_api.Processor.Handlers.{process_request, response_of}
use zk_api.Processor.Retry.{IsKept}
use zk_api.Felt.Bytes.{IsCanonical}
use zk_api.Processor.Answers.{process_request-response_of}

-- Every multiple is zero, so an update leaves the point; zero has no coordinates.
abbrev pub points : StarkCurve ℕ ℕ
points = record {
  to_biguint = λ n. n;
  to_bits_le = λ n. [];
  from_bytes_be = from_be_bytes 0;
  from_u128 = λ n. n;
  identity = 0;
  add = λ p q. p + q;
  neg = λ p. 0;
  from_affine = λ x y. some x;
  to_affine = λ p. if p == 0 then none else some (p, 1);
  point_eq = λ p q. p == q;
  g_balance = 1;
  h_blind = 2;
}

abbrev pub inputs : ℕ → RequestPublicInputs
inputs point = record {
  statement_type = 1;
  protocol_version = 1;
  chain_id = 1;
  contract_address = from_u64 5;
  active_root = from_u64 11;
  state_sig_epoch = 0;
  state_sig_root = felt_zero;
  request_nullifier = from_u64 42;
  anon_commitment_x = from_u64 point;
  anon_commitment_y = from_u64 1;
  expiry_ts = 1000;
  solvency_bound = 100;
}

abbrev pub request : ℕ → ApiRequest
request point = record {
  client_request_id = codes "one";
  payload = codes "hello";
  payload_hash = felt_zero;
  public_inputs = inputs point;
  proof = record { backend = stwo_cairo; public_output_hash = felt_zero; proof = codes "AQ==" };
}

abbrev pub config : ServerConfig
config = record {
  protocol_version = 1;
  chain_id = 1;
  contract_address = from_u64 5;
  request_charge_cap = 100;
  policy_charge_cap = 100;
  policy_enabled = false;
  trusted_epoch_roots = [];
}

abbrev pub processor : RequestProcessor ℕ
processor = record {
  config = config;
  store = [];
  signer = with_height small_field 42 43 1 1;
  table = [];
  poisoned = false;
  current_root = from_u64 11;
  provider_calls = [];
}

abbrev pub answer : ProviderResponse
answer = record {
  status_code = 200;
  payload = codes "hello";
  charge_applied = 30;
  policy_reason_code = none;
  policy_evidence_hash = none;
}

abbrev pub env : Env
env = record {
  now = 10;
  finalized_at = 11;
  reserve_served = true;
  finalize_served = true;
  signer_served = true;
  execute = λ id payload hash. ok answer;
}

abbrev pub next : NextState
next =
    let n = from_u64 42 in
    let cx = field_to_felt small_field 5 in
    let cy = field_to_felt small_field 1 in
    let anchor =
      compute_next_anchor small_field (generate_server_rng small_field points n) n cx cy 0 in
    record {
      next_cx = cx;
      next_cy = cy;
      next_anchor = anchor;
      blind_delta_felt =
          compute_blind_delta small_field (generate_server_rng2 small_field points n) n 0;
      message = compute_state_message small_field 1 1 (from_u64 5) cx cy anchor;
    }

abbrev pub signature : XmssSignature
signature = record (signature_at small_field processor.signer.state_keypair 0 next.message) {
  epoch = 1;
}

abbrev pub backend : Backend
backend = record {
  keccak = λ bytes. replicate 32 0;
  json = record { to_string = λ s. []; from_str = λ s. some signature };
  inputs_to_string = λ i. some (codes "inputs");
  inputs_from_string = λ s. some (inputs 5);
  decode_base64 = λ s. some (1 ∷ []);
  verify_artifact = λ h p. true;
}

pub hash_zero : (dom payload : Str) → hash_bytes_to_felt backend.keccak dom payload ≡ some felt_zero
unfolding digest try_from_bytes_be bytes_lt field_modulus_bytes
hash_zero dom payload =
    hash_bytes_to_felt-first backend.keccak 0 dom payload felt_zero (omega arith)
      (λ i h. absurd (omega arith)) refl

felts_zero :
    (dom : Str) (felts : List Felt252) → hash_felts_to_felt backend.keccak dom felts ≡ ok felt_zero
unfolding hash_felts_to_felt digest try_from_bytes_be bytes_lt field_modulus_bytes
felts_zero dom felts = refl

outputs_zero :
    (i : RequestPublicInputs) → request_public_output_hash backend.keccak i ≡ ok felt_zero
unfolding request_public_output_hash
outputs_zero i = felts_zero (codes "zkapi.req.outputs.v1") (request_cairo_outputs i)

pub checked :
    (point : ℕ) → check_request backend small_field 10 (request point) processor ≡ ok (1 ∷ [])
unfolding check_request canonical_payload_hash is_zero felt_eq bytes_eq charge_cap from_u64
checked point =
    rw (hash_zero (codes "zkapi.payload.v1") (codes "hello"), outputs_zero (inputs point)) refl

pub next_at : next_state small_field points config (from_u64 42) 5 30 0 ≡ some next
unfolding next_state server_update scalar_mul double_and_add
next_at = refl

pub signs :
    (sign_next_state small_field true
      (λ l. message_of (next_state small_field points config (from_u64 42) 5 30 l))
      processor.signer
      []).0
    ≡ ok (signature, 0, next.message)
unfolding sign_next_state sign_tree sign_in_memory sign_with_index with_height generate_with_height
signs = rw next_at refl

abbrev pub response : RequestResponse
response =
    response_of backend small_field points (request 5) answer felt_zero signature next
      (record processor {
        signer =
            (sign_next_state small_field true
              (λ l. message_of (next_state small_field points config (from_u64 42) 5 30 l))
              processor.signer []).1;
      })

pub answered :
    (process_request backend small_field points env (request 5) processor).0 ≡ ok response
unfolding canonical_response_hash lookup_by_nullifier charge_cap felt_to_field from_u64
    from_be_bytes
answered =
    process_request-response_of backend small_field points env (request 5) processor (1 ∷ []) answer
      felt_zero next.message 5 0 signature next refl refl (checked 5) refl refl
      (hash_zero (codes "zkapi.response.v1") (codes "hello")) (omega arith) refl refl signs next_at

pub small-IsCanonical : IsCanonical (from_u64 42) × IsCanonical felt_zero
unfolding from_u64 from_be_bytes field_modulus_bytes bytes_lt
small-IsCanonical = (omega arith, omega arith)

pub response-IsKept : IsKept backend.json response
unfolding response_of field_to_felt compute_next_anchor compute_blind_delta generate_server_rng
    generate_server_rng2 state_root root_felt with_height generate_with_height xmss_node_hash
    sign_next_state sign_tree sign_in_memory sign_with_index from_be_bytes field_modulus_bytes
response-IsKept = record {
  charge = omega arith;
  response_hash = omega arith;
  next_x = omega arith;
  next_y = omega arith;
  next_anchor = omega arith;
  blind_delta_srv = omega arith;
  next_state_sig_root = omega arith;
  policy_evidence_hash = tt;
  json_back = refl;
}

abbrev pub served : RequestProcessor ℕ
served = record processor {
  store = (process_request backend small_field points env (request 5) processor).1.store;
}
