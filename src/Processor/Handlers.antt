-- ===== src/Processor/Handlers.antt =====
-- rust/crates/zkapi-server/src/processor.rs: the requests and the clearances.
use zk_api.Prelude.{
  ℕ, Bool, true, false, List, ◌∷◌, Option, none, some, Str, codes, ltb, bytes_eq, ◌&&◌, Result, err,
  ok,
}
use zk_api.Felt.{Felt252, felt_eq}
use zk_api.Inputs.{canonical_response_hash}
use zk_api.Server.{
  TranscriptRecord, reserved, finalized, clearance_reserved, replay, internal, nullifier_used,
}
use zk_api.Server.Store.{NullifierStore, lookup_by_nullifier, reserve, reserve_clearance, finalize}
use zk_api.Signature.{XmssSignature}
use zk_api.Stark.{StarkField, felt_to_field, compute_clearance_message}
use zk_api.Pedersen.{StarkCurve}
use zk_api.Signer.{sign_clearance, state_root, clear_root}
use zk_api.Processor.{
  Fault, fails, panics, ApiRequest, RequestResponse, ClearanceResponse, ProviderResponse, Backend,
  Env, RequestProcessor,
}
use zk_api.Processor.States.{NextState, sign_request}
use zk_api.Processor.Checks.{check_request, charge_cap}
use zk_api.Processor.Responses.{build_response_from_record}

abbrev pub id_is : Option Str → Str → Bool
id_is none id = false
id_is (some s) id = bytes_eq s id

abbrev pub hash_is : Option Felt252 → Felt252 → Bool
hash_is none h = false
hash_is (some f) h = felt_eq f h

-- The two equations of the match guards.
unfoldable pub same_request : TranscriptRecord → ApiRequest → Bool
same_request existing r =
    id_is existing.client_request_id r.client_request_id
    && hash_is existing.payload_hash r.payload_hash

-- Step 10: the match on the stored transcript. `some` is a response to return at once.
unfoldable pub admit :
    Backend
    → Env
    → ApiRequest
    → NullifierStore
    → Result Fault (Option RequestResponse) × NullifierStore
unfolding same_request
admit b env r store = elim (lookup_by_nullifier b.json r.public_inputs.request_nullifier store) [
  | none ↦
      let (done, store1) =
        reserve env.reserve_served env.now r.public_inputs.request_nullifier r.client_request_id
          r.payload_hash store in
      elim done [ err e ↦ (err (fails e), store1) | ok _ ↦ (ok none, store1) ]
  | some existing ↦ elim (same_request existing r) [
    | false ↦ (err (fails replay), store)
    | true ↦ elim existing.status [
      | finalized ↦ (ok (some (build_response_from_record existing r.client_request_id)), store)
      | reserved ↦ (ok none, store)
      | clearance_reserved ↦ (err (fails replay), store)
    ]
  ]
]

module _ {F P : Type 0} (b : Backend) (k : StarkField F) (c : StarkCurve F P) where
  unfoldable pub transcript_of :
      Env
      → ApiRequest
      → List ℕ
      → ProviderResponse
      → Felt252
      → XmssSignature
      → NextState
      → RequestProcessor F
      → TranscriptRecord
  transcript_of env r proof_bytes answer response_hash sig next w = record {
    nullifier = r.public_inputs.request_nullifier;
    status = finalized;
    client_request_id = some r.client_request_id;
    payload_hash = some r.payload_hash;
    charge_applied = some answer.charge_applied;
    response_code = some answer.status_code;
    response_payload = some answer.payload;
    response_hash = some response_hash;
    next_commitment_x = some next.next_cx;
    next_commitment_y = some next.next_cy;
    next_anchor = some next.next_anchor;
    blind_delta_srv = some next.blind_delta_felt;
    next_state_sig_epoch = some sig.epoch;
    next_state_sig_root = some (state_root k w.signer);
    next_state_sig = some sig;
    policy_reason_code = answer.policy_reason_code;
    policy_evidence_hash = answer.policy_evidence_hash;
    proof_blob = some proof_bytes;
    request_inputs_json = b.inputs_to_string r.public_inputs;
    created_at = env.finalized_at;
    finalized_at = some env.finalized_at;
  }

  unfoldable pub response_of :
      ApiRequest
      → ProviderResponse
      → Felt252
      → XmssSignature
      → NextState
      → RequestProcessor F
      → RequestResponse
  response_of r answer response_hash sig next w = record {
    status = codes "ok";
    client_request_id = r.client_request_id;
    request_nullifier = r.public_inputs.request_nullifier;
    response_code = answer.status_code;
    response_payload = answer.payload;
    response_hash = response_hash;
    charge_applied = answer.charge_applied;
    next_commitment = record { x = next.next_cx; y = next.next_cy };
    next_anchor = next.next_anchor;
    blind_delta_srv = next.blind_delta_felt;
    next_state_sig_epoch = sig.epoch;
    next_state_sig_root = state_root k w.signer;
    next_state_sig = sig;
    policy_reason_code = answer.policy_reason_code;
    policy_evidence_hash = answer.policy_evidence_hash;
  }

  -- Steps 17 and 18.
  unfoldable pub finalize_charge :
      Env
      → ApiRequest
      → List ℕ
      → ProviderResponse
      → Felt252
      → XmssSignature
      → NextState
      → RequestProcessor F
      → Result Fault RequestResponse × RequestProcessor F
  unfolding transcript_of response_of
  finalize_charge env r proof_bytes answer response_hash sig next w =
      let (done, store1) =
        finalize b.json env.finalize_served env.finalized_at r.public_inputs.request_nullifier
          (transcript_of env r proof_bytes answer response_hash sig next w) w.store in
      let w1 = record w { store = store1 } in
      elim done [
        | err e ↦ (err (fails (internal (codes "failed to finalize transcript"))), w1)
        | ok _ ↦ (ok (response_of r answer response_hash sig next w), w1)
      ]

  -- Steps 13 to 18, for an answer within the cap.
  unfoldable pub charge_request :
      Env
      → ApiRequest
      → List ℕ
      → ProviderResponse
      → Felt252
      → RequestProcessor F
      → Result Fault RequestResponse × RequestProcessor F
  unfolding finalize_charge
  charge_request env r proof_bytes answer response_hash w =
      elim (c.from_affine (felt_to_field k r.public_inputs.anon_commitment_x)
        (felt_to_field k r.public_inputs.anon_commitment_y)) [
          | none ↦ (err panics, w)
          | some anon_point ↦
              let (signed, w1) = sign_request k c env r anon_point answer.charge_applied w in
              elim signed [
                | err e ↦ (err e, w1)
                | ok (sig, next) ↦
                    finalize_charge env r proof_bytes answer response_hash sig next w1
              ]
        ]

  -- Steps 11 and 12: the provider's call, recorded, and the cap.
  unfoldable pub serve :
      Env
      → ApiRequest
      → List ℕ
      → RequestProcessor F
      → Result Fault RequestResponse × RequestProcessor F
  unfolding charge_request charge_cap
  serve env r proof_bytes w =
      let w1 = record w { provider_calls = r.client_request_id ∷ w.provider_calls } in
      elim (env.execute r.client_request_id r.payload r.payload_hash) [
        | err e ↦ (err (fails e), w1)
        | ok answer ↦ elim (canonical_response_hash b.keccak answer.payload) [
          | none ↦ (err panics, w1)
          | some response_hash ↦ elim (ltb (charge_cap w.config) answer.charge_applied) [
            | true ↦ (err (fails (internal (codes "provider charge exceeds cap"))), w1)
            | false ↦ charge_request env r proof_bytes answer response_hash w1
          ]
        ]
      ]

  unfoldable pub process_request :
      Env → ApiRequest → RequestProcessor F → Result Fault RequestResponse × RequestProcessor F
  unfolding check_request admit serve
  process_request env r w = elim (check_request b k env.now r w) [
    | err e ↦ (err e, w)
    | ok proof_bytes ↦
        let (admission, store1) = admit b env r w.store in
        let w1 = record w { store = store1 } in
        elim admission [
          | err e ↦ (err e, w1)
          | ok (some response) ↦ (ok response, w1)
          | ok none ↦ serve env r proof_bytes w1
        ]
  ]

  unfoldable pub process_clearance :
      Env → Felt252 → RequestProcessor F → Result Fault ClearanceResponse × RequestProcessor F
  process_clearance env nullifier w = elim (lookup_by_nullifier b.json nullifier w.store) [
    | some existing ↦ (err (fails nullifier_used), w)
    | none ↦ elim w.poisoned [
      | true ↦ (err (fails (internal (codes "signer operation lock poisoned"))), w)
      | false ↦
          let message =
            compute_clearance_message k w.config.protocol_version w.config.chain_id
              w.config.contract_address nullifier in
          let (signed, signer1, table1) =
            sign_clearance k env.signer_served message w.signer w.table in
          let w1 = record w { signer = signer1; table = table1 } in
          elim signed [
            | err e ↦ (err (fails e), w1)
            | ok (sig, leaf) ↦
                let (done, store1) =
                  reserve_clearance env.reserve_served env.now nullifier w.store in
                let w2 = record w1 { store = store1 } in
                elim done [
                  | err e ↦ (err (fails e), w2)
                  | ok _ ↦ (
                    ok (record {
                      status = codes "ok";
                      withdrawal_nullifier = nullifier;
                      clear_sig_epoch = sig.epoch;
                      clear_sig_root = clear_root k signer1;
                      clear_sig = sig;
                    }),
                    w2,
                  )
                ]
          ]
    ]
  ]
