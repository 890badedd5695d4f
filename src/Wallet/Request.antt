-- ===== src/Wallet/Request.antt =====
-- rust/crates/zkapi-client/src/wallet_v2.rs: depositing and preparing a request. What an operation draws or asks of its surroundings is an argument: the random scalars,
-- the request's UUID, the clock, the prover and whether the disk accepts each write. An operation
-- returns its result with the wallet it leaves behind, on errors too.
use zk_api.Prelude.{
  ℕ, ◌-◌, ◌*◌, ◌+◌, ◌/◌, ◌%◌, ◌^◌, Bool, true, not, ◌&&◌, Option, none, some, List, [], ◌∷◌, ◌++◌,
  Str, codes, ltb, leb, ◌==◌, length, Result, ok, err, ◌>>=◌, ◌>>◌, ensure, ok_or, map_err,
  if◌then◌else◌, zero, suc,
}
use zk_api.Felt.{
  not_below_modulus, too_long, invalid_hex, Felt252, FeltError, felt_eq, from_hex, to_hex,
}
use zk_api.Core.{Poseidon, registration_commitment, note_leaf, nullifier, authorization_tag}
use zk_api.Curve.{
  CurvePointWire, SchnorrSignature, BabyJubJub, CurveError, scalar_to_felt, balance_commitment,
  rerandomize,
}
use zk_api.Inputs.{RequestPublicInputsV2, canonical_payload_hash, canonical_request_context}
use zk_api.Merkle.{merkle_depth}
use zk_api.Wallet.{
  store_state, verification_failed, proof_generation, serialization, note_already_exists,
  pending_request, counter_exhausted, insufficient_balance, no_active_note, invalid_response,
  ClientError, ClientConfig, NoteState, new_from_deposit, solvency_bound, Groth16ProofWire,
  ApiRequestV2, PendingRequestJournal, write, Wallet, has_pending_request,
}

pub record RequestWitnessData : Type 0 where
  pub secret : Felt252
  pub request_context : Felt252
  pub note_id : ℕ
  pub deposit_amount : ℕ
  pub expiry : ℕ
  pub merkle_siblings : List Felt252
  pub current_balance : ℕ
  pub current_blinding : Felt252
  pub rerandomization : Felt252
  pub current_anchor : Felt252
  pub is_genesis : Bool
  pub state_signature : Option SchnorrSignature

-- `RequestProver::load` of the configured directory, then `prove`; both give a message on failure.
abbrev pub RequestProver : Type 0
RequestProver = RequestPublicInputsV2 → RequestWitnessData → Result Str Groth16ProofWire

abbrev pub failed : Str → ClientError
failed message = verification_failed message

abbrev pub curve_message : CurveError → Str
curve_message e = codes "invalid Baby-JubJub point"

-- The text of a digit that does not parse leaves out the library's own words.
abbrev felt_message : FeltError → Str
felt_message not_below_modulus = codes "field element must be below the BN254 scalar modulus"
felt_message too_long = codes "hex string too long for felt252"
felt_message invalid_hex = codes "invalid hex"

-- `{}` of a `usize`.
decimal : ℕ → ℕ → List ℕ
decimal zero n = []
decimal (suc fuel) n =
    let rest = decimal fuel (n / 10) in
    if ltb n 10 then (48 + n) ∷ [] else rest ++ ((48 + n % 10) ∷ [])

unfoldable pub siblings_array : List Felt252 → Result ClientError (List Felt252)
unfolding decimal
siblings_array values =
    if length values == merkle_depth
    then ok values
    else err
        (proof_generation (codes "expected 32 Merkle siblings, got " ++ decimal 20 (length values)))

unfoldable pub parse_scalar : Str → Result ClientError Felt252
parse_scalar value = map_err (λ e. serialization (felt_message e)) (from_hex value)

unfoldable pub ensure_stored_commitment : NoteState → CurvePointWire → Result ClientError (Unit {0})
ensure_stored_commitment state commitment =
    ensure
      (felt_eq commitment.x state.current_commitment_x
        && felt_eq commitment.y state.current_commitment_y)
      (failed (codes "persisted balance commitment is inconsistent"))

-- What `prepare_request` draws from outside.
pub record RequestEnv (Sc : Type 0) : Type 0 where
  pub rerandomization : Sc
  pub client_request_id : Str
  pub now_seconds : ℕ
  pub prover : Result Str RequestProver
  pub journal_written : Bool

abbrev now_ms : ℕ → ℕ
now_ms seconds = if ltb (seconds * 1000) (2 ^ 64) then seconds * 1000 else 2 ^ 64 - 1

module _ {Fr Sc Pt : Type 0} (p : Poseidon Fr) (c : BabyJubJub Fr Sc Pt)
    (keccak : List ℕ → List ℕ) where
  unfoldable pub state_note_leaf : NoteState → Felt252
  state_note_leaf state =
      note_leaf p state.note_id (registration_commitment p state.secret_s) state.deposit_amount
        state.expiry_ts

  -- The note that `confirm_deposit` saves.
  unfoldable pub deposited_note : ClientConfig → Sc → Felt252 → ℕ → ℕ → ℕ → NoteState
  deposited_note config blinding secret note_id deposit_amount expiry =
      let commitment =
        balance_commitment p c deposit_amount (scalar_to_felt p c blinding)
          (note_leaf p note_id (registration_commitment p secret) deposit_amount expiry) in
      new_from_deposit config.protocol_version config.chain_id config.contract_address note_id
        secret deposit_amount expiry (to_hex (scalar_to_felt p c blinding)) commitment.x
        commitment.y

  unfoldable pub confirm_deposit :
      Sc → Bool → Felt252 → ℕ → ℕ → ℕ → Wallet → Result ClientError (Unit {0}) × Wallet
  unfolding deposited_note store_state
  confirm_deposit blinding saved secret note_id deposit_amount expiry w = elim w.state [
    | some state ↦ (err note_already_exists, w)
    | none ↦
        store_state saved (deposited_note w.config blinding secret note_id deposit_amount expiry) w
  ]

  unfoldable pub current_commitment : NoteState → Result ClientError (Felt252 × CurvePointWire)
  unfolding state_note_leaf parse_scalar ensure_stored_commitment
  current_commitment state = do
    current_blinding ← parse_scalar state.balance_blinding
    let commitment =
        balance_commitment p c state.current_balance current_blinding (state_note_leaf state)
    ensure_stored_commitment state commitment
    ok (current_blinding, commitment)

  -- The request that `prepare_request` proves and the journal entry for it, up to the write.
  unfoldable pub build_request :
      Wallet
      → RequestEnv Sc
      → Str
      → Felt252
      → Felt252
      → List Felt252
      → Result ClientError (ApiRequestV2 × PendingRequestJournal)
  unfolding has_pending_request solvency_bound siblings_array current_commitment
  build_request w env payload payload_hash active_root merkle_siblings = do
    ensure (not (has_pending_request w)) pending_request
    hashed ← ok_or (canonical_payload_hash keccak payload) counter_exhausted
    ensure (felt_eq hashed payload_hash)
        (invalid_response (codes "payload_hash does not match payload bytes"))
    state ← ok_or w.state no_active_note
    let bound =
        solvency_bound w.config.policy_enabled w.config.request_charge_cap
          w.config.policy_charge_cap
    ensure (leb bound state.current_balance) (insufficient_balance bound state.current_balance)
    siblings ← siblings_array merkle_siblings
    current ← current_commitment state
    let rerandomization = scalar_to_felt p c env.rerandomization
    anonymous ←
        map_err (λ e. proof_generation (curve_message e))
          (rerandomize p c (current.1) rerandomization)
    let null = nullifier p state.secret_s state.current_anchor
    request_context ←
        ok_or (canonical_request_context keccak env.client_request_id payload_hash)
          counter_exhausted
    let public_inputs : RequestPublicInputsV2 = record {
      protocol_version = state.protocol_version;
      chain_id = state.chain_id;
      contract_address = state.contract_address;
      active_root = active_root;
      state_signing_key_x = w.config.state_signing_key.x;
      state_signing_key_y = w.config.state_signing_key.y;
      request_time = env.now_seconds;
      solvency_bound = bound;
      request_nullifier = null;
      authorization_tag = authorization_tag p null request_context;
      anonymous_commitment_x = anonymous.x;
      anonymous_commitment_y = anonymous.y;
    }
    prove ← map_err proof_generation env.prover
    proof ← map_err proof_generation (
        prove public_inputs (record {
          secret = state.secret_s;
          request_context = request_context;
          note_id = state.note_id;
          deposit_amount = state.deposit_amount;
          expiry = state.expiry_ts;
          merkle_siblings = siblings;
          current_balance = state.current_balance;
          current_blinding = current.0;
          rerandomization = rerandomization;
          current_anchor = state.current_anchor;
          is_genesis = state.is_genesis;
          state_signature = state.state_signature;
        }))
    let request : ApiRequestV2 = record {
      client_request_id = env.client_request_id;
      payload = payload;
      payload_hash = payload_hash;
      public_inputs = public_inputs;
      proof = proof;
    }
    ok (
      request,
      record {
        exists = true;
        client_request_id = env.client_request_id;
        nullifier = null;
        payload_hash = payload_hash;
        user_rerandomization = rerandomization;
        created_at_ms = now_ms env.now_seconds;
        prepared_request = some request;
      },
    )

  unfoldable pub prepare_request :
      RequestEnv Sc
      → Str
      → Felt252
      → Felt252
      → List Felt252
      → Wallet
      → Result ClientError ApiRequestV2 × Wallet
  unfolding build_request
  prepare_request env payload payload_hash active_root merkle_siblings w =
      elim (build_request w env payload payload_hash active_root merkle_siblings) [
        | err e ↦ (err e, w)
        | ok built ↦
            let written = write env.journal_written (built.1) w.journal_file in
            ((written.0) >> ok (built.0), record w { journal_file = written.1 })
      ]
