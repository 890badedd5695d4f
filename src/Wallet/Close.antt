-- ===== src/Wallet/Close.antt =====
-- rust/crates/zkapi-client/src/wallet_v2.rs: the flows around a request, recovery, closing a note
-- and withdrawing. What the server replies is an argument, as it arrives over HTTP.
use zk_api.Prelude.{
  ℕ, Bool, true, false, Option, none, some, List, ◌++◌, Str, codes, bytes_eq, Result, ok, err,
  ◌>>=◌, ◌>>◌, ensure, ok_or, map_err, if◌then◌else◌,
}
use zk_api.Felt.{Felt252}
use zk_api.Core.{Poseidon, nullifier, clearance_message, withdrawal_tag}
use zk_api.Curve.{SchnorrSignature, BabyJubJub, verify_signature}
use zk_api.Inputs.{WithdrawalPublicInputsV2, destination_field}
use zk_api.Wallet.{
  ClientError, server_error, invalid_response, stale_root, no_active_note, proof_generation, io,
  Groth16ProofWire, ApiRequestV2, RequestResponseV2, missing, read, Wallet, clear_pending_request,
}
use zk_api.Wallet.Request.{
  RequestEnv, failed, curve_message, siblings_array, parse_scalar, prepare_request,
}
use zk_api.Wallet.Response.{complete_pending_response}

-- The fields that the wallet reads of an error and of a recovery.
pub record ErrorResponse : Type 0 where
  pub error_code : Str
  pub error_message : Str

-- The reply to a posted request: the transport failed, the status is not a success (with the
-- status, the body, and the error that the body parses to, if any), or the body of a success.
pub data HttpReply : Type 0 where
  send_failed : Str → HttpReply
  error_status : Str → Str → Option ErrorResponse → HttpReply
  success : Result Str RequestResponseV2 → HttpReply

pub record RecoveryResponseV2 : Type 0 where
  pub nullifier_status : Str
  pub request_response : Option RequestResponseV2

pub data RecoveryReply : Type 0 where
  recovery_send_failed : Str → RecoveryReply
  recovery_not_found : RecoveryReply
  recovery_error_status : Str → RecoveryReply
  recovery_body : Result Str RecoveryResponseV2 → RecoveryReply

pub record WithdrawalWitnessData : Type 0 where
  pub secret : Felt252
  pub deposit_amount : ℕ
  pub expiry : ℕ
  pub merkle_siblings : List Felt252
  pub final_blinding : Felt252
  pub current_anchor : Felt252
  pub is_genesis : Bool
  pub state_signature : Option SchnorrSignature
  pub clearance_signature : Option SchnorrSignature

abbrev pub WithdrawalProver : Type 0
WithdrawalProver = WithdrawalPublicInputsV2 → WithdrawalWitnessData → Result Str Groth16ProofWire

-- `archive_note`; the first flag says that the copy is saved and the active file removed.
unfoldable pub archive_note : Bool → Bool → Wallet → Result ClientError (Unit {0}) × Wallet
archive_note archived cleared w = elim w.state [
  | none ↦ clear_pending_request cleared w
  | some state ↦ elim archived [
    | false ↦ (err io, w)
    | true ↦ clear_pending_request cleared (record w { state = none; note_file = missing })
  ]
]

module _ {Fr Sc Pt : Type 0} (p : Poseidon Fr) (c : BabyJubJub Fr Sc Pt)
    (keccak : List ℕ → List ℕ) where
  -- What `request_flow` does with the reply, from the wallet that `prepare_request` leaves.
  unfoldable pub handle_reply :
      Bool → Bool → HttpReply → Wallet → Result ClientError RequestResponseV2 × Wallet
  unfolding clear_pending_request complete_pending_response
  handle_reply saved cleared (send_failed message) w = (err (server_error message), w)
  handle_reply saved cleared (error_status status body none) w =
      (err (server_error (codes "HTTP " ++ status ++ codes ": " ++ body)), w)
  handle_reply saved cleared (error_status status body (some error)) w =
      let removed = clear_pending_request cleared w in
      if bytes_eq error.error_code (codes "stale_root")
      then ((removed.0) >> err stale_root, removed.1)
      else (err (server_error (error.error_code ++ codes ": " ++ error.error_message)), w)
  handle_reply saved cleared (success (err message)) w = (err (invalid_response message), w)
  handle_reply saved cleared (success (ok response)) w =
      let completed = complete_pending_response p c keccak saved cleared response w in
      ((completed.0) >> ok response, completed.1)

  unfoldable pub request_flow :
      RequestEnv Sc
      → (ApiRequestV2 → HttpReply)
      → Bool
      → Bool
      → Str
      → Felt252
      → Felt252
      → List Felt252
      → Wallet
      → Result ClientError RequestResponseV2 × Wallet
  unfolding prepare_request handle_reply
  request_flow env reply saved cleared payload payload_hash active_root merkle_siblings w =
      let prepared =
        prepare_request p c keccak env payload payload_hash active_root merkle_siblings w in
      elim (prepared.0) [
        | err e ↦ (err e, prepared.1)
        | ok request ↦ handle_reply saved cleared (reply request) (prepared.1)
      ]

  unfoldable pub handle_recovery :
      Bool → Bool → RecoveryReply → Wallet → Result ClientError (Option RequestResponseV2) × Wallet
  unfolding complete_pending_response
  handle_recovery saved cleared (recovery_send_failed message) w = (err (server_error message), w)
  handle_recovery saved cleared recovery_not_found w = (ok none, w)
  handle_recovery saved cleared (recovery_error_status message) w = (err (server_error message), w)
  handle_recovery saved cleared (recovery_body (err message)) w =
      (err (invalid_response message), w)
  handle_recovery saved cleared (recovery_body (ok recovery)) w = elim recovery.request_response [
    | none ↦ (ok none, w)
    | some response ↦
        let completed = complete_pending_response p c keccak saved cleared response w in
        ((completed.0) >> ok (some response), completed.1)
  ]

  unfoldable pub recover :
      (Str → RecoveryReply)
      → Bool
      → Bool
      → Wallet
      → Result ClientError (Option RequestResponseV2) × Wallet
  unfolding read handle_recovery
  recover reply saved cleared w = elim (read w.journal_file) [
    | err e ↦ (err e, w)
    | ok found ↦ elim found [
      | none ↦ (ok none, w)
      | some journal ↦ handle_recovery saved cleared (reply journal.client_request_id) w
    ]
  ]

  unfoldable pub build_withdrawal :
      Result Str WithdrawalProver
      → Wallet
      → List ℕ
      → Felt252
      → List Felt252
      → Bool
      → Option SchnorrSignature
      → Result ClientError (WithdrawalPublicInputsV2 × Groth16ProofWire)
  unfolding siblings_array parse_scalar destination_field
  build_withdrawal prover w destination active_root merkle_siblings has_clearance clearance = do
    state ← ok_or w.state no_active_note
    let null = nullifier p state.secret_s state.current_anchor
    let public_inputs : WithdrawalPublicInputsV2 = record {
      protocol_version = state.protocol_version;
      chain_id = state.chain_id;
      contract_address = state.contract_address;
      active_root = active_root;
      state_signing_key_x = w.config.state_signing_key.x;
      state_signing_key_y = w.config.state_signing_key.y;
      clearance_signing_key_x = w.config.clearance_signing_key.x;
      clearance_signing_key_y = w.config.clearance_signing_key.y;
      note_id = state.note_id;
      final_balance = state.current_balance;
      destination = destination;
      withdrawal_nullifier = null;
      has_clearance = has_clearance;
      withdrawal_tag =
          withdrawal_tag p null (destination_field destination) state.current_balance has_clearance;
    }
    prove ← map_err proof_generation prover
    siblings ← siblings_array merkle_siblings
    final_blinding ← parse_scalar state.balance_blinding
    proof ← map_err proof_generation (
        prove public_inputs (record {
          secret = state.secret_s;
          deposit_amount = state.deposit_amount;
          expiry = state.expiry_ts;
          merkle_siblings = siblings;
          final_blinding = final_blinding;
          current_anchor = state.current_anchor;
          is_genesis = state.is_genesis;
          state_signature = state.state_signature;
          clearance_signature = clearance;
        }))
    ok (public_inputs, proof)

  -- The clearance is the server's answer to `request_clearance` for the nullifier it is asked.
  unfoldable pub withdrawal_mutual_close :
      (Felt252 → Result ClientError SchnorrSignature)
      → Result Str WithdrawalProver
      → Wallet
      → List ℕ
      → Felt252
      → List Felt252
      → Result ClientError (WithdrawalPublicInputsV2 × Groth16ProofWire)
  unfolding build_withdrawal
  withdrawal_mutual_close request_clearance prover w destination active_root merkle_siblings = do
    state ← ok_or w.state no_active_note
    let null = nullifier p state.secret_s state.current_anchor
    signature ← request_clearance null
    let message =
        clearance_message p state.protocol_version state.chain_id state.contract_address null
    verified ←
        map_err (λ e. failed (curve_message e))
          (verify_signature p c w.config.clearance_signing_key message signature)
    ensure verified (failed (codes "invalid clearance signature"))
    build_withdrawal prover w destination active_root merkle_siblings true (some signature)

  unfoldable pub withdrawal_escape_hatch :
      Result Str WithdrawalProver
      → Wallet
      → List ℕ
      → Felt252
      → List Felt252
      → Result ClientError (WithdrawalPublicInputsV2 × Groth16ProofWire)
  unfolding build_withdrawal
  withdrawal_escape_hatch prover w destination active_root merkle_siblings =
      build_withdrawal prover w destination active_root merkle_siblings false none
