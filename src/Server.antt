-- ===== src/Server.antt =====
-- rust/crates/zkapi-server/src/error.rs and nullifier_store.rs: the table of nullifiers with their
-- transcripts. The table is the list of its rows in the order of insertion, and each SQL statement
-- is written out on it. An INTEGER column holds the 64 bits of its number. JSON is `serde_json`'s:
-- its two functions are a parameter. The flag of an operation says that SQLite can be reached.
pub mod Store
pub mod Lifecycle
pub mod Transcript
mod Tests
use zk_api.Prelude.{ℕ, Bool, true, false, List, Str, codes, Option}
use zk_api.Felt.{Felt252}
use zk_api.Signature.{XmssSignature}

pub data ServerError : Type 0 where
  invalid_proof : Str → ServerError
  stale_root : Str → ServerError
  replay : ServerError
  note_expired : ServerError
  internal : Str → ServerError
  capacity_exhausted : ServerError
  nullifier_used : ServerError
  database : Str → ServerError
  invalid_request : Str → ServerError
  protocol_mismatch : Str → ServerError

unfoldable pub error_code : ServerError → Str
error_code (invalid_proof m) = codes "INVALID_PROOF"
error_code (stale_root m) = codes "STALE_ROOT"
error_code replay = codes "REPLAY"
error_code note_expired = codes "NOTE_EXPIRED"
error_code (internal m) = codes "INTERNAL"
error_code capacity_exhausted = codes "CAPACITY_EXHAUSTED"
error_code nullifier_used = codes "NULLIFIER_USED"
error_code (database m) = codes "DATABASE_ERROR"
error_code (invalid_request m) = codes "INVALID_REQUEST"
error_code (protocol_mismatch m) = codes "PROTOCOL_MISMATCH"

unfoldable pub is_retriable : ServerError → Bool
is_retriable (stale_root m) = true
is_retriable (internal m) = true
is_retriable (database m) = true
is_retriable (invalid_proof m) = false
is_retriable replay = false
is_retriable note_expired = false
is_retriable capacity_exhausted = false
is_retriable nullifier_used = false
is_retriable (invalid_request m) = false
is_retriable (protocol_mismatch m) = false

pub data NullifierStatus : Type 0 where
  reserved : NullifierStatus
  finalized : NullifierStatus
  clearance_reserved : NullifierStatus

pub record TranscriptRecord : Type 0 where
  pub nullifier : Felt252
  pub status : NullifierStatus
  pub client_request_id : Option Str
  pub payload_hash : Option Felt252
  pub charge_applied : Option ℕ
  pub response_code : Option ℕ
  pub response_payload : Option Str
  pub response_hash : Option Felt252
  pub next_commitment_x : Option Felt252
  pub next_commitment_y : Option Felt252
  pub next_anchor : Option Felt252
  pub blind_delta_srv : Option Felt252
  pub next_state_sig_epoch : Option ℕ
  pub next_state_sig_root : Option Felt252
  pub next_state_sig : Option XmssSignature
  pub policy_reason_code : Option ℕ
  pub policy_evidence_hash : Option Felt252
  pub proof_blob : Option (List ℕ)
  pub request_inputs_json : Option Str
  pub created_at : ℕ
  pub finalized_at : Option ℕ
