-- ===== src/Wallet.antt =====
-- rust/crates/zkapi-client: the v2 wallet's data, note_state.rs, journal.rs, config.rs and error.rs,
-- with the wire types of zkapi-types/src/wire.rs. A file is `Stored`: missing, unreadable, or
-- holding a value. Writing goes to a temporary file that is then renamed, so a write that fails
-- leaves the old content; whether the disk accepts a write is an argument of the operation.
pub mod Request
pub mod Response
pub mod Close
pub mod Invariant
pub mod Balance
pub mod Steps
pub mod Run
pub mod Settled
pub mod Pending
pub mod Crash
mod Tests
use zk_api.Prelude.{
  ℕ, ◌-◌, leb, Bool, true, false, Option, none, some, Str, Result, ok, err, if◌then◌else◌,
}
use zk_api.Felt.{Felt252, felt_one}
use zk_api.Curve.{CurvePointWire, SchnorrSignature}
use zk_api.Inputs.{RequestPublicInputsV2}

-- `counter_exhausted` is the panic of `hash_bytes_to_felt`, after which nothing runs.
pub data ClientError : Type 0 where
  no_active_note : ClientError
  note_already_exists : ClientError
  insufficient_balance : ℕ → ℕ → ClientError
  stale_root : ClientError
  server_error : Str → ClientError
  invalid_response : Str → ClientError
  pending_request : ClientError
  io : ClientError
  serialization : Str → ClientError
  proof_generation : Str → ClientError
  verification_failed : Str → ClientError
  counter_exhausted : ClientError

-- The fields that the modelled operations read: the server URL, the state directory, the retired
-- epoch roots and the proof mode are left out.
pub record ClientConfig : Type 0 where
  pub protocol_version : ℕ
  pub chain_id : ℕ
  pub contract_address : Felt252
  pub request_charge_cap : ℕ
  pub policy_charge_cap : ℕ
  pub policy_enabled : Bool
  pub state_signing_key : CurvePointWire
  pub clearance_signing_key : CurvePointWire

pub record NoteState : Type 0 where
  pub protocol_version : ℕ
  pub chain_id : ℕ
  pub contract_address : Felt252
  pub note_id : ℕ
  pub secret_s : Felt252
  pub deposit_amount : ℕ
  pub expiry_ts : ℕ
  pub current_balance : ℕ
  pub balance_blinding : Str
  pub current_commitment_x : Felt252
  pub current_commitment_y : Felt252
  pub current_anchor : Felt252
  pub is_genesis : Bool
  pub state_signature : Option SchnorrSignature

unfoldable pub new_from_deposit :
    ℕ → ℕ → Felt252 → ℕ → Felt252 → ℕ → ℕ → Str → Felt252 → Felt252 → NoteState
new_from_deposit protocol_version chain_id contract_address note_id secret_s deposit_amount
      expiry_ts balance_blinding commitment_x commitment_y =
    record {
      protocol_version = protocol_version;
      chain_id = chain_id;
      contract_address = contract_address;
      note_id = note_id;
      secret_s = secret_s;
      deposit_amount = deposit_amount;
      expiry_ts = expiry_ts;
      current_balance = deposit_amount;
      balance_blinding = balance_blinding;
      current_commitment_x = commitment_x;
      current_commitment_y = commitment_y;
      current_anchor = felt_one;
      is_genesis = true;
      state_signature = none;
    }

unfoldable pub solvency_bound : Bool → ℕ → ℕ → ℕ
solvency_bound policy_enabled charge_cap policy_cap =
    if policy_enabled then policy_cap else charge_cap

pub data ProofBackendWire : Type 0 where
  stwo_cairo : ProofBackendWire
  groth16_bn254 : ProofBackendWire

pub record Groth16ProofWire : Type 0 where
  pub backend : ProofBackendWire
  pub proof : Str

pub record ApiRequestV2 : Type 0 where
  pub client_request_id : Str
  pub payload : Str
  pub payload_hash : Felt252
  pub public_inputs : RequestPublicInputsV2
  pub proof : Groth16ProofWire

pub record RequestResponseV2 : Type 0 where
  pub status : Str
  pub client_request_id : Str
  pub request_nullifier : Felt252
  pub response_code : ℕ
  pub response_payload : Str
  pub response_hash : Felt252
  pub charge_applied : ℕ
  pub next_commitment : CurvePointWire
  pub next_anchor : Felt252
  pub blind_delta_srv : Felt252
  pub next_state_signature : SchnorrSignature
  pub policy_reason_code : Option ℕ
  pub policy_evidence_hash : Option Felt252

pub record PendingRequestJournal : Type 0 where
  pub exists : Bool
  pub client_request_id : Str
  pub nullifier : Felt252
  pub payload_hash : Felt252
  pub user_rerandomization : Felt252
  pub created_at_ms : ℕ
  pub prepared_request : Option ApiRequestV2

pub data Stored (A : Type 0) : Type 0 where
  missing : Stored A
  unreadable : ClientError → Stored A
  holds : A → Stored A

-- `NoteState::save` and `PendingRequestJournal::write`.
abbrev pub write : {A : Type 0} → Bool → A → Stored A → Result ClientError (Unit {0}) × Stored A
write true a old = (ok tt, holds a)
write false a old = (err io, old)

-- `PendingRequestJournal::clear`, and the removal in `NoteState::archive`.
abbrev pub clear : {A : Type 0} → Bool → Stored A → Result ClientError (Unit {0}) × Stored A
clear removed missing = (ok tt, missing)
clear true (unreadable e) = (ok tt, missing)
clear true (holds a) = (ok tt, missing)
clear false (unreadable e) = (err io, unreadable e)
clear false (holds a) = (err io, holds a)

-- `PendingRequestJournal::read`.
unfoldable pub read :
    Stored PendingRequestJournal → Result ClientError (Option PendingRequestJournal)
read missing = ok none
read (unreadable e) = err e
read (holds journal) = if journal.exists then ok (some journal) else ok none

-- `NoteState::load`, and that the file is absent.
unfoldable pub load : Stored NoteState → Result ClientError (Option NoteState)
load missing = ok none
load (unreadable e) = err e
load (holds state) = ok (some state)

-- `note_file` and `journal_file` are what the disk holds at the wallet's two paths.
pub record Wallet : Type 0 where
  pub config : ClientConfig
  pub state : Option NoteState
  pub note_file : Stored NoteState
  pub journal_file : Stored PendingRequestJournal

-- `Wallet::new`, on the disk as it is found; the flag says that the directory can be made.
unfoldable pub open_wallet :
    Bool
    → ClientConfig
    → Stored NoteState
    → Stored PendingRequestJournal
    → Result ClientError Wallet
unfolding load
open_wallet directory config note_file journal_file = elim directory [
  | false ↦ err io
  | true ↦ elim (load note_file) [
    | err e ↦ err e
    | ok state ↦ ok (record {
      config = config;
      state = state;
      note_file = note_file;
      journal_file = journal_file;
    })
  ]
]

abbrev is_some_ok : Result ClientError (Option PendingRequestJournal) → Bool
is_some_ok (ok (some j)) = true
is_some_ok (ok none) = false
is_some_ok (err e) = false

unfoldable pub has_pending_request : Wallet → Bool
unfolding read
has_pending_request w = is_some_ok (read w.journal_file)

-- `next.save(..)?; self.state = Some(next)`.
unfoldable pub store_state : Bool → NoteState → Wallet → Result ClientError (Unit {0}) × Wallet
store_state true next w = (ok tt, record w { state = some next; note_file = holds next })
store_state false next w = (err io, w)

-- `clear_pending_request`.
unfoldable pub clear_pending_request : Bool → Wallet → Result ClientError (Unit {0}) × Wallet
clear_pending_request cleared w =
    let removed = clear cleared w.journal_file in (removed.0, record w { journal_file = removed.1 })

unfoldable pub applied_cap : ClientConfig → ℕ
applied_cap config =
    if config.policy_enabled then config.policy_charge_cap else config.request_charge_cap

abbrev pub checked_sub : ℕ → ℕ → Option ℕ
checked_sub a b = if leb b a then some (a - b) else none
