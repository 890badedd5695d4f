-- ===== src/Processor.antt =====
-- rust/crates/zkapi-server/src/processor.rs, config.rs and provider.rs: the first protocol's request
-- processor, over the table of nullifiers, the signers and an API provider. A call takes the
-- processor and what the world answers during it, and returns its result with the processor it
-- leaves, on errors and panics too. Calls follow one another; the lock of the signer stays poisoned
-- after a panic. Proofs are verified in the mode `StwoScarb`; the messages of errors leave out the
-- values that they print.
pub mod Checks
pub mod Responses
pub mod States
pub mod Handlers
pub mod Retry
pub mod Served
pub mod Charged
pub mod Poisoned
pub mod Clearance
pub mod Answers
pub mod Toy
mod Tests
use zk_api.Prelude.{ℕ, List, Bool, Option, none, some, Str, codes, replicate, Result, err, ok}
use zk_api.Felt.{Felt252, felt_zero}
use zk_api.Curve.{CurvePointWire}
use zk_api.Signature.{XmssSignature, xmss_tree_height}
use zk_api.Inputs.{RequestPublicInputs}
use zk_api.Wots.{wots_len}
use zk_api.Wallet.{ProofBackendWire}
use zk_api.Server.{ServerError}
use zk_api.Server.Store.{NullifierStore, SignatureJson}
use zk_api.Signer.{ServerSigner}
use zk_api.Signer.Table.{SignerStateStore}

-- An error that the call returns, or a panic that ends its thread.
pub data Fault : Type 0 where
  fails : ServerError → Fault
  panics : Fault

pub record EpochRoots : Type 0 where
  pub epoch : ℕ
  pub state_root : Felt252
  pub clear_root : Felt252

-- The fields that requests read.
pub record ServerConfig : Type 0 where
  pub protocol_version : ℕ
  pub chain_id : ℕ
  pub contract_address : Felt252
  pub request_charge_cap : ℕ
  pub policy_charge_cap : ℕ
  pub policy_enabled : Bool
  pub trusted_epoch_roots : List EpochRoots

pub record ProofArtifactWire : Type 0 where
  pub backend : ProofBackendWire
  pub public_output_hash : Felt252
  pub proof : Str

pub record ApiRequest : Type 0 where
  pub client_request_id : Str
  pub payload : Str
  pub payload_hash : Felt252
  pub public_inputs : RequestPublicInputs
  pub proof : ProofArtifactWire

pub record RequestResponse : Type 0 where
  pub status : Str
  pub client_request_id : Str
  pub request_nullifier : Felt252
  pub response_code : ℕ
  pub response_payload : Str
  pub response_hash : Felt252
  pub charge_applied : ℕ
  pub next_commitment : CurvePointWire
  pub next_anchor : Felt252
  pub blind_delta_srv : Felt252
  pub next_state_sig_epoch : ℕ
  pub next_state_sig_root : Felt252
  pub next_state_sig : XmssSignature
  pub policy_reason_code : Option ℕ
  pub policy_evidence_hash : Option Felt252

pub record ClearanceResponse : Type 0 where
  pub status : Str
  pub withdrawal_nullifier : Felt252
  pub clear_sig_epoch : ℕ
  pub clear_sig_root : Felt252
  pub clear_sig : XmssSignature

pub record RecoveryResponse : Type 0 where
  pub status : Str
  pub nullifier_status : Str
  pub request_response : Option RequestResponse

pub record ProviderResponse : Type 0 where
  pub status_code : ℕ
  pub payload : Str
  pub charge_applied : ℕ
  pub policy_reason_code : Option ℕ
  pub policy_evidence_hash : Option Felt252

-- Keccak-256, the texts of `serde_json`, base64 and the verifier of proof artifacts.
pub record Backend : Type 0 where
  pub keccak : List ℕ → List ℕ
  pub json : SignatureJson
  pub inputs_to_string : RequestPublicInputs → Option Str
  pub inputs_from_string : Str → Option RequestPublicInputs
  pub decode_base64 : Str → Option (List ℕ)
  pub verify_artifact : Felt252 → List ℕ → Bool

-- What the world answers during one call: the clock before and after the provider's work, whether
-- the two databases serve each use, and the provider.
pub record Env : Type 0 where
  pub now : ℕ
  pub finalized_at : ℕ
  pub reserve_served : Bool
  pub finalize_served : Bool
  pub signer_served : Bool
  pub execute : Str → Str → Felt252 → Result ServerError ProviderResponse

-- The processor with the rows that its two databases hold, whether a panic has poisoned the
-- signer's lock, and the requests that have been passed to the provider, the last one first.
pub record RequestProcessor (F : Type 0) : Type 0 where
  pub config : ServerConfig
  pub store : NullifierStore
  pub signer : ServerSigner F
  pub table : SignerStateStore
  pub poisoned : Bool
  pub current_root : Felt252
  pub provider_calls : List Str

unfoldable pub update_root : {F : Type 0} → Felt252 → RequestProcessor F → RequestProcessor F
update_root new_root w = record w { current_root = new_root }

unfoldable pub empty_xmss_sig : XmssSignature
empty_xmss_sig = record {
  epoch = 0;
  leaf_index = 0;
  wots_sig = replicate wots_len felt_zero;
  auth_path = replicate xmss_tree_height felt_zero;
}
