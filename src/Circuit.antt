-- ===== src/Circuit.antt =====
-- rust/crates/zkapi-proof/src/groth16.rs: the statements of the request and withdrawal proofs. A
-- circuit is evaluated at the values that it allocates: `request_constraints` and
-- `withdrawal_constraints` say whether every constraint that `generate_constraints` enforces holds
-- there. The gadgets of `ark_r1cs_std` compute what their native operations do; the constraints that
-- tie a machine word to its own field element hold at every value and are left out.
pub mod Gadgets
pub mod Constraints
pub mod Native
pub mod Equal
pub mod Sound
pub mod Wire
pub mod Verified
mod Tests
use zk_api.Prelude.{ℕ, Bool, List}
use zk_api.Curve.{StateSignature}

-- The field that the constraints are over: `from` on machine integers, the two constants and `==`.
pub record CircuitField (Fr : Type 0) : Type 0 where
  pub from_uint : ℕ → Fr
  pub zero : Fr
  pub one : Fr
  pub field_eq : Fr → Fr → Bool

pub record RequestPublic (Fr Pt : Type 0) : Type 0 where
  pub protocol_version : ℕ
  pub chain_id : ℕ
  pub contract_address : Fr
  pub active_root : Fr
  pub state_signing_key : Pt
  pub request_time : ℕ
  pub solvency_bound : ℕ
  pub request_nullifier : Fr
  pub authorization_tag : Fr
  pub anonymous_commitment : Pt

pub record RequestWitness (Fr Sc Pt : Type 0) : Type 0 where
  pub secret : Fr
  pub request_context : Fr
  pub note_id : ℕ
  pub deposit_amount : ℕ
  pub expiry : ℕ
  pub merkle_siblings : List Fr
  pub current_balance : ℕ
  pub current_blinding : Sc
  pub rerandomization : Sc
  pub current_anchor : Fr
  pub is_genesis : Bool
  pub state_signature : StateSignature Sc Pt

pub record WithdrawalPublic (Fr Pt : Type 0) : Type 0 where
  pub protocol_version : ℕ
  pub chain_id : ℕ
  pub contract_address : Fr
  pub active_root : Fr
  pub state_signing_key : Pt
  pub clearance_signing_key : Pt
  pub note_id : ℕ
  pub final_balance : ℕ
  pub destination : Fr
  pub withdrawal_nullifier : Fr
  pub has_clearance : Bool
  pub withdrawal_tag : Fr

pub record WithdrawalWitness (Fr Sc Pt : Type 0) : Type 0 where
  pub secret : Fr
  pub deposit_amount : ℕ
  pub expiry : ℕ
  pub merkle_siblings : List Fr
  pub final_blinding : Sc
  pub current_anchor : Fr
  pub is_genesis : Bool
  pub state_signature : StateSignature Sc Pt
  pub clearance_signature : StateSignature Sc Pt
