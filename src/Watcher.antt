-- ===== src/Watcher.antt =====
-- rust/crates/zkapi-server/src/watcher.rs: the payload of a challenge from the archived transcripts.
pub mod Archive
mod Tests
use zk_api.Prelude.{
  ℕ, List, Bool, true, false, Option, none, some, Str, codes, Result, err, ok, ◌>>=◌, ◌>>◌, ensure,
  ok_or,
}
use zk_api.Felt.{Felt252, felt_eq}
use zk_api.Inputs.{RequestPublicInputs}
use zk_api.Server.{TranscriptRecord, NullifierStatus, reserved, finalized, clearance_reserved}
use zk_api.Server.Store.{NullifierStore, lookup_by_nullifier}
use zk_api.Processor.{Backend}

pub record ChallengeAction : Type 0 where
  pub note_id : ℕ
  pub request_inputs : RequestPublicInputs
  pub proof_artifact : List ℕ
  pub siblings : List Felt252

abbrev pub if_finalized : TranscriptRecord → NullifierStatus → Option TranscriptRecord
if_finalized t finalized = some t
if_finalized t reserved = none
if_finalized t clearance_reserved = none

unfoldable pub finalized_transcript : Backend → Felt252 → NullifierStore → Option TranscriptRecord
finalized_transcript b nullifier store = elim (lookup_by_nullifier b.json nullifier store) [
  | none ↦ none
  | some t ↦ if_finalized t t.status
]

-- The errors are the texts of the source.
unfoldable pub build_challenge_action :
    Backend → ℕ → Felt252 → List Felt252 → NullifierStore → Result Str ChallengeAction
unfolding finalized_transcript
build_challenge_action b note_id nullifier siblings store = do
  t ← ok_or (finalized_transcript b nullifier store) (codes "no finalized transcript for nullifier")
  text ← ok_or t.request_inputs_json (codes "missing archived request inputs")
  inputs ← ok_or (b.inputs_from_string text) (codes "invalid archived request inputs")
  ensure (felt_eq inputs.request_nullifier nullifier) (codes "archived request nullifier mismatch")
  proof ← ok_or t.proof_blob (codes "missing archived proof blob")
  ok (record {
    note_id = note_id;
    request_inputs = inputs;
    proof_artifact = proof;
    siblings = siblings;
  })
