-- ===== src/Processor/Responses.antt =====
-- rust/crates/zkapi-server/src/processor.rs: responses from stored transcripts, and recovery.
use zk_api.Prelude.{Option, none, some, Str, [], codes}
use mathlib.Core.Option
use zk_api.Felt.{Felt252, felt_zero}
use zk_api.Server.{TranscriptRecord, NullifierStatus, reserved, finalized, clearance_reserved}
use zk_api.Server.Store.{lookup_by_nullifier, lookup_by_client_id}
use zk_api.Processor.{Backend, RequestProcessor, RequestResponse, RecoveryResponse, empty_xmss_sig}

unfoldable pub build_response_from_record : TranscriptRecord → Str → RequestResponse
unfolding empty_xmss_sig
build_response_from_record r client_request_id = record {
  status = codes "ok";
  client_request_id = client_request_id;
  request_nullifier = r.nullifier;
  response_code = Option.get_or r.response_code 200;
  response_payload = Option.get_or r.response_payload [];
  response_hash = Option.get_or r.response_hash felt_zero;
  charge_applied = Option.get_or r.charge_applied 0;
  next_commitment = record {
    x = Option.get_or r.next_commitment_x felt_zero;
    y = Option.get_or r.next_commitment_y felt_zero;
  };
  next_anchor = Option.get_or r.next_anchor felt_zero;
  blind_delta_srv = Option.get_or r.blind_delta_srv felt_zero;
  next_state_sig_epoch = Option.get_or r.next_state_sig_epoch 0;
  next_state_sig_root = Option.get_or r.next_state_sig_root felt_zero;
  next_state_sig = Option.get_or r.next_state_sig empty_xmss_sig;
  policy_reason_code = r.policy_reason_code;
  policy_evidence_hash = r.policy_evidence_hash;
}

unfoldable pub status_text : NullifierStatus → Str
status_text reserved = codes "reserved"
status_text finalized = codes "finalized"
status_text clearance_reserved = codes "clearance_reserved"

unfoldable pub finalized_response : NullifierStatus → TranscriptRecord → Option RequestResponse
unfolding build_response_from_record
finalized_response finalized r =
    some (build_response_from_record r (Option.get_or r.client_request_id []))
finalized_response reserved r = none
finalized_response clearance_reserved r = none

unfoldable pub build_recovery_response : TranscriptRecord → RecoveryResponse
unfolding status_text finalized_response
build_recovery_response r = record {
  status = codes "ok";
  nullifier_status = status_text r.status;
  request_response = finalized_response r.status r;
}

unfoldable pub recovery_of : Option TranscriptRecord → RecoveryResponse
unfolding build_recovery_response
recovery_of (some r) = build_recovery_response r
recovery_of none = record {
  status = codes "not_found";
  nullifier_status = codes "unknown";
  request_response = none;
}

module _ {F : Type 0} (b : Backend) where
  unfoldable pub recover_by_nullifier : Felt252 → RequestProcessor F → RecoveryResponse
  unfolding recovery_of
  recover_by_nullifier nullifier w = recovery_of (lookup_by_nullifier b.json nullifier w.store)

  unfoldable pub recover_by_client_id : Str → RequestProcessor F → RecoveryResponse
  unfolding recovery_of
  recover_by_client_id client_request_id w =
      recovery_of (lookup_by_client_id b.json client_request_id w.store)
