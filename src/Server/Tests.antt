-- ===== src/Server/Tests.antt =====
-- The table of nullifiers at concrete inputs.
use zk_api.Prelude.{
  bytes_eq, ◌≡◌, refl, [], some, none, ok, err, arith, codes, true, ◌<◌, ◌≤◌, ◌-◌, ◌^◌, ◌⊎◌,
}
use zk_api.Felt.{to_hex, from_u64, from_be_bytes}
use zk_api.Felt.Bytes.{IsCanonical}
use zk_api.Signature.{XmssSignature}
use zk_api.Server.{
  replay, nullifier_used, reserved, finalized, clearance_reserved, TranscriptRecord,
}
use zk_api.Server.Store.{
  row_to_record, new_row, select_key, str_to_status, status_to_str, NullifierStore, SignatureJson,
  reserve, reserve_clearance, finalize, lookup_by_nullifier, u128_as_i64, i64_as_u128,
}
use zk_api.Server.Lifecycle.{reserve_once, start, later, finalizes, lookup_by_nullifier-History}
use zk_api.Server.Transcript.{IsStorable, lookup-finalize, i64_as_u128-u128_as_i64}

abbrev one_signature : XmssSignature
one_signature = record { epoch = 1; leaf_index = 2; wots_sig = []; auth_path = [] }

-- The text of the one signature that the tests use.
abbrev no_json : SignatureJson
no_json = record { to_string = λ s. []; from_str = λ s. some one_signature }

abbrev transcript : TranscriptRecord
transcript = record {
  nullifier = from_u64 42;
  status = reserved;
  client_request_id = none;
  payload_hash = none;
  charge_applied = some 900;
  response_code = some 200;
  response_payload = some (codes "ok");
  response_hash = some (from_u64 5);
  next_commitment_x = some (from_u64 6);
  next_commitment_y = some (from_u64 7);
  next_anchor = some (from_u64 8);
  blind_delta_srv = some (from_u64 9);
  next_state_sig_epoch = some 1;
  next_state_sig_root = some (from_u64 10);
  next_state_sig = some one_signature;
  policy_reason_code = none;
  policy_evidence_hash = none;
  proof_blob = none;
  request_inputs_json = none;
  created_at = 0;
  finalized_at = none;
}

abbrev reserved_store : NullifierStore
reserved_store = (reserve true 100 (from_u64 42) (codes "req-1") (from_u64 3) []).1

reserve_once_example :
    let s = (finalize no_json true 105 (from_u64 42) transcript reserved_store).1 in
    (reserve true 110 (from_u64 42) (codes "req-2") (from_u64 4) s ≡ (err replay, s))
    × (reserve_clearance true 110 (from_u64 42) s ≡ (err nullifier_used, s))
unfolding reserve
reserve_once_example =
    reserve_once no_json 100 110 (from_u64 42) (codes "req-1") (codes "req-2") (from_u64 3)
      (from_u64 4) [] ((finalize no_json true 105 (from_u64 42) transcript reserved_store).1) refl
      (later reserved_store _ start (finalizes true 105 (from_u64 42) transcript))

abbrev cleared_store : NullifierStore
cleared_store = (reserve_clearance true 100 (from_u64 42) []).1

abbrev cleared_record : TranscriptRecord
cleared_record =
    row_to_record no_json
      (new_row (to_hex (from_u64 42)) (status_to_str clearance_reserved) none none 100)

lookup_by_nullifier-History_example :
    lookup_by_nullifier no_json
      (from_u64 42)
      ((finalize no_json true 105 (from_u64 42) transcript cleared_store).1)
    ≡ some cleared_record
unfolding reserve_clearance lookup_by_nullifier select_key bytes_eq row_to_record new_row
    str_to_status status_to_str to_hex from_u64
lookup_by_nullifier-History_example =
    lookup_by_nullifier-History no_json (from_u64 42) cleared_store _ cleared_record refl
      (λ e. ground arith)
      (later cleared_store _ start (finalizes true 105 (from_u64 42) transcript))

storable : IsStorable no_json transcript
unfolding from_be_bytes from_u64
storable = record {
  charge = omega arith;
  response_hash = omega arith;
  next_commitment_x = omega arith;
  next_commitment_y = omega arith;
  next_anchor = omega arith;
  blind_delta_srv = omega arith;
  next_state_sig_root = omega arith;
  policy_evidence_hash = tt;
  json_back = λ s e. e;
}

small-IsCanonical : IsCanonical (from_u64 42) × IsCanonical (from_u64 3)
unfolding from_be_bytes from_u64
small-IsCanonical = (omega arith, omega arith)

lookup-finalize_example :
    let done = finalize no_json true 105 (from_u64 42) transcript reserved_store in
    (done.0 ≡ ok tt)
    × (lookup_by_nullifier no_json (from_u64 42) (done.1)
        ≡ some (record transcript {
          nullifier = from_u64 42;
          status = finalized;
          client_request_id = some (codes "req-1");
          payload_hash = some (from_u64 3);
          created_at = 100;
          finalized_at = some 105;
        }))
unfolding reserve
lookup-finalize_example =
    lookup-finalize no_json 100 105 (from_u64 42) (from_u64 3) (codes "req-1") transcript []
      (small-IsCanonical.0) (small-IsCanonical.1) storable refl

i64_as_u128-u128_as_i64_example :
    (2 ^ 63 < 2 ^ 63 → i64_as_u128 (u128_as_i64 (2 ^ 63)) ≡ 2 ^ 63)
    × (i64_as_u128 (u128_as_i64 (2 ^ 63)) ≡ 2 ^ 63
        → (2 ^ 63 < 2 ^ 63) ⊎ (2 ^ 128 - 2 ^ 63 ≤ 2 ^ 63))
i64_as_u128-u128_as_i64_example = i64_as_u128-u128_as_i64 (2 ^ 63) (omega arith)
