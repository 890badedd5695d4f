-- ===== src/Server/Store.antt =====
-- rust/crates/zkapi-server/src/nullifier_store.rs: the statements on the table of nullifiers. The
-- first argument of a statement that writes says that the lock, the connection and the disk serve
-- it; the message of the error otherwise leaves out SQLite's own text. Reads are of a table that
-- answers.
use zk_api.Prelude.{
  ℕ, ◌+◌, ◌-◌, ◌%◌, ◌^◌, Bool, true, false, Option, none, some, List, [], ◌∷◌, ◌++◌, Str, codes,
  ltb, bytes_eq, Result, ok, err, if◌then◌else◌, ◌&&◌, map,
}
use zk_api.Felt.{Felt252, felt_zero, to_hex, from_hex}
use zk_api.Signature.{XmssSignature}
use zk_api.Server.{
  ServerError, replay, nullifier_used, database, internal, NullifierStatus, reserved, finalized,
  clearance_reserved, TranscriptRecord,
}

unfoldable pub status_to_str : NullifierStatus → Str
status_to_str reserved = codes "Reserved"
status_to_str finalized = codes "Finalized"
status_to_str clearance_reserved = codes "ClearanceReserved"

unfoldable pub str_to_status : Str → NullifierStatus
str_to_status s =
    if bytes_eq s (codes "Reserved")
    then reserved
    else if bytes_eq s (codes "Finalized")
    then finalized
    else if bytes_eq s (codes "ClearanceReserved")
    then clearance_reserved
    else reserved

pub record Row : Type 0 where
  pub nullifier : Str
  pub status : Str
  pub client_request_id : Option Str
  pub payload_hash : Option Str
  pub charge_applied : Option ℕ
  pub response_code : Option ℕ
  pub response_payload : Option Str
  pub response_hash : Option Str
  pub next_commitment_x : Option Str
  pub next_commitment_y : Option Str
  pub next_anchor : Option Str
  pub blind_delta_srv : Option Str
  pub next_state_sig_epoch : Option ℕ
  pub next_state_sig_root : Option Str
  pub next_state_sig_json : Option Str
  pub policy_reason_code : Option ℕ
  pub policy_evidence_hash : Option Str
  pub proof_blob : Option (List ℕ)
  pub request_inputs_json : Option Str
  pub created_at : ℕ
  pub finalized_at : Option ℕ

abbrev pub NullifierStore : Type 0
NullifierStore = List Row

-- The 64 bits that `c as i64` keeps of a `u128`, and the `u128` that `c as u128` makes of them.
unfoldable pub u128_as_i64 : ℕ → ℕ
u128_as_i64 c = c % 2 ^ 64

unfoldable pub i64_as_u128 : ℕ → ℕ
i64_as_u128 c = if ltb c (2 ^ 63) then c else 2 ^ 128 - 2 ^ 64 + c

abbrev pub map_opt : {A B : Type 0} → (A → B) → Option A → Option B
map_opt f none = none
map_opt f (some a) = some (f a)

unfoldable pub parse_opt_felt : Option Str → Option Felt252
parse_opt_felt none = none
parse_opt_felt (some h) = elim (from_hex h) [ ok f ↦ some f | err e ↦ none ]

-- The `PRIMARY KEY` of a row that is inserted must be new.
unfoldable pub has_key : Str → NullifierStore → Bool
has_key key [] = false
has_key key (row ∷ rows) =
    let rest = has_key key rows in if bytes_eq row.nullifier key then true else rest

unfoldable pub select_key : Str → NullifierStore → Option Row
select_key key [] = none
select_key key (row ∷ rows) =
    let rest = select_key key rows in if bytes_eq row.nullifier key then some row else rest

abbrev client_id_is : Str → Option Str → Bool
client_id_is id none = false
client_id_is id (some s) = bytes_eq s id

unfoldable pub select_client_id : Str → NullifierStore → Option Row
select_client_id id [] = none
select_client_id id (row ∷ rows) =
    let rest = select_client_id id rows in
    if client_id_is id row.client_request_id then some row else rest

-- A row with the columns that the INSERT leaves out set to NULL.
unfoldable pub new_row : Str → Str → Option Str → Option Str → ℕ → Row
new_row key status client_request_id payload_hash now = record {
  nullifier = key;
  status = status;
  client_request_id = client_request_id;
  payload_hash = payload_hash;
  charge_applied = none;
  response_code = none;
  response_payload = none;
  response_hash = none;
  next_commitment_x = none;
  next_commitment_y = none;
  next_anchor = none;
  blind_delta_srv = none;
  next_state_sig_epoch = none;
  next_state_sig_root = none;
  next_state_sig_json = none;
  policy_reason_code = none;
  policy_evidence_hash = none;
  proof_blob = none;
  request_inputs_json = none;
  created_at = now;
  finalized_at = none;
}

unfoldable pub reserve :
    Bool
    → ℕ
    → Felt252
    → Str
    → Felt252
    → NullifierStore
    → Result ServerError (Unit {0}) × NullifierStore
unfolding has_key status_to_str new_row
reserve reachable now nullifier client_request_id payload_hash store =
    let key = to_hex nullifier in
    elim reachable [
      | false ↦ (err (database (codes "insert failed")), store)
      | true ↦ elim (has_key key store) [
        | true ↦ (err replay, store)
        | false ↦ (
          ok tt,
          store
              ++ (new_row key (status_to_str reserved) (some client_request_id)
                    (some (to_hex payload_hash)) now
                  ∷ []),
        )
      ]
    ]

unfoldable pub reserve_clearance :
    Bool → ℕ → Felt252 → NullifierStore → Result ServerError (Unit {0}) × NullifierStore
unfolding has_key status_to_str new_row
reserve_clearance reachable now nullifier store =
    let key = to_hex nullifier in
    elim reachable [
      | false ↦ (err (database (codes "clearance reserve failed")), store)
      | true ↦ elim (has_key key store) [
        | true ↦ (err nullifier_used, store)
        | false ↦
            (ok tt, store ++ (new_row key (status_to_str clearance_reserved) none none now ∷ []))
      ]
    ]

-- `serde_json` on signatures.
pub record SignatureJson : Type 0 where
  pub to_string : XmssSignature → Str
  pub from_str : Str → Option XmssSignature

module _ (json : SignatureJson) where
  -- The columns that `finalize` sets; `as i32` is exact on the `u16` and `u32` fields.
  unfoldable pub finalized_row : ℕ → TranscriptRecord → Row → Row
  unfolding status_to_str u128_as_i64
  finalized_row now t row = record row {
    status = status_to_str finalized;
    charge_applied = map_opt u128_as_i64 t.charge_applied;
    response_code = t.response_code;
    response_payload = t.response_payload;
    response_hash = map_opt to_hex t.response_hash;
    next_commitment_x = map_opt to_hex t.next_commitment_x;
    next_commitment_y = map_opt to_hex t.next_commitment_y;
    next_anchor = map_opt to_hex t.next_anchor;
    blind_delta_srv = map_opt to_hex t.blind_delta_srv;
    next_state_sig_epoch = t.next_state_sig_epoch;
    next_state_sig_root = map_opt to_hex t.next_state_sig_root;
    next_state_sig_json = map_opt json.to_string t.next_state_sig;
    policy_reason_code = t.policy_reason_code;
    policy_evidence_hash = map_opt to_hex t.policy_evidence_hash;
    proof_blob = t.proof_blob;
    request_inputs_json = t.request_inputs_json;
    finalized_at = some now;
  }

  -- The UPDATE with its WHERE clause, and whether it met a row.
  unfoldable pub update_rows : Str → ℕ → TranscriptRecord → NullifierStore → Bool × NullifierStore
  unfolding finalized_row status_to_str
  update_rows key now t [] = (false, [])
  update_rows key now t (row ∷ rows) =
      let rest = update_rows key now t rows in
      if bytes_eq row.nullifier key && bytes_eq row.status (status_to_str reserved)
      then (true, finalized_row now t row ∷ (rest.1))
      else (rest.0, row ∷ (rest.1))

  unfoldable pub finalize :
      Bool
      → ℕ
      → Felt252
      → TranscriptRecord
      → NullifierStore
      → Result ServerError (Unit {0}) × NullifierStore
  unfolding update_rows
  finalize reachable now nullifier t store = elim reachable [
    | false ↦ (err (database (codes "finalize failed")), store)
    | true ↦
        let updated = update_rows (to_hex nullifier) now t store in
        elim (updated.0) [
          | true ↦ (ok tt, updated.1)
          | false ↦ (
            err (internal (codes "nullifier not in Reserved state or does not exist")),
            updated.1,
          )
        ]
  ]

  abbrev pub felt_or_zero : Str → Felt252
  felt_or_zero h = elim (from_hex h) [ ok f ↦ f | err e ↦ felt_zero ]

  abbrev pub read_signature : Option Str → Option XmssSignature
  read_signature none = none
  read_signature (some s) = json.from_str s

  unfoldable pub row_to_record : Row → TranscriptRecord
  unfolding parse_opt_felt str_to_status i64_as_u128
  row_to_record row = record {
    nullifier = felt_or_zero row.nullifier;
    status = str_to_status row.status;
    client_request_id = row.client_request_id;
    payload_hash = parse_opt_felt row.payload_hash;
    charge_applied = map_opt i64_as_u128 row.charge_applied;
    response_code = row.response_code;
    response_payload = row.response_payload;
    response_hash = parse_opt_felt row.response_hash;
    next_commitment_x = parse_opt_felt row.next_commitment_x;
    next_commitment_y = parse_opt_felt row.next_commitment_y;
    next_anchor = parse_opt_felt row.next_anchor;
    blind_delta_srv = parse_opt_felt row.blind_delta_srv;
    next_state_sig_epoch = row.next_state_sig_epoch;
    next_state_sig_root = parse_opt_felt row.next_state_sig_root;
    next_state_sig = read_signature row.next_state_sig_json;
    policy_reason_code = row.policy_reason_code;
    policy_evidence_hash = parse_opt_felt row.policy_evidence_hash;
    proof_blob = row.proof_blob;
    request_inputs_json = row.request_inputs_json;
    created_at = row.created_at;
    finalized_at = row.finalized_at;
  }

  unfoldable pub lookup_by_nullifier : Felt252 → NullifierStore → Option TranscriptRecord
  unfolding select_key row_to_record
  lookup_by_nullifier nullifier store = map_opt row_to_record (select_key (to_hex nullifier) store)

  unfoldable pub lookup_by_client_id : Str → NullifierStore → Option TranscriptRecord
  unfolding select_client_id row_to_record
  lookup_by_client_id id store = map_opt row_to_record (select_client_id id store)

  unfoldable pub get_all_nullifiers : NullifierStore → List TranscriptRecord
  unfolding row_to_record
  get_all_nullifiers store = map row_to_record store

  unfoldable pub get_reserved_entries : NullifierStore → List TranscriptRecord
  unfolding row_to_record status_to_str
  get_reserved_entries [] = []
  get_reserved_entries (row ∷ rows) =
      let rest = get_reserved_entries rows in
      if bytes_eq row.status (status_to_str reserved) then row_to_record row ∷ rest else rest
