-- ===== src/Server/Transcript.antt =====
-- rust/crates/zkapi-server/src/nullifier_store.rs: what `finalize` stores is what the lookup by
-- nullifier returns, up to the 63 bits that an INTEGER column has for the charge.
use zk_api.Prelude.{
  ◌≤◌, ◌⊎◌, ℕ, ◌-◌, ◌<◌, ◌^◌, ◌≡◌, refl, ap, true, false, Option, none, some, [], ◌∷◌, ◌++◌, Str,
  bytes_eq, bytes_eq_refl, ok, arith,
}
use zk_api.Felt.{Felt252, to_hex}
use zk_api.Felt.Bytes.{IsCanonical}
use zk_api.Felt.Hex.{from_hex-to_hex}
use zk_api.Signature.{XmssSignature}
use zk_api.Server.{reserved, finalized, TranscriptRecord}
use zk_api.Server.Store.{
  felt_or_zero, read_signature, Row, NullifierStore, SignatureJson, has_key, select_key, new_row,
  reserve, finalized_row, update_rows, finalize, row_to_record, lookup_by_nullifier, str_to_status,
  status_to_str, map_opt, parse_opt_felt, u128_as_i64, i64_as_u128,
}

-- A `u128` below 2^63 comes back from its column, and a `u128` that comes back is below 2^63 or
-- at least 2^128 - 2^63.
pub i64_as_u128-u128_as_i64 :
    (c : ℕ)
    → c < 2 ^ 128
    → (c < 2 ^ 63 → i64_as_u128 (u128_as_i64 c) ≡ c)
      × (i64_as_u128 (u128_as_i64 c) ≡ c → (c < 2 ^ 63) ⊎ (2 ^ 128 - 2 ^ 63 ≤ c))
unfolding i64_as_u128 u128_as_i64
i64_as_u128-u128_as_i64 c h = ((λ k. ground arith), λ k. ground arith)

-- The felts of an optional column are canonical.
abbrev pub OptCanonical : Option Felt252 → Type 0
OptCanonical none = Unit {0}
OptCanonical (some f) = IsCanonical f

abbrev pub OptSmall : Option ℕ → Type 0
OptSmall none = Unit {0}
OptSmall (some c) = c < 2 ^ 63

parse_opt_felt-to_hex :
    (o : Option Felt252) → OptCanonical o → parse_opt_felt (map_opt to_hex o) ≡ o
unfolding parse_opt_felt
parse_opt_felt-to_hex none h = refl
parse_opt_felt-to_hex (some f) h = rw (parse_opt_felt, from_hex-to_hex f h) refl

charge-stored : (o : Option ℕ) → OptSmall o → map_opt i64_as_u128 (map_opt u128_as_i64 o) ≡ o
charge-stored none h = refl
charge-stored (some c) h = ap (λ (n : ℕ). some n) ((i64_as_u128-u128_as_i64 c (omega arith)).0 h)

module _ (json : SignatureJson) where
  -- The transcript's values have the ranges that the server gives them, and its signature comes back
  -- from its JSON text.
  pub record IsStorable (t : TranscriptRecord) : Type 0 where
    pub charge : OptSmall t.charge_applied
    pub response_hash : OptCanonical t.response_hash
    pub next_commitment_x : OptCanonical t.next_commitment_x
    pub next_commitment_y : OptCanonical t.next_commitment_y
    pub next_anchor : OptCanonical t.next_anchor
    pub blind_delta_srv : OptCanonical t.blind_delta_srv
    pub next_state_sig_root : OptCanonical t.next_state_sig_root
    pub policy_evidence_hash : OptCanonical t.policy_evidence_hash
    pub json_back :
        (sig : XmssSignature)
        → t.next_state_sig ≡ some sig
        → json.from_str (json.to_string sig) ≡ some sig

  pub select_key-last :
      (k : Str) (s : NullifierStore) (row : Row)
      → has_key k s ≡ false
      → bytes_eq row.nullifier k ≡ true
      → select_key k (s ++ (row ∷ [])) ≡ some row
  unfolding select_key has_key
  select_key-last k [] row h e = ground arith
  select_key-last k (r ∷ s) row h e = ground (arith, select_key-last k s row)

  -- The UPDATE meets the row that a lookup finds, when that row is reserved.
  pub select_key-updated :
      (k : Str) (now : ℕ) (t : TranscriptRecord) (s : NullifierStore) (row : Row)
      → select_key k s ≡ some row
      → bytes_eq row.status (status_to_str reserved) ≡ true
      → ((update_rows json k now t s).0 ≡ true)
        × (select_key k ((update_rows json k now t s).1) ≡ some (finalized_row json now t row))
  unfolding update_rows select_key finalized_row
  select_key-updated k now t [] row h e = ground arith
  select_key-updated k now t (r ∷ s) row h e = ground (arith, select_key-updated k now t s row)

  read_json :
      (o : Option XmssSignature)
      → ((sig : XmssSignature) → o ≡ some sig → json.from_str (json.to_string sig) ≡ some sig)
      → read_signature json (map_opt json.to_string o) ≡ o
  read_json none h = refl
  read_json (some s) h = h s refl

  felt_or_zero-to_hex : (n : Felt252) → IsCanonical n → felt_or_zero json (to_hex n) ≡ n
  felt_or_zero-to_hex n c = rw (felt_or_zero, from_hex-to_hex n c) refl

  row_back :
      (now later : ℕ) (n hash : Felt252) (id : Str) (t : TranscriptRecord)
      → IsCanonical n
      → IsCanonical hash
      → IsStorable t
      → row_to_record json (
          finalized_row json later t
            (new_row (to_hex n) (status_to_str reserved) (some id) (some (to_hex hash)) now))
        ≡ record t {
          nullifier = n;
          status = finalized;
          client_request_id = some id;
          payload_hash = some hash;
          created_at = now;
          finalized_at = some later;
        }
  unfolding row_to_record finalized_row new_row str_to_status status_to_str bytes_eq
  row_back now later n hash id t cn ch st =
      rw
        (
          row_to_record,
          felt_or_zero-to_hex n cn,
          parse_opt_felt-to_hex (some hash) ch,
          charge-stored t.charge_applied st.charge,
          parse_opt_felt-to_hex t.response_hash st.response_hash,
          parse_opt_felt-to_hex t.next_commitment_x st.next_commitment_x,
          parse_opt_felt-to_hex t.next_commitment_y st.next_commitment_y,
          parse_opt_felt-to_hex t.next_anchor st.next_anchor,
          parse_opt_felt-to_hex t.blind_delta_srv st.blind_delta_srv,
          parse_opt_felt-to_hex t.next_state_sig_root st.next_state_sig_root,
          parse_opt_felt-to_hex t.policy_evidence_hash st.policy_evidence_hash,
          read_json t.next_state_sig st.json_back,
        )
        refl

  -- When SQLite is reached, a canonical nullifier that is reserved and then finalized with a
  -- storable transcript is looked up with that transcript: the request id and the canonical
  -- payload hash as reserved, the status `Finalized`, the two times, and every other field as
  -- finalized. Storable is that the charge is below 2^63, the field elements are canonical and the
  -- signature comes back from its JSON text.
  pub lookup-finalize :
      (now later : ℕ) (n hash : Felt252) (id : Str) (t : TranscriptRecord) (s : NullifierStore)
      → IsCanonical n
      → IsCanonical hash
      → IsStorable t
      → (reserve true now n id hash s).0 ≡ ok tt
      → let reserved_store = (reserve true now n id hash s).1 in
        let done = finalize json true later n t reserved_store in
        (done.0 ≡ ok tt)
        × (lookup_by_nullifier json n (done.1)
            ≡ some (record t {
              nullifier = n;
              status = finalized;
              client_request_id = some id;
              payload_hash = some hash;
              created_at = now;
              finalized_at = some later;
            }))
  unfolding reserve finalize lookup_by_nullifier
  lookup-finalize now later n hash id t s cn ch st h =
      let key = to_hex n in
      let row = new_row key (status_to_str reserved) (some id) (some (to_hex hash)) now in
      let fresh : has_key key s ≡ false = ground arith in
      let self : bytes_eq row.nullifier key ≡ true = (unfold new_row in bytes_eq_refl key) in
      let status : bytes_eq row.status (status_to_str reserved) ≡ true =
        (unfold new_row in bytes_eq_refl (status_to_str reserved)) in
      let updated =
        select_key-updated key later t (s ++ (row ∷ [])) row (select_key-last key s row fresh self)
          status in
      let back : row_to_record json (finalized_row json later t row) ≡ record t {
        nullifier = n;
        status = finalized;
        client_request_id = some id;
        payload_hash = some hash;
        created_at = now;
        finalized_at = some later;
      } =
        row_back now later n hash id t cn ch st in
      let met = updated.0 in let found = updated.1 in (ground arith, ground arith)
