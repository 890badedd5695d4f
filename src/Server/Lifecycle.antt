-- ===== src/Server/Lifecycle.antt =====
-- rust/crates/zkapi-server/src/nullifier_store.rs: a nullifier is admitted once, and what is
-- finalized or cleared stays as it is, over any sequence of statements.
use zk_api.Prelude.{
  ℕ, ◌≡◌, refl, Bool, true, false, none, some, [], ◌∷◌, ◌++◌, Str, codes, bytes_eq, bytes_eq_refl,
  ◌≢◌, ok, err, arith, Option-cases, inl, inr,
}
use zk_api.Felt.{Felt252, to_hex}
use zk_api.Server.{clearance_reserved, replay, nullifier_used, reserved, TranscriptRecord}
use zk_api.Server.Store.{
  Row, NullifierStore, SignatureJson, has_key, select_key, new_row, reserve, reserve_clearance,
  finalized_row, update_rows, finalize, row_to_record, lookup_by_nullifier, status_to_str,
}

has_key-append : (k : Str) (s t : NullifierStore) → has_key k s ≡ true → has_key k (s ++ t) ≡ true
unfolding has_key
has_key-append k [] t h = ground arith
has_key-append k (row ∷ s) t h = ground (arith, has_key-append k s t)

has_key-last :
    (k : Str) (s : NullifierStore) (row : Row)
    → bytes_eq row.nullifier k ≡ true
    → has_key k (s ++ (row ∷ [])) ≡ true
unfolding has_key
has_key-last k [] row h = ground arith
has_key-last k (r ∷ s) row h = ground (arith, has_key-last k s row h)

-- The WHERE clause of `finalize` leaves such a row alone.
pub IsClosed : Row → Type 0
IsClosed row = bytes_eq row.status (codes "Reserved") ≡ false

select_key-append :
    (k : Str) (s t : NullifierStore) (row : Row)
    → select_key k s ≡ some row
    → select_key k (s ++ t) ≡ some row
unfolding select_key
select_key-append k [] t row h = ground arith
select_key-append k (r ∷ s) t row h = ground (arith, select_key-append k s t row)

module _ (json : SignatureJson) where
  -- One statement that writes to the table, with any arguments.
  pub data Statement (s : NullifierStore) : NullifierStore → Type 0 where
    reserves :
        (reachable : Bool) (now : ℕ) (n : Felt252) (id : Str) (hash : Felt252)
        → Statement s ((reserve reachable now n id hash s).1)
    clears :
        (reachable : Bool) (now : ℕ) (n : Felt252)
        → Statement s ((reserve_clearance reachable now n s).1)
    finalizes :
        (reachable : Bool) (now : ℕ) (n : Felt252) (t : TranscriptRecord)
        → Statement s ((finalize json reachable now n t s).1)

  pub data History (s : NullifierStore) : NullifierStore → Type 0 where
    start : History s s
    later : (s1 s2 : NullifierStore) → History s s1 → Statement s1 s2 → History s s2

  has_key-update_rows :
      (k key : Str) (now : ℕ) (t : TranscriptRecord) (s : NullifierStore)
      → has_key k ((update_rows json key now t s).1) ≡ has_key k s
  unfolding update_rows has_key finalized_row
  has_key-update_rows k key now t [] = refl
  has_key-update_rows k key now t (row ∷ s) = ground (arith, has_key-update_rows k key now t s)

  select_key-update_rows :
      (k key : Str) (now : ℕ) (t : TranscriptRecord) (s : NullifierStore) (row : Row)
      → IsClosed row
      → select_key k s ≡ some row
      → select_key k ((update_rows json key now t s).1) ≡ some row
  unfolding update_rows select_key finalized_row IsClosed status_to_str
  select_key-update_rows k key now t [] row c h = ground arith
  select_key-update_rows k key now t (r ∷ s) row c h =
      ground (arith, select_key-update_rows k key now t s row c)

  has_key-Statement :
      (k : Str) (s s' : NullifierStore) → Statement s s' → has_key k s ≡ true → has_key k s' ≡ true
  unfolding reserve reserve_clearance finalize
  has_key-Statement k s _ (reserves r now n id hash) h = ground (
    arith,
    has_key-append k s
        (new_row (to_hex n) (status_to_str reserved) (some id) (some (to_hex hash)) now ∷ []) h,
  )
  has_key-Statement k s _ (clears r now n) h = ground (
    arith,
    has_key-append k s (new_row (to_hex n) (status_to_str clearance_reserved) none none now ∷ []) h,
  )
  has_key-Statement k s _ (finalizes r now n t) h =
      ground (arith, has_key-update_rows k (to_hex n) now t s)

  select_key-Statement :
      (k : Str) (s s' : NullifierStore) (row : Row)
      → Statement s s'
      → IsClosed row
      → select_key k s ≡ some row
      → select_key k s' ≡ some row
  unfolding reserve reserve_clearance finalize
  select_key-Statement k s _ row (reserves r now n id hash) c h = ground (
    arith,
    select_key-append k s
        (new_row (to_hex n) (status_to_str reserved) (some id) (some (to_hex hash)) now ∷ []) row h,
  )
  select_key-Statement k s _ row (clears r now n) c h = ground (
    arith,
    select_key-append k s (new_row (to_hex n) (status_to_str clearance_reserved) none none now ∷ [])
        row h,
  )
  select_key-Statement k s _ row (finalizes r now n t) c h =
      ground (arith, select_key-update_rows k (to_hex n) now t s row c h)

  has_key-History :
      (k : Str) (s s' : NullifierStore) → History s s' → has_key k s ≡ true → has_key k s' ≡ true
  has_key-History k s _ start h = h
  has_key-History k s s' (later s1 _ past step) h =
      has_key-Statement k s1 s' step (has_key-History k s s1 past h)

  select_key-History :
      (k : Str) (s s' : NullifierStore) (row : Row)
      → History s s'
      → IsClosed row
      → select_key k s ≡ some row
      → select_key k s' ≡ some row
  select_key-History k s _ row start c h = h
  select_key-History k s s' row (later s1 _ past step) c h =
      select_key-Statement k s1 s' row step c (select_key-History k s s1 row past c h)

  -- A nullifier that a request has reserved is never admitted again: whatever statements follow,
  -- when SQLite is reached, reserving it answers `Replay`, reserving it for clearance answers
  -- `NullifierUsed`, and neither changes the table.
  pub reserve_once :
      (now now' : ℕ) (n : Felt252) (id id' : Str) (hash hash' : Felt252) (s s' : NullifierStore)
      → (reserve true now n id hash s).0 ≡ ok tt
      → History ((reserve true now n id hash s).1) s'
      → (reserve true now' n id' hash' s' ≡ (err replay, s'))
        × (reserve_clearance true now' n s' ≡ (err nullifier_used, s'))
  unfolding reserve reserve_clearance
  reserve_once now now' n id id' hash hash' s s' h past =
      let key = to_hex n in
      let used : has_key key ((reserve true now n id hash s).1) ≡ true = ground (
        arith,
        has_key-last key s (new_row key (status_to_str reserved) (some id) (some (to_hex hash)) now)
            (let e : bytes_eq key key ≡ true = bytes_eq_refl key in unfold new_row in e),
      ) in
      let still = has_key-History key _ s' past used in (ground arith, ground arith)

  -- A record that is looked up with another status than reserved is looked up the same after any
  -- statements.
  pub lookup_by_nullifier-History :
      (n : Felt252) (s s' : NullifierStore) (record' : TranscriptRecord)
      → lookup_by_nullifier json n s ≡ some record'
      → record'.status ≢ reserved
      → History s s'
      → lookup_by_nullifier json n s' ≡ some record'
  unfolding lookup_by_nullifier row_to_record
  lookup_by_nullifier-History n s s' record' h closed past =
      elim (Option-cases (select_key (to_hex n) s)) [
        | inl e ↦ ground arith
        | inr (row, e) ↦
            let c : IsClosed row = (unfold IsClosed in ground arith) in
            let k = select_key-History (to_hex n) s s' row past c e in ground arith
      ]
