-- ===== src/Signer/Table.antt =====
-- rust/crates/zkapi-server/src/signer.rs: `SignerStateStore`, the table in which leaves are reserved.
use zk_api.Prelude.{
  ℕ, ◌+◌, ◌^◌, Bool, true, false, List, [], ◌∷◌, ◌++◌, Str, codes, ltb, leb, ◌==◌, ◌&&◌, bytes_eq,
  Option, none, some, Result, err, ok, if◌then◌else◌,
}
use zk_api.Felt.{Felt252, to_hex}
use zk_api.Server.{ServerError, database, capacity_exhausted}

pub data SignerTree : Type 0 where
  state clear : SignerTree

unfoldable pub as_str : SignerTree → Str
as_str state = codes "state"
as_str clear = codes "clear"

-- A row of `signer_state`.
pub record SignerRow : Type 0 where
  pub tree_kind : Str
  pub epoch : ℕ
  pub root : Str
  pub next_leaf : ℕ

abbrev pub SignerStateStore : Type 0
SignerStateStore = List SignerRow

-- `SELECT … WHERE tree_kind = ?1`; the column is the primary key.
unfoldable pub select_tree : Str → SignerStateStore → Option SignerRow
select_tree kind [] = none
select_tree kind (row ∷ rows) =
    let rest = select_tree kind rows in if bytes_eq row.tree_kind kind then some row else rest

-- `UPDATE signer_state SET next_leaf = ?1 WHERE tree_kind = ?2`.
unfoldable pub update_leaf : ℕ → Str → SignerStateStore → SignerStateStore
update_leaf leaf kind [] = []
update_leaf leaf kind (row ∷ rows) =
    (if bytes_eq row.tree_kind kind then record row { next_leaf = leaf } else row)
    ∷ update_leaf leaf kind rows

unfoldable pub ensure_tree :
    Bool
    → SignerTree
    → ℕ
    → Felt252
    → SignerStateStore
    → Result ServerError (Unit {0}) × SignerStateStore
unfolding as_str select_tree
ensure_tree reachable tree epoch root table = elim reachable [
  | false ↦ (err (database (codes "signer_state lookup failed")), table)
  | true ↦ elim (select_tree (as_str tree) table) [
    | some row ↦
        if row.epoch == epoch && bytes_eq row.root (to_hex root)
        then (ok tt, table)
        else (err (database (codes "signer_state mismatch")), table)
    | none ↦ (
      ok tt,
      table
          ++ record { tree_kind = as_str tree; epoch = epoch; root = to_hex root; next_leaf = 0 }
            ∷ [],
    )
  ]
]

-- `u32::try_from` on the column.
unfoldable pub leaf_in_range : ℕ → Result ServerError ℕ
leaf_in_range n =
    if ltb n (2 ^ 32) then ok n else err (database (codes "signer_state next_leaf out of range"))

unfoldable pub next_leaf : Bool → SignerTree → SignerStateStore → Result ServerError ℕ
unfolding as_str select_tree leaf_in_range
next_leaf reachable tree table = elim reachable [
  | false ↦ err (database (codes "signer_state lookup failed"))
  | true ↦ elim (select_tree (as_str tree) table) [
    | none ↦ err (database (codes "signer_state lookup failed"))
    | some row ↦ leaf_in_range row.next_leaf
  ]
]

unfoldable pub reserve_leaf :
    Bool → SignerTree → ℕ → Felt252 → ℕ → SignerStateStore → Result ServerError ℕ × SignerStateStore
unfolding as_str select_tree leaf_in_range update_leaf
reserve_leaf reachable tree epoch root capacity table = elim reachable [
  | false ↦ (err (database (codes "signer_state reserve failed")), table)
  | true ↦ elim (select_tree (as_str tree) table) [
    | none ↦ (err (database (codes "signer_state reserve lookup failed")), table)
    | some row ↦
        if row.epoch == epoch && bytes_eq row.root (to_hex root)
        then elim (leaf_in_range row.next_leaf) [
          | err e ↦ (err e, table)
          | ok next ↦
              if leb capacity next
              then (err capacity_exhausted, table)
              else (ok next, update_leaf (next + 1) (as_str tree) table)
        ]
        else (err (database (codes "signer_state changed")), table)
  ]
]
