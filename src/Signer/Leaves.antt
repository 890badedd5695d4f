-- ===== src/Signer/Leaves.antt =====
-- rust/crates/zkapi-server/src/signer.rs: no leaf is signed twice, whatever signers share the table,
-- restart, fail or stop between the reservation and the signature.
use zk_api.Prelude.{
  true, ◌^◌, bytes_eq_refl, ℕ, ◌+◌, ◌<◌, ◌≤◌, ◌≡◌, refl, Bool, false, [], ◌∷◌, ◌++◌, Str, bytes_eq,
  bytes_eq_sound, Option, none, some, err, ok, arith, ap, Option-cases, Result-cases, inl, inr, ◌≢◌,
}
use zk_api.Felt.{Felt252, to_hex}
use zk_api.Server.{ServerError}
use zk_api.Signer.Table.{
  SignerTree, state, clear, SignerRow, SignerStateStore, as_str, select_tree, update_leaf,
  leaf_in_range, ensure_tree, reserve_leaf,
}

abbrev next_of : Option SignerRow → ℕ
next_of none = 0
next_of (some row) = row.next_leaf

-- The counter of a tree, 0 without a row.
pub counter : Str → SignerStateStore → ℕ
unfolding select_tree
counter kind table = next_of (select_tree kind table)

counter-append :
    (kind : Str) (table : SignerStateStore) (row : SignerRow)
    → row.next_leaf ≡ 0
    → counter kind (table ++ row ∷ []) ≡ counter kind table
unfolding counter
counter-append kind [] row h = ground arith
counter-append kind (r ∷ table) row h = ground (arith, counter-append kind table row h)

counter-update_leaf :
    (kind : Str) (leaf : ℕ) (table : SignerStateStore) (row : SignerRow)
    → select_tree kind table ≡ some row
    → counter kind (update_leaf leaf kind table) ≡ leaf
unfolding counter select_tree update_leaf
counter-update_leaf kind leaf [] row h = ground arith
counter-update_leaf kind leaf (r ∷ table) row h =
    ground (arith, counter-update_leaf kind leaf table row)

counter-update_leaf_other :
    (kind other : Str) (leaf : ℕ) (table : SignerStateStore)
    → bytes_eq other kind ≡ false
    → counter other (update_leaf leaf kind table) ≡ counter other table
unfolding counter select_tree update_leaf
counter-update_leaf_other kind other leaf [] h = refl
counter-update_leaf_other kind other leaf (r ∷ table) h = ground (
  arith,
  counter-update_leaf_other kind other leaf table h,
  bytes_eq_sound r.tree_kind other,
  λ (e : r.tree_kind ≡ other). ap (λ (t : Str). bytes_eq t kind) e,
)

pub counter-ensure_tree :
    (kind : Str) (reachable : Bool) (tree : SignerTree) (epoch : ℕ) (root : Felt252)
    (table : SignerStateStore)
    → counter kind ((ensure_tree reachable tree epoch root table).1) ≡ counter kind table
unfolding ensure_tree
counter-ensure_tree kind reachable tree epoch root table = ground (
  arith,
  counter-append kind table
      (record { tree_kind = as_str tree; epoch = epoch; root = to_hex root; next_leaf = 0 }) refl,
)

-- A leaf that is reserved is the counter, below the capacity, and the counter moves past it.
pub reserve_leaf-counter :
    (reachable : Bool) (tree : SignerTree) (epoch : ℕ) (root : Felt252) (capacity leaf : ℕ)
    (table : SignerStateStore)
    → (reserve_leaf reachable tree epoch root capacity table).0 ≡ ok leaf
    → (leaf ≡ counter (as_str tree) table)
      × (leaf < capacity)
      × (counter (as_str tree) ((reserve_leaf reachable tree epoch root capacity table).1)
          ≡ leaf + 1)
unfolding reserve_leaf leaf_in_range
reserve_leaf-counter reachable tree epoch root capacity leaf table h =
    elim (Option-cases (select_tree (as_str tree) table)) [
      | inl absent ↦ ground arith
      | inr (row, found) ↦ ground (
        arith,
        counter-update_leaf (as_str tree) (leaf + 1) table row found,
        (let e : counter (as_str tree) table ≡ row.next_leaf = unfold counter in rw found in e),
      )
    ]

-- A reservation that fails writes nothing.
pub reserve_leaf-err :
    (reachable : Bool) (tree : SignerTree) (epoch : ℕ) (root : Felt252) (capacity : ℕ)
    (e : ServerError) (table : SignerStateStore)
    → (reserve_leaf reachable tree epoch root capacity table).0 ≡ err e
    → (reserve_leaf reachable tree epoch root capacity table).1 ≡ table
unfolding reserve_leaf leaf_in_range
reserve_leaf-err reachable tree epoch root capacity e table h = ground arith

kinds_differ : (a b : SignerTree) → a ≢ b → bytes_eq (as_str b) (as_str a) ≡ false
unfolding as_str bytes_eq
kinds_differ state state h = absurd (h refl)
kinds_differ state clear h = refl
kinds_differ clear state h = refl
kinds_differ clear clear h = absurd (h refl)

pub reserve_leaf_other :
    (reachable : Bool) (tree other : SignerTree) (epoch : ℕ) (root : Felt252) (capacity : ℕ)
    (table : SignerStateStore)
    → tree ≢ other
    → counter (as_str other) ((reserve_leaf reachable tree epoch root capacity table).1)
      ≡ counter (as_str other) table
unfolding reserve_leaf leaf_in_range
reserve_leaf_other reachable tree other epoch root capacity table h =
    elim (Option-cases (select_tree (as_str tree) table)) [
      | inl absent ↦ ground arith
      | inr (row, found) ↦ ground (
        arith,
        counter-update_leaf_other (as_str tree) (as_str other) (row.next_leaf + 1) table
            (kinds_differ tree other h),
      )
    ]

reserve_leaf_own :
    (reachable : Bool) (tree : SignerTree) (epoch : ℕ) (root : Felt252) (capacity : ℕ)
    (table : SignerStateStore)
    → counter (as_str tree) table
      ≤ counter (as_str tree) ((reserve_leaf reachable tree epoch root capacity table).1)
reserve_leaf_own reachable tree epoch root capacity table =
    elim (Result-cases ((reserve_leaf reachable tree epoch root capacity table).0)) [
      | inl (leaf, e) ↦
          omega (arith, reserve_leaf-counter reachable tree epoch root capacity leaf table e)
      | inr (problem, e) ↦
          let same = reserve_leaf-err reachable tree epoch root capacity problem table e in
          omega (arith, ap (counter (as_str tree)) same)
    ]

-- No counter moves back.
pub reserve_leaf_mono :
    (reachable : Bool) (tree other : SignerTree) (epoch : ℕ) (root : Felt252) (capacity : ℕ)
    (table : SignerStateStore)
    → counter (as_str other) table
      ≤ counter (as_str other) ((reserve_leaf reachable tree epoch root capacity table).1)
reserve_leaf_mono reachable state state epoch root capacity table =
    reserve_leaf_own reachable state epoch root capacity table
reserve_leaf_mono reachable state clear epoch root capacity table =
    omega (arith, reserve_leaf_other reachable state clear epoch root capacity table (λ e. cc))
reserve_leaf_mono reachable clear state epoch root capacity table =
    omega (arith, reserve_leaf_other reachable clear state epoch root capacity table (λ e. cc))
reserve_leaf_mono reachable clear clear epoch root capacity table =
    reserve_leaf_own reachable clear epoch root capacity table

-- A leaf is reserved when the row of the tree is the signer's and has leaves left.
pub reserve_leaf-ok :
    (tree : SignerTree) (epoch : ℕ) (root : Felt252) (capacity : ℕ) (table : SignerStateStore)
    (row : SignerRow)
    → select_tree (as_str tree) table ≡ some row
    → row.epoch ≡ epoch
    → row.root ≡ to_hex root
    → row.next_leaf < capacity
    → capacity ≤ 2 ^ 32
    → (reserve_leaf true tree epoch root capacity table).0 ≡ ok row.next_leaf
unfolding reserve_leaf leaf_in_range
reserve_leaf-ok tree epoch root capacity table row found e r lt le =
    ground (arith, bytes_eq_refl (to_hex root))
