-- ===== src/Merkle.antt =====
-- rust/crates/zkapi-core/src/merkle.rs: the sparse Merkle tree of depth 32 and its paths.
-- `merkle_node` is the hash of two children, a parameter of every definition here. A level's
-- `HashMap` is a partial function, and a fixed array is the list of its entries or, for the zero
-- hashes, a function of the level. Indices are `u32`: the results speak of indices below 2^32.
pub mod Consistent
pub mod Paths
pub mod Binding
mod Tests
use zk_api.Prelude.{
  ℕ, zero, suc, ◌+◌, ◌-◌, ◌*◌, ◌/◌, ◌≤◌, ◌<◌, bit_and, bit_xor, Bool, Option, none, some, List, [],
  ◌∷◌, ◌++◌, ◌==◌, ◌&&◌, if◌then◌else◌, length, replicate, leb, take, drop,
}
use mathlib.Core.Option
use zk_api.Felt.{Felt252, felt_zero, felt_eq}

abbrev pub merkle_depth : ℕ
merkle_depth = 32

pub record MerkleTree : Type 0 where
  pub next_index : ℕ
  pub leaves : List Felt252
  pub zero_hashes : ℕ → Felt252
  pub nodes : ℕ → ℕ → Option Felt252

-- `HashMap::insert` into the map of one level.
unfoldable pub insert_node : ℕ → ℕ → Felt252 → (ℕ → ℕ → Option Felt252) → ℕ → ℕ → Option Felt252
insert_node level index value nodes l i =
    if (l == level) && (i == index) then some value else nodes l i

-- `leaves[index] = value`, after the vector has grown to hold `index`.
set_at : List Felt252 → ℕ → Felt252 → List Felt252
set_at [] i v = []
set_at (x ∷ xs) zero v = v ∷ xs
set_at (x ∷ xs) (suc i) v = x ∷ set_at xs i v

grow : List Felt252 → ℕ → List Felt252
grow leaves index =
    if leb (length leaves) index
    then leaves ++ replicate (index + 1 - length leaves) felt_zero
    else leaves

unfoldable pub get_node : MerkleTree → ℕ → ℕ → Felt252
get_node t level index = Option.get_or (t.nodes level index) (t.zero_hashes level)

unfoldable pub root : MerkleTree → Felt252
root t = get_node t merkle_depth 0

unfoldable pub get_leaf : MerkleTree → ℕ → Felt252
get_leaf t index = get_node t 0 index

-- The writes of `set_leaf` before the loop.
pub write_leaf : MerkleTree → ℕ → Felt252 → MerkleTree
unfolding insert_node set_at grow
write_leaf t index value = record t {
  leaves = set_at (grow t.leaves index) index value;
  nodes = insert_node 0 index value t.nodes;
}

-- The loop of `get_siblings`, with the number of levels left.
siblings_from : MerkleTree → ℕ → ℕ → ℕ → List Felt252
siblings_from t zero level idx = []
siblings_from t (suc rounds) level idx =
    get_node t level (bit_xor idx 1) ∷ siblings_from t rounds (suc level) (idx / 2)

unfoldable pub get_siblings : MerkleTree → ℕ → List Felt252
unfolding siblings_from
get_siblings t index = siblings_from t merkle_depth 0 index

module _ (merkle_node : Felt252 → Felt252 → Felt252) where
  -- The array of `compute_zero_hashes`, by level.
  unfoldable pub compute_zero_hashes : ℕ → Felt252
  compute_zero_hashes zero = felt_zero
  compute_zero_hashes (suc i) = let below = compute_zero_hashes i in merkle_node below below

  -- The loop of `compute_root`: over the siblings, from the bottom.
  unfoldable pub fold_path : ℕ → Felt252 → List Felt252 → Felt252
  fold_path idx current [] = current
  fold_path idx current (sibling ∷ rest) =
      fold_path (idx / 2)
        (if bit_and idx 1 == 0 then merkle_node current sibling else merkle_node sibling current)
        rest

  unfoldable pub compute_root : ℕ → Felt252 → List Felt252 → Felt252
  compute_root index leaf siblings = fold_path index leaf (take merkle_depth siblings)

  unfoldable pub verify_membership : Felt252 → ℕ → Felt252 → List Felt252 → Bool
  verify_membership root index leaf siblings = felt_eq (compute_root index leaf siblings) root

  unfoldable pub new : MerkleTree
  new = record {
    next_index = 0;
    leaves = [];
    zero_hashes = compute_zero_hashes;
    nodes = λ level index. none;
  }

  -- One round of the loop of `set_leaf`: recompute the parent of node `idx` of `level`.
  pub set_parent : MerkleTree → ℕ → ℕ → MerkleTree
  unfolding insert_node
  set_parent t level idx =
      let parent_idx = idx / 2 in
      let left = get_node t level (parent_idx * 2) in
      let right = get_node t level (parent_idx * 2 + 1) in
      record t { nodes = insert_node (suc level) parent_idx (merkle_node left right) t.nodes }

  -- The loop, with the number of rounds left.
  set_path : ℕ → ℕ → ℕ → MerkleTree → MerkleTree
  set_path zero level idx t = t
  set_path (suc rounds) level idx t = set_path rounds (suc level) (idx / 2) (set_parent t level idx)

  unfoldable pub set_leaf : MerkleTree → ℕ → Felt252 → MerkleTree
  unfolding set_path write_leaf set_parent
  set_leaf t index value = set_path merkle_depth 0 index (write_leaf t index value)

  unfoldable pub insert : MerkleTree → Felt252 → MerkleTree × ℕ
  insert t value =
      let idx = t.next_index in (record (set_leaf t idx value) { next_index = idx + 1 }, idx)
