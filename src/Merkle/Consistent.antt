-- ===== src/Merkle/Consistent.antt =====
-- The node cache: every cached node is the hash of its children, also after `set_leaf`, so the
-- root is a function of the leaves alone.
use zk_api.Prelude.{
  ℕ, zero, suc, ◌+◌, ◌*◌, ◌/◌, ◌≤◌, ◌<◌, ◌≡◌, refl, ◌∙◌, ap₂, ◌≢◌, ◌⊎◌, inl, ◌&&◌, ◌==◌,
  if◌then◌else◌, arith,
}
use zk_api.Felt.{Felt252}
use zk_api.Merkle.{
  MerkleTree, merkle_depth, insert_node, compute_zero_hashes, new, get_node, root, get_leaf,
  set_parent, set_path, write_leaf, set_leaf,
}

get_node-insert :
    (t : MerkleTree) (level index : ℕ) (v : Felt252) (l i : ℕ)
    → get_node (record t { nodes = insert_node level index v t.nodes }) l i
      ≡ (if (l == level) && (i == index) then v else get_node t l i)
unfolding get_node insert_node
get_node-insert t level index v l i = ground arith

module _ (h : Felt252 → Felt252 → Felt252) where
  abbrev pub IsParent : MerkleTree → ℕ → ℕ → Type 0
  IsParent t l i = get_node t (suc l) i ≡ h (get_node t l (i * 2)) (get_node t l (i * 2 + 1))

  -- Every node above the leaves is the hash of its children, and missing nodes hash as zeros.
  pub record IsConsistent (t : MerkleTree) : Type 0 where
    pub parents : (l i : ℕ) → l < merkle_depth → IsParent t l i

  -- As far as the loop has come: all but one node is the hash of its children.
  abbrev IsConsistentBut : MerkleTree → ℕ → ℕ → Type 0
  IsConsistentBut t level index =
      (l i : ℕ) → l < merkle_depth → (l ≢ level) ⊎ (i ≢ index) → IsParent t l i

  pub get_node-set_parent :
      (t : MerkleTree) (level idx l i : ℕ)
      → get_node (set_parent h t level idx) l i ≡ (
          if (l == suc level) && (i == idx / 2)
          then h (get_node t level (idx / 2 * 2)) (get_node t level (idx / 2 * 2 + 1))
          else get_node t l i)
  unfolding set_parent
  get_node-set_parent t level idx l i =
      get_node-insert t (suc level) (idx / 2)
        (h (get_node t level (idx / 2 * 2)) (get_node t level (idx / 2 * 2 + 1))) l i

  set_parent-IsConsistentBut :
      (t : MerkleTree) (level idx : ℕ)
      → IsConsistentBut t level (idx / 2)
      → IsConsistentBut (set_parent h t level idx) (suc level) (idx / 2 / 2)
  set_parent-IsConsistentBut t level idx but l i lt other = ground (
    arith,
    get_node-set_parent t level idx (suc l) i,
    get_node-set_parent t level idx l (i * 2),
    get_node-set_parent t level idx l (i * 2 + 1),
    but l i lt,
  )

  set_path-IsConsistentBut :
      (rounds level idx : ℕ) (t : MerkleTree)
      → level + rounds ≡ merkle_depth
      → IsConsistentBut t level (idx / 2)
      → IsConsistent (set_path h rounds level idx t)
  unfolding set_path
  set_path-IsConsistentBut zero level idx t e but = record {
    parents = λ l i lt. but l i lt (inl (omega arith));
  }
  set_path-IsConsistentBut (suc rounds) level idx t e but =
      set_path-IsConsistentBut rounds (suc level) (idx / 2) (set_parent h t level idx) (omega arith)
        (set_parent-IsConsistentBut t level idx but)

  pub get_node-write_leaf :
      (t : MerkleTree) (index : ℕ) (v : Felt252) (l i : ℕ)
      → get_node (write_leaf t index v) l i
        ≡ (if (l == 0) && (i == index) then v else get_node t l i)
  unfolding write_leaf get_node insert_node
  get_node-write_leaf t index v l i = ground arith

  write_leaf-IsConsistentBut :
      (t : MerkleTree) (index : ℕ) (v : Felt252)
      → IsConsistent t
      → IsConsistentBut (write_leaf t index v) 0 (index / 2)
  write_leaf-IsConsistentBut t index v c l i lt other = ground (
    arith,
    get_node-write_leaf t index v (suc l) i,
    get_node-write_leaf t index v l (i * 2),
    get_node-write_leaf t index v l (i * 2 + 1),
    c.parents l i lt,
  )

  -- In a consistent tree, where every cached node is the hash of its two children, setting a leaf
  -- keeps it so.
  pub set_leaf-IsConsistent :
      (t : MerkleTree) (index : ℕ) (v : Felt252)
      → IsConsistent t
      → IsConsistent (set_leaf h t index v)
  unfolding set_leaf
  set_leaf-IsConsistent t index v c =
      set_path-IsConsistentBut merkle_depth 0 index (write_leaf t index v) refl
        (write_leaf-IsConsistentBut t index v c)

  pub new-IsConsistent : IsConsistent (new h)
  unfolding new get_node compute_zero_hashes
  new-IsConsistent = record { parents = λ l i lt. refl }

  get_node-set_path_zero :
      (rounds level idx : ℕ) (t : MerkleTree) (i : ℕ)
      → get_node (set_path h rounds level idx t) 0 i ≡ get_node t 0 i
  unfolding set_path
  get_node-set_path_zero zero level idx t i = refl
  get_node-set_path_zero (suc rounds) level idx t i = ground (
    arith,
    get_node-set_path_zero rounds (suc level) (idx / 2) (set_parent h t level idx) i,
    get_node-set_parent t level idx 0 i,
  )

  -- Setting a leaf changes that leaf and no other.
  pub get_leaf-set_leaf :
      (t : MerkleTree) (index : ℕ) (v : Felt252) (i : ℕ)
      → get_leaf (set_leaf h t index v) i ≡ (if i == index then v else get_leaf t i)
  unfolding get_leaf set_leaf
  get_leaf-set_leaf t index v i = ground (
    arith,
    get_node-set_path_zero merkle_depth 0 index (write_leaf t index v) i,
    get_node-write_leaf t index v 0 i,
  )

  next_index-set_path :
      (rounds level idx : ℕ) (t : MerkleTree)
      → (set_path h rounds level idx t).next_index ≡ t.next_index
  unfolding set_path set_parent
  next_index-set_path zero level idx t = refl
  next_index-set_path (suc rounds) level idx t =
      next_index-set_path rounds (suc level) (idx / 2) (set_parent h t level idx)

  -- Setting a leaf does not move the insertion counter.
  pub next_index-set_leaf :
      (t : MerkleTree) (index : ℕ) (v : Felt252) → (set_leaf h t index v).next_index ≡ t.next_index
  unfolding set_leaf write_leaf
  next_index-set_leaf t index v = next_index-set_path merkle_depth 0 index (write_leaf t index v)

  -- The specification: the root of a full binary tree over the leaves.
  pub subtree : (ℕ → Felt252) → ℕ → ℕ → Felt252
  subtree leaf zero i = leaf i
  subtree leaf (suc l) i = h (subtree leaf l (i * 2)) (subtree leaf l (i * 2 + 1))

  get_node-subtree :
      (t : MerkleTree) (l i : ℕ)
      → IsConsistent t
      → l ≤ merkle_depth
      → get_node t l i ≡ subtree (get_leaf t) l i
  unfolding subtree get_leaf
  get_node-subtree t zero i c le = refl
  get_node-subtree t (suc l) i c le =
      c.parents l i le
      ∙ ap₂ h (get_node-subtree t l (i * 2) c (omega arith))
          (get_node-subtree t l (i * 2 + 1) c (omega arith))

  -- The root of a consistent cache is that of the full tree over its leaves.
  pub root-subtree :
      (t : MerkleTree) → IsConsistent t → root t ≡ subtree (get_leaf t) merkle_depth 0
  unfolding root
  root-subtree t c = get_node-subtree t merkle_depth 0 c (omega arith)
