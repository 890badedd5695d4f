-- ===== src/Merkle/Paths.antt =====
-- Sibling paths: `get_siblings` opens every leaf, and a path computes the next root.
use zk_api.Prelude.{
  ℕ, zero, suc, ◌+◌, ◌/◌, ◌^◌, ◌≤◌, ◌<◌, ◌≡◌, refl, sym, ◌∙◌, ap, ap₂, fun_ext, true, bit_and,
  bit_xor, bit_and-one, bit_xor-one, List, [], ◌∷◌, length, take, ◌==◌, if◌then◌else◌, arith,
}
use native.Mathlib.Nat.{pow-suc}
use zk_api.Felt.{Felt252, felt_eq_refl}
use zk_api.Merkle.{
  MerkleTree, merkle_depth, fold_path, compute_root, verify_membership, get_node, root, get_leaf,
  set_parent, set_path, write_leaf, set_leaf, siblings_from, get_siblings,
}
use zk_api.Merkle.Consistent.{
  IsConsistent, get_node-set_parent, get_node-write_leaf, set_leaf-IsConsistent, get_leaf-set_leaf,
  root-subtree, subtree,
}

-- The ancestor `rounds` levels up.
abbrev up : ℕ → ℕ → ℕ
up zero i = i
up (suc rounds) i = up rounds (i / 2)

up-zero : (rounds i : ℕ) → i < 2 ^ rounds → up rounds i ≡ 0
up-zero zero i h = omega arith
up-zero (suc rounds) i h = up-zero rounds (i / 2) (omega (arith, pow-suc 2 rounds))

length-siblings_from :
    (t : MerkleTree) (rounds level idx : ℕ) → length (siblings_from t rounds level idx) ≡ rounds
unfolding siblings_from
length-siblings_from t zero level idx = refl
length-siblings_from t (suc rounds) level idx =
    ap suc (length-siblings_from t rounds (suc level) (idx / 2))

take-length : (xs : List Felt252) (n : ℕ) → length xs ≡ n → take n xs ≡ xs
take-length [] zero h = refl
take-length [] (suc n) h = refl
take-length (x ∷ xs) zero h = absurd (omega arith)
take-length (x ∷ xs) (suc n) h = ap (λ (t : List Felt252). x ∷ t) (take-length xs n (omega arith))

module _ (h : Felt252 → Felt252 → Felt252) where
  -- A node and its sibling hash to the parent, on either side.
  parent_of :
      (t : MerkleTree) (level idx : ℕ)
      → IsConsistent h t
      → level < merkle_depth
      → (if bit_and idx 1 == 0
          then h (get_node t level idx) (get_node t level (bit_xor idx 1))
          else h (get_node t level (bit_xor idx 1)) (get_node t level idx))
        ≡ get_node t (suc level) (idx / 2)
  parent_of t level idx c lt =
      ground (arith, bit_and-one idx, bit_xor-one idx, c.parents level (idx / 2) lt)

  fold_path-siblings_from :
      (t : MerkleTree) (rounds level idx : ℕ)
      → IsConsistent h t
      → level + rounds ≤ merkle_depth
      → fold_path h idx (get_node t level idx) (siblings_from t rounds level idx)
        ≡ get_node t (level + rounds) (up rounds idx)
  unfolding fold_path siblings_from
  fold_path-siblings_from t zero level idx c le = ap (λ (l : ℕ). get_node t l idx) (omega arith)
  fold_path-siblings_from t (suc rounds) level idx c le =
      rw (parent_of t level idx c (omega arith), fold_path)
        (fold_path-siblings_from t rounds (suc level) (idx / 2) c (omega arith)
          ∙ ap (λ (l : ℕ). get_node t l (up rounds (idx / 2))) (omega arith))

  -- In a consistent tree, the leaf at an index and its sibling path compute to the root.
  pub compute_root-get_siblings :
      (t : MerkleTree) (index : ℕ)
      → IsConsistent h t
      → index < 2 ^ merkle_depth
      → compute_root h index (get_leaf t index) (get_siblings t index) ≡ root t
  unfolding compute_root get_siblings get_leaf root
  compute_root-get_siblings t index c lt =
      rw (take-length _ merkle_depth (length-siblings_from t merkle_depth 0 index)) (
        fold_path-siblings_from t merkle_depth 0 index c (omega arith)
        ∙ ap (get_node t merkle_depth) (up-zero merkle_depth index lt))

  -- In a consistent tree, `verify_membership` accepts, under the root, the leaf at any index below
  -- 2^32 with the siblings that `get_siblings` gives for that index.
  pub verify_membership-get_siblings :
      (t : MerkleTree) (index : ℕ)
      → IsConsistent h t
      → index < 2 ^ merkle_depth
      → verify_membership h (root t) index (get_leaf t index) (get_siblings t index) ≡ true
  unfolding verify_membership
  verify_membership-get_siblings t index c lt =
      rw (compute_root-get_siblings t index c lt) (felt_eq_refl (root t))

  siblings_from-set_parent_above :
      (t : MerkleTree) (level idx rounds l j : ℕ)
      → suc level < l
      → siblings_from (set_parent h t level idx) rounds l j ≡ siblings_from t rounds l j
  unfolding siblings_from
  siblings_from-set_parent_above t level idx zero l j lt = refl
  siblings_from-set_parent_above t level idx (suc rounds) l j lt = ground (
    arith,
    get_node-set_parent h t level idx l (bit_xor j 1),
    siblings_from-set_parent_above t level idx rounds (suc l) (j / 2),
  )

  siblings_from-set_parent :
      (t : MerkleTree) (level idx rounds : ℕ)
      → siblings_from (set_parent h t level idx) rounds (suc level) (idx / 2)
        ≡ siblings_from t rounds (suc level) (idx / 2)
  unfolding siblings_from
  siblings_from-set_parent t level idx zero = refl
  siblings_from-set_parent t level idx (suc rounds) = ground (
    arith,
    bit_xor-one (idx / 2),
    get_node-set_parent h t level idx (suc level) (bit_xor (idx / 2) 1),
    siblings_from-set_parent_above t level idx rounds (suc (suc level)) (idx / 2 / 2),
  )

  get_node-set_path_below :
      (rounds level idx : ℕ) (t : MerkleTree) (l i : ℕ)
      → l ≤ level
      → get_node (set_path h rounds level idx t) l i ≡ get_node t l i
  unfolding set_path
  get_node-set_path_below zero level idx t l i le = refl
  get_node-set_path_below (suc rounds) level idx t l i le = ground (
    arith,
    get_node-set_path_below rounds (suc level) (idx / 2) (set_parent h t level idx) l i,
    get_node-set_parent h t level idx l i,
  )

  siblings_from-set_path :
      (rounds level idx : ℕ) (t : MerkleTree)
      → siblings_from (set_path h rounds level idx t) rounds level idx
        ≡ siblings_from t rounds level idx
  unfolding siblings_from set_path
  siblings_from-set_path zero level idx t = refl
  siblings_from-set_path (suc rounds) level idx t =
      ap₂ ◌∷◌
        (get_node-set_path_below rounds (suc level) (idx / 2) (set_parent h t level idx) level
            (bit_xor idx 1) (omega arith)
          ∙ ground (arith, get_node-set_parent h t level idx level (bit_xor idx 1)))
        (siblings_from-set_path rounds (suc level) (idx / 2) (set_parent h t level idx)
          ∙ siblings_from-set_parent t level idx rounds)

  siblings_from-write_leaf_above :
      (t : MerkleTree) (index : ℕ) (v : Felt252) (rounds l j : ℕ)
      → siblings_from (write_leaf t index v) rounds (suc l) j ≡ siblings_from t rounds (suc l) j
  unfolding siblings_from
  siblings_from-write_leaf_above t index v zero l j = refl
  siblings_from-write_leaf_above t index v (suc rounds) l j = ground (
    arith,
    get_node-write_leaf h t index v (suc l) (bit_xor j 1),
    siblings_from-write_leaf_above t index v rounds (suc l) (j / 2),
  )

  -- Setting a leaf leaves its own sibling path as it was.
  pub get_siblings-set_leaf :
      (t : MerkleTree) (index : ℕ) (v : Felt252)
      → get_siblings (set_leaf h t index v) index ≡ get_siblings t index
  unfolding get_siblings set_leaf
  get_siblings-set_leaf t index v =
      siblings_from-set_path merkle_depth 0 index (write_leaf t index v) ∙ below
    where
      below :
          siblings_from (write_leaf t index v) merkle_depth 0 index
          ≡ siblings_from t merkle_depth 0 index
      below =
          unfold siblings_from in
          ap₂ ◌∷◌
            (ground (arith, bit_xor-one index, get_node-write_leaf h t index v 0 (bit_xor index 1)))
            (siblings_from-write_leaf_above t index v 31 0 (index / 2))

  -- The root after a leaf is set is computed from the new leaf and the path read before: what a
  -- holder of the path alone, such as the contract, computes.
  pub root-set_leaf :
      (t : MerkleTree) (index : ℕ) (v : Felt252)
      → IsConsistent h t
      → index < 2 ^ merkle_depth
      → root (set_leaf h t index v) ≡ compute_root h index v (get_siblings t index)
  root-set_leaf t index v c lt =
      sym (
        compute_root-get_siblings (set_leaf h t index v) index (set_leaf-IsConsistent h t index v c)
          lt)
      ∙ ap₂ (compute_root h index) (ground (arith, get_leaf-set_leaf h t index v index))
          (get_siblings-set_leaf t index v)

  -- Two consistent trees with the same leaves have the same root.
  pub root_ext :
      (t u : MerkleTree)
      → IsConsistent h t
      → IsConsistent h u
      → ((i : ℕ) → get_leaf t i ≡ get_leaf u i)
      → root t ≡ root u
  root_ext t u ct cu same =
      root-subtree h t ct
      ∙ ap (λ (f : ℕ → Felt252). subtree h f merkle_depth 0) (fun_ext same)
      ∙ sym (root-subtree h u cu)

  -- In a consistent tree, overwriting a leaf and then putting the old value back restores the
  -- root.
  pub set_leaf_restores_root :
      (t : MerkleTree) (index : ℕ) (v : Felt252)
      → IsConsistent h t
      → root (set_leaf h (set_leaf h t index v) index (get_leaf t index)) ≡ root t
  set_leaf_restores_root t index v c =
      root_ext _ t (set_leaf-IsConsistent h _ index _ (set_leaf-IsConsistent h t index v c)) c (λ i.
        ground (
          arith,
          get_leaf-set_leaf h (set_leaf h t index v) index (get_leaf t index) i,
          get_leaf-set_leaf h t index v i,
        ))
