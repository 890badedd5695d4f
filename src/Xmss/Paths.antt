-- ===== src/Xmss/Paths.antt =====
-- rust/crates/zkapi-crypto/src/xmss.rs: an authentication path leads from its leaf to the root.
use zk_api.Prelude.{
  ℕ, zero, suc, ◌+◌, ◌*◌, ◌/◌, ◌^◌, ◌<◌, ◌≡◌, refl, ap, ap₂, ◌∙◌, List, [], ◌∷◌, map, length,
  get_or, bit_and, bit_xor, bit_and-one, bit_xor-one, if◌then◌else◌, ◌==◌, arith,
}
use native.Mathlib.Nat.{pow-suc}
use zk_api.Felt.{Felt252}
use zk_api.Stark.{StarkField, felt_to_field, field_to_felt}
use zk_api.Xmss.{
  range_from, xmss_node_hash, field_zero, next_level, levels_from, node, path_from, climb,
}

pub get_or-map :
    {A B : Type 0} (f : A → B) (xs : List A) (i : ℕ) (d : A) (e : B)
    → i < length xs
    → get_or (map f xs) i e ≡ f (get_or xs i d)
get_or-map f [] i d e h = absurd (omega arith)
get_or-map f (x ∷ xs) zero d e h = refl
get_or-map f (x ∷ xs) (suc i) d e h = get_or-map f xs i d e (omega arith)

pub length-map : {A B : Type 0} (f : A → B) (xs : List A) → length (map f xs) ≡ length xs
length-map f [] = refl
length-map f (x ∷ xs) = ap suc (length-map f xs)

pub length-range_from : (i n : ℕ) → length (range_from i n) ≡ n
unfolding range_from
length-range_from i zero = refl
length-range_from i (suc n) = ap suc (length-range_from (i + 1) n)

pub get_or-range_from : (s n i : ℕ) → i < n → get_or (range_from s n) i 0 ≡ s + i
unfolding range_from
get_or-range_from s zero i h = absurd (omega arith)
get_or-range_from s (suc n) zero h = omega arith
get_or-range_from s (suc n) (suc i) h = omega (arith, get_or-range_from (s + 1) n i (omega arith))

module _ {F : Type 0} (k : StarkField F) where
  length-next_level : (m : ℕ) (xs : List F) → length xs ≡ m * 2 → length (next_level k xs) ≡ m
  unfolding next_level
  length-next_level zero [] h = refl
  length-next_level (suc m) [] h = absurd (omega arith)
  length-next_level m (x ∷ []) h = absurd (omega arith)
  length-next_level zero (x ∷ y ∷ xs) h = absurd (omega arith)
  length-next_level (suc m) (x ∷ y ∷ xs) h = ap suc (length-next_level m xs (omega arith))

  -- A node of the next level is the hash of its two children.
  get_or-next_level :
      (m : ℕ) (xs : List F) (i : ℕ) (z : F)
      → length xs ≡ m * 2
      → i < m
      → get_or (next_level k xs) i z
        ≡ xmss_node_hash k (get_or xs (i * 2) z) (get_or xs (i * 2 + 1) z)
  unfolding next_level
  get_or-next_level zero xs i z h lt = absurd (omega arith)
  get_or-next_level (suc m) [] i z h lt = absurd (omega arith)
  get_or-next_level (suc m) (x ∷ []) i z h lt = absurd (omega arith)
  get_or-next_level (suc m) (x ∷ y ∷ xs) zero z h lt = refl
  get_or-next_level (suc m) (x ∷ y ∷ xs) (suc i) z h lt =
      get_or-next_level m xs i z (omega arith) (omega arith)
      ∙ ap₂ (λ (a b : ℕ). xmss_node_hash k (get_or (x ∷ y ∷ xs) a z) (get_or (x ∷ y ∷ xs) b z))
          (let e : suc (suc (i * 2)) ≡ suc i * 2 = omega arith in e)
          (let e : suc (suc (i * 2 + 1)) ≡ suc i * 2 + 1 = omega arith in e)

  path_from-suc :
      (nodes : List F) (tree : List (List F)) (rounds level idx : ℕ)
      → path_from k (nodes ∷ tree) rounds (suc level) idx ≡ path_from k tree rounds level idx
  unfolding path_from node
  path_from-suc nodes tree zero level idx = refl
  path_from-suc nodes tree (suc rounds) level idx =
      ap (λ (p : List Felt252). field_to_felt k (node k tree level (bit_xor idx 1)) ∷ p)
        (path_from-suc nodes tree rounds (suc level) (idx / 2))

  pub length-path_from :
      (tree : List (List F)) (rounds level idx : ℕ)
      → length (path_from k tree rounds level idx) ≡ rounds
  unfolding path_from
  length-path_from tree zero level idx = refl
  length-path_from tree (suc rounds) level idx =
      ap suc (length-path_from tree rounds (suc level) (idx / 2))

  module _ (round : (x : F) → k.from_bytes_be (k.to_bytes_be x) ≡ x) where
    pub felt_to_field-field_to_felt : (x : F) → felt_to_field k (field_to_felt k x) ≡ x
    unfolding felt_to_field field_to_felt
    felt_to_field-field_to_felt x = round x

    -- A node and its sibling hash to the parent, on either side.
    parent_of :
        (m idx : ℕ) (prev : List F)
        → length prev ≡ m * 2
        → idx / 2 < m
        → (if bit_and idx 1 == 0
            then xmss_node_hash k
                (get_or prev idx (field_zero k))
                (get_or prev (bit_xor idx 1) (field_zero k))
            else xmss_node_hash k
                (get_or prev (bit_xor idx 1) (field_zero k))
                (get_or prev idx (field_zero k)))
          ≡ get_or (next_level k prev) (idx / 2) (field_zero k)
    parent_of m idx prev h lt = ground (
      arith,
      bit_and-one idx,
      bit_xor-one idx,
      get_or-next_level m prev (idx / 2) (field_zero k) h lt,
    )

    -- Climbing from a node of the lowest level along its path ends at the top.
    pub climb-path_from :
        (n : ℕ) (prev : List F) (idx : ℕ)
        → length prev ≡ 2 ^ n
        → idx < 2 ^ n
        → climb k idx (get_or prev idx (field_zero k)) (path_from k (levels_from k n prev) n 0 idx)
          ≡ node k (levels_from k n prev) n 0
    unfolding climb path_from levels_from node
    climb-path_from zero prev idx h lt =
        ap (λ (i : ℕ). get_or prev i (field_zero k)) (let e : idx ≡ 0 = omega arith in e)
    climb-path_from (suc n) prev idx h lt =
        let half : length prev ≡ 2 ^ n * 2 = omega (arith, pow-suc 2 n) in
        rw
          (
            felt_to_field-field_to_felt (get_or prev (bit_xor idx 1) (field_zero k)),
            parent_of (2 ^ n) idx prev half (omega (arith, pow-suc 2 n)),
            path_from-suc prev (levels_from k n (next_level k prev)) n 0 (idx / 2),
            climb,
          )
          (climb-path_from n (next_level k prev) (idx / 2) (length-next_level (2 ^ n) prev half)
            (omega (arith, pow-suc 2 n)))
