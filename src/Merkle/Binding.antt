-- ===== src/Merkle/Binding.antt =====
-- A path binds its leaf: two openings of one position of one root are the same, or they exhibit
-- two pairs of nodes with one hash.
use zk_api.Prelude.{
  ℕ, zero, suc, ◌/◌, ◌≡◌, refl, sym, ◌∙◌, ◌≢◌, ◌⊎◌, inl, inr, Bool, true, false, bit_and,
  Bool-cases, List, [], ◌∷◌, ◌==◌, if◌then◌else◌, length, take, arith,
}
use zk_api.Felt.{Felt252, felt_eq, felt_eq_refl, felt_eq_sound}
use zk_api.Merkle.{merkle_depth, fold_path, compute_root, verify_membership}

felt_cases : (a b : Felt252) → (a ≡ b) ⊎ (a ≢ b)
felt_cases a b = elim (Bool-cases (felt_eq a b)) [
  | inl e ↦ inl (felt_eq_sound a b e)
  | inr e ↦ inr (λ p. cc (felt_eq_refl a, e, p))
]

module _ (h : Felt252 → Felt252 → Felt252) where
  -- Two different pairs of children with one parent.
  abbrev pub Collision : Type 0
  Collision =
      (a : Felt252) × (b : Felt252) × (c : Felt252) × (d : Felt252) × (h a b ≡ h c d)
      × ((a ≢ c) ⊎ (b ≢ d))

  abbrev parent : Bool → Felt252 → Felt252 → Felt252
  parent left current sibling = if left then h current sibling else h sibling current

  collide :
      (left : Bool) (x y s u : Felt252) → x ≢ y → parent left x s ≡ parent left y u → Collision
  collide true x y s u ne e = (x, s, y, u, e, inl ne)
  collide false x y s u ne e = (s, x, u, y, e, inr ne)

  fold_path-Collision :
      (idx : ℕ) (x y : Felt252) (ss us : List Felt252)
      → length ss ≡ length us
      → x ≢ y
      → fold_path h idx x ss ≡ fold_path h idx y us
      → Collision
  unfolding fold_path
  fold_path-Collision idx x y [] [] len ne e = absurd (ne e)
  fold_path-Collision idx x y [] (u ∷ us) len ne e = absurd (omega arith)
  fold_path-Collision idx x y (s ∷ ss) [] len ne e = absurd (omega arith)
  fold_path-Collision idx x y (s ∷ ss) (u ∷ us) len ne e =
      let left = bit_and idx 1 == 0 in
      elim (felt_cases (parent left x s) (parent left y u)) [
        | inl same ↦ collide left x y s u ne same
        | inr differ ↦
            fold_path-Collision (idx / 2) (parent left x s) (parent left y u) ss us (omega arith)
              differ e
      ]

  -- Two different leaves accepted at one index under one root, with paths of 32 siblings, give a
  -- collision of the node hash: two different pairs with the same hash.
  pub verify_membership-Collision :
      (root : Felt252) (index : ℕ) (x y : Felt252) (ss us : List Felt252)
      → length ss ≡ merkle_depth
      → length us ≡ merkle_depth
      → verify_membership h root index x ss ≡ true
      → verify_membership h root index y us ≡ true
      → x ≢ y
      → Collision
  unfolding verify_membership compute_root
  verify_membership-Collision root index x y ss us ls lu hx hy ne =
      fold_path-Collision index x y (take merkle_depth ss) (take merkle_depth us)
        (omega (arith, length-take ss merkle_depth ls, length-take us merkle_depth lu)) ne
        (felt_eq_sound _ root hx ∙ sym (felt_eq_sound _ root hy))
    where
      length-take : (xs : List Felt252) (n : ℕ) → length xs ≡ n → length (take n xs) ≡ n
      length-take [] zero e = refl
      length-take [] (suc n) e = e
      length-take (z ∷ zs) zero e = refl
      length-take (z ∷ zs) (suc n) e = omega (arith, length-take zs n (omega arith))
