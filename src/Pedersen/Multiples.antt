-- ===== src/Pedersen/Multiples.antt =====
-- rust/crates/zkapi-crypto/src/pedersen.rs: doubling and adding gives the multiples of a point.
use zk_api.Prelude.{
  ℕ, zero, suc, ◌+◌, ◌*◌, ◌/◌, ◌%◌, ◌^◌, ◌<◌, ◌≡◌, ◌↔◌, sym, ap, ap₂, ◌∙◌, List, [], ◌∷◌, Bool,
  true, false, arith, length,
}
use zk_api.Felt.{from_be_bytes}
use zk_api.Pedersen.{StarkCurve, curve_order, double_and_add, scalar_mul}

-- The number that bits spell, the lowest first.
unfoldable pub bits_value : List Bool → ℕ
bits_value [] = 0
bits_value (true ∷ bits) = 1 + bits_value bits * 2
bits_value (false ∷ bits) = bits_value bits * 2

-- The multiple of a point by repeated addition.
unfoldable pub times : {P : Type 0} → (P → P → P) → P → ℕ → P → P
times add identity zero p = identity
times add identity (suc n) p = add p (times add identity n p)

-- What the code relies on: the points are a commutative group in which the order of the curve takes
-- the two generators to the identity, equality is decided, the bits of a scalar spell its number,
-- and the numbers below 2^251 are scalars, from their 32 bytes or from a `u128`.
pub record StarkLaws {F P : Type 0} (c : StarkCurve F P) : Type 0 where
  pub add_assoc : (p q r : P) → c.add (c.add p q) r ≡ c.add p (c.add q r)
  pub add_comm : (p q : P) → c.add p q ≡ c.add q p
  pub identity_add : (p : P) → c.add c.identity p ≡ p
  pub add_neg : (p : P) → c.add p (c.neg p) ≡ c.identity
  pub order_g : times c.add c.identity curve_order c.g_balance ≡ c.identity
  pub order_h : times c.add c.identity curve_order c.h_blind ≡ c.identity
  pub point_eq_iff : (p q : P) → (c.point_eq p q ≡ true) ↔ (p ≡ q)
  pub bits : (x : F) → bits_value (c.to_bits_le x) ≡ c.to_biguint x
  pub bytes :
      (bs : List ℕ)
      → length bs ≡ 32
      → from_be_bytes 0 bs < curve_order
      → c.to_biguint (c.from_bytes_be bs) ≡ from_be_bytes 0 bs
  pub u128 : (n : ℕ) → n < 2 ^ 128 → c.to_biguint (c.from_u128 n) ≡ n

module _ {F P : Type 0} (c : StarkCurve F P) (laws : StarkLaws c) where
  abbrev pub multiple : ℕ → P → P
  multiple n p = times c.add c.identity n p

  pub add_identity : (p : P) → c.add p c.identity ≡ p
  add_identity p = laws.add_comm p c.identity ∙ laws.identity_add p

  pub times-add : (a b : ℕ) (p : P) → multiple (a + b) p ≡ c.add (multiple a p) (multiple b p)
  unfolding times
  times-add zero b p =
      ap (λ (n : ℕ). multiple n p) (let e : 0 + b ≡ b = omega arith in e)
      ∙ sym (laws.identity_add (multiple b p))
  times-add (suc a) b p =
      ap (λ (n : ℕ). multiple n p) (let e : suc a + b ≡ suc (a + b) = omega arith in e)
      ∙ ap (c.add p) (times-add a b p)
      ∙ sym (laws.add_assoc p (multiple a p) (multiple b p))

  times_double : (n : ℕ) (p : P) → multiple n (c.add p p) ≡ multiple (n * 2) p
  unfolding times
  times_double zero p = ap (λ (n : ℕ). multiple n p) (let e : 0 ≡ 0 * 2 = omega arith in e)
  times_double (suc n) p =
      ap (c.add (c.add p p)) (times_double n p)
      ∙ laws.add_assoc p p (multiple (n * 2) p)
      ∙ ap (λ (m : ℕ). multiple m p) (let e : suc (suc (n * 2)) ≡ suc n * 2 = omega arith in e)

  double_and_add-times :
      (result temp : P) (bits : List Bool)
      → double_and_add c result temp bits ≡ c.add result (multiple (bits_value bits) temp)
  unfolding double_and_add bits_value times
  double_and_add-times result temp [] = sym (add_identity result)
  double_and_add-times result temp (true ∷ bits) =
      double_and_add-times (c.add result temp) (c.add temp temp) bits
      ∙ ap (c.add (c.add result temp)) (times_double (bits_value bits) temp)
      ∙ laws.add_assoc result temp (multiple (bits_value bits * 2) temp)
      ∙ ap (λ (n : ℕ). c.add result (multiple n temp))
          (let e : suc (bits_value bits * 2) ≡ 1 + bits_value bits * 2 = omega arith in e)
  double_and_add-times result temp (false ∷ bits) =
      double_and_add-times result (c.add temp temp) bits
      ∙ ap (c.add result) (times_double (bits_value bits) temp)

  -- Under the laws of the curve, the double-and-add loop over the bits of a scalar gives the point
  -- added to itself as often as the scalar's number says.
  pub scalar_mul-times :
      (point : P) (scalar : F)
      → scalar_mul c point scalar ≡ times c.add c.identity (c.to_biguint scalar) point
  unfolding scalar_mul
  scalar_mul-times point scalar =
      double_and_add-times c.identity point (c.to_bits_le scalar)
      ∙ laws.identity_add (multiple (bits_value (c.to_bits_le scalar)) point)
      ∙ ap (λ (n : ℕ). multiple n point) (laws.bits scalar)

  times_order :
      (k : ℕ) (p : P)
      → multiple curve_order p ≡ c.identity
      → multiple (k * curve_order) p ≡ c.identity
  unfolding times
  times_order zero p h =
      ap (λ (m : ℕ). multiple m p) (let e : 0 * curve_order ≡ 0 = omega arith in e)
  times_order (suc k) p h =
      ap (λ (m : ℕ). multiple m p)
        (let e : suc k * curve_order ≡ curve_order + k * curve_order = omega arith in e)
      ∙ times-add curve_order (k * curve_order) p
      ∙ ap₂ c.add h (times_order k p h)
      ∙ laws.identity_add c.identity

  -- A point that the order takes to the identity is not moved by multiples of the order.
  pub times-mod :
      (n : ℕ) (p : P)
      → multiple curve_order p ≡ c.identity
      → multiple (n % curve_order) p ≡ multiple n p
  times-mod n p h = sym (
      ap (λ (m : ℕ). multiple m p)
        (let e : n ≡ n / curve_order * curve_order + n % curve_order = omega arith in e)
      ∙ times-add (n / curve_order * curve_order) (n % curve_order) p
      ∙ ap (λ (q : P). c.add q (multiple (n % curve_order) p)) (times_order (n / curve_order) p h)
      ∙ laws.identity_add (multiple (n % curve_order) p))
