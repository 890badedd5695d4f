-- ===== src/Felt/Bytes.antt =====
-- Integers and arrays of bytes: `to_be_bytes`, the order on arrays, the range check.
use zk_api.Prelude.{
  ℕ, zero, suc, ◌+◌, ◌*◌, ◌/◌, ◌%◌, ◌^◌, ◌≤◌, ◌<◌, ◌≡◌, refl, sym, ◌∙◌, ap, some, List, [], ◌∷◌,
  ◌++◌, ltb, ◌==◌, bytes_eq, take, drop, none, length, length-append, replicate, ok, err, arith,
  Bool, if◌then◌else◌,
}
use native.Mathlib.Nat.{pow-suc, one-le-pow}
use zk_api.Felt.{
  Felt252, IsBytes, to_be_bytes, from_be_bytes, from_u64, from_u128, to_u64, to_u128, bytes_lt,
  field_modulus_bytes, try_from_bytes_be, not_below_modulus,
}

pub length-to_be_bytes : (k n : ℕ) → length (to_be_bytes k n) ≡ k
unfolding to_be_bytes
length-to_be_bytes zero n = refl
length-to_be_bytes (suc k) n = omega (
  arith,
  length-append (to_be_bytes k (n / 256)) ((n % 256) ∷ []),
  length-to_be_bytes k (n / 256),
)

from_be_bytes-append :
    (xs ys : List ℕ) (acc : ℕ)
    → from_be_bytes acc (xs ++ ys) ≡ from_be_bytes (from_be_bytes acc xs) ys
unfolding from_be_bytes
from_be_bytes-append [] ys acc = refl
from_be_bytes-append (x ∷ xs) ys acc = from_be_bytes-append xs ys (acc * 256 + x)

-- Reading back the bytes of `n` gives `n`, if it fits.
pub from-to_be_bytes : (k n : ℕ) → n < 256 ^ k → from_be_bytes 0 (to_be_bytes k n) ≡ n
unfolding to_be_bytes from_be_bytes
from-to_be_bytes zero n h = omega arith
from-to_be_bytes (suc k) n h =
    from_be_bytes-append (to_be_bytes k (n / 256)) ((n % 256) ∷ []) 0
    ∙ omega (arith, from-to_be_bytes k (n / 256) (omega (arith, pow-suc 256 k)))

-- Every `u64` comes back from its field element, and so through the wider reading.
pub to_u64-from_u64 : (v : ℕ) → v < 2 ^ 64 → to_u64 (from_u64 v) ≡ some v
unfolding to_u64 from_u64
to_u64-from_u64 v h = ap (λ (n : ℕ). some n) (from-to_be_bytes 8 v h)

-- Every `u128` comes back from its field element.
pub to_u128-from_u128 : (v : ℕ) → v < 2 ^ 128 → to_u128 (from_u128 v) ≡ some v
unfolding to_u128 from_u128
to_u128-from_u128 v h = ap (λ (n : ℕ). some n) (from-to_be_bytes 16 v h)

from_be_bytes-linear :
    (xs : List ℕ) (a : ℕ) → from_be_bytes a xs ≡ a * 256 ^ length xs + from_be_bytes 0 xs
unfolding from_be_bytes
from_be_bytes-linear [] a = omega arith
from_be_bytes-linear (x ∷ xs) a = omega (
  arith,
  from_be_bytes-linear xs (a * 256 + x),
  from_be_bytes-linear xs (0 + x),
  ap (λ (t : ℕ). a * t) (pow-suc 256 (length xs)),
)

pub from_be_bytes-lt : (n : ℕ) (xs : List ℕ) → IsBytes n xs → from_be_bytes 0 xs < 256 ^ n
unfolding from_be_bytes
from_be_bytes-lt zero [] h = omega arith
from_be_bytes-lt (suc n) [] h = absurd (omega arith)
from_be_bytes-lt zero (x ∷ xs) h = absurd (omega arith)
from_be_bytes-lt (suc n) (x ∷ xs) h =
    let rest : from_be_bytes 0 xs < 256 ^ n = from_be_bytes-lt n xs (omega arith, h.1.1) in
    let e : length xs ≡ n = omega arith in
    let linear : from_be_bytes (0 + x) xs ≡ (0 + x) * 256 ^ n + from_be_bytes 0 xs =
      rw (← e) (from_be_bytes-linear xs (0 + x)) in
    let top : x * 256 ^ n ≤ 255 * 256 ^ n = grind arith in omega (arith, pow-suc 256 n)

-- The leading byte decides, then the rest.
lt_of_head : (x y p q r : ℕ) → x < y → p < q → x * q + p < y * q + r
lt_of_head x y p q r h k = let step : (x + 1) * q ≤ y * q = grind arith in omega arith

-- Arrays of one length are ordered as the numbers that they spell.
pub bytes_lt-eq-ltb :
    (n : ℕ) (xs ys : List ℕ)
    → IsBytes n xs
    → IsBytes n ys
    → bytes_lt xs ys ≡ ltb (from_be_bytes 0 xs) (from_be_bytes 0 ys)
unfolding bytes_lt from_be_bytes
bytes_lt-eq-ltb n [] [] hx hy = refl
bytes_lt-eq-ltb n [] (y ∷ ys) hx hy = absurd (omega arith)
bytes_lt-eq-ltb n (x ∷ xs) [] hx hy = absurd (omega arith)
bytes_lt-eq-ltb zero (x ∷ xs) (y ∷ ys) hx hy = absurd (omega arith)
bytes_lt-eq-ltb (suc n) (x ∷ xs) (y ∷ ys) hx hy = ground (
  arith,
  bytes_lt-eq-ltb n xs ys (omega arith, hx.1.1) (omega arith, hy.1.1),
  from_be_bytes-linear xs (0 + x),
  from_be_bytes-linear ys (0 + y),
  from_be_bytes-lt n xs (omega arith, hx.1.1),
  from_be_bytes-lt n ys (omega arith, hy.1.1),
  lt_of_head x y (from_be_bytes 0 xs) (256 ^ n) (from_be_bytes 0 ys),
  lt_of_head y x (from_be_bytes 0 ys) (256 ^ n) (from_be_bytes 0 xs),
  ap (λ (t : ℕ). 256 ^ t) (let e : length xs ≡ n = omega arith in e),
  ap (λ (t : ℕ). 256 ^ t) (let e : length ys ≡ n = omega arith in e),
)

-- The number that an array spells, and the BN254 scalar modulus.
abbrev pub value : Felt252 → ℕ
value f = from_be_bytes 0 f.bytes

abbrev pub modulus : ℕ
modulus = 0x30644e72e131a029b85045b68181585d2833e84879b9709143e1f593f0000001

abbrev pub IsFelt : Felt252 → Type 0
IsFelt f = IsBytes 32 f.bytes

-- A field element in canonical form: an array of 32 bytes below the modulus.
abbrev pub IsCanonical : Felt252 → Type 0
IsCanonical f = IsFelt f × (value f < modulus)

field_modulus_value : from_be_bytes 0 field_modulus_bytes ≡ modulus
unfolding from_be_bytes field_modulus_bytes
field_modulus_value = refl

field_modulus-IsBytes : IsBytes 32 field_modulus_bytes
unfolding field_modulus_bytes
field_modulus-IsBytes = omega arith

-- `try_from_bytes_be` accepts an array of 32 bytes exactly when the number that it spells is
-- below the BN254 scalar modulus, keeps it as it is, and refuses every other.
pub try_from_bytes_be_lem :
    (bs : List ℕ)
    → IsBytes 32 bs
    → try_from_bytes_be bs ≡ (
        if ltb (from_be_bytes 0 bs) modulus
        then ok (record { bytes = bs })
        else err not_below_modulus)
unfolding try_from_bytes_be
try_from_bytes_be_lem bs h =
    rw (bytes_lt-eq-ltb 32 bs field_modulus_bytes h field_modulus-IsBytes, field_modulus_value) refl

mul_pos : (x y : ℕ) → 0 < x → 0 < y → 0 < x * y
mul_pos x y h k = grind arith

bytes_eq_zeros :
    (n : ℕ) (xs : List ℕ) → length xs ≡ n → bytes_eq xs (replicate n 0) ≡ (from_be_bytes 0 xs == 0)
unfolding bytes_eq from_be_bytes
bytes_eq_zeros zero [] h = refl
bytes_eq_zeros (suc n) [] h = absurd (omega arith)
bytes_eq_zeros zero (x ∷ xs) h = absurd (omega arith)
bytes_eq_zeros (suc n) (x ∷ xs) h = ground (
  arith,
  bytes_eq_zeros n xs (omega arith),
  from_be_bytes-linear xs (0 + x),
  mul_pos x (256 ^ length xs),
  one-le-pow (length xs) 256,
)

take-drop-IsBytes :
    (k n : ℕ) (xs : List ℕ)
    → IsBytes (k + n) xs
    → IsBytes k (take k xs) × IsBytes n (drop k xs) × (take k xs ++ drop k xs ≡ xs)
take-drop-IsBytes zero n xs h = ((refl, tt), (omega arith, h.1), refl)
take-drop-IsBytes (suc k) n [] h = absurd (omega arith)
take-drop-IsBytes (suc k) n (x ∷ xs) h =
    let ih = take-drop-IsBytes k n xs (omega arith, h.1.1) in
    ((omega (arith, ih.0.0), (h.1.0, ih.0.1)), ih.1, ap (λ (t : List ℕ). x ∷ t) ih.2)

-- The array splits into its high and low parts.
value_split :
    (k n : ℕ) (xs : List ℕ)
    → IsBytes (k + n) xs
    → from_be_bytes 0 xs ≡ from_be_bytes 0 (take k xs) * 256 ^ n + from_be_bytes 0 (drop k xs)
value_split k n xs h =
    let (hi, lo, e) = take-drop-IsBytes k n xs h in
    ap (from_be_bytes 0) (sym e)
    ∙ from_be_bytes-append (take k xs) (drop k xs) 0
    ∙ from_be_bytes-linear (drop k xs) (from_be_bytes 0 (take k xs))
    ∙ ap (λ (t : ℕ). from_be_bytes 0 (take k xs) * 256 ^ t + from_be_bytes 0 (drop k xs)) lo.0

le_mul_of_pos : (a b : ℕ) → 0 < a → b ≤ a * b
le_mul_of_pos a b h = grind arith

-- The low part is the number just when the high part is zero.
low_part :
    (upper_zero : Bool) (a b v bound : ℕ)
    → upper_zero ≡ (a == 0)
    → v ≡ a * bound + b
    → b < bound
    → (if upper_zero then some b else none) ≡ (if ltb v bound then some v else none)
low_part upper_zero a b v bound h e lt = ground (arith, le_mul_of_pos a bound)

-- `to_u64` gives the number that the array spells if that is below 2^64, and nothing otherwise.
pub to_u64_lem :
    (f : Felt252) → IsFelt f → to_u64 f ≡ (if ltb (value f) (2 ^ 64) then some (value f) else none)
unfolding to_u64
to_u64_lem f h =
    let (hi, lo, e) = take-drop-IsBytes 24 8 f.bytes h in
    low_part _ _ _ (value f) (2 ^ 64) (bytes_eq_zeros 24 (take 24 f.bytes) hi.0)
      (value_split 24 8 f.bytes h) (from_be_bytes-lt 8 (drop 24 f.bytes) lo)

-- `to_u128` gives the number that the array spells if that is below 2^128, and nothing otherwise.
pub to_u128_lem :
    (f : Felt252)
    → IsFelt f
    → to_u128 f ≡ (if ltb (value f) (2 ^ 128) then some (value f) else none)
unfolding to_u128
to_u128_lem f h =
    let (hi, lo, e) = take-drop-IsBytes 16 16 f.bytes h in
    low_part _ _ _ (value f) (2 ^ 128) (bytes_eq_zeros 16 (take 16 f.bytes) hi.0)
      (value_split 16 16 f.bytes h) (from_be_bytes-lt 16 (drop 16 f.bytes) lo)
