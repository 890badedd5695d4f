-- ===== src/Prelude/Bits.antt =====
-- `&` and `^` with the constant 1, as remainders: the parity test and the sibling index.
use Prim.Native.Nat.{ℕ, zero, suc, ◌+◌, ◌-◌, ◌*◌, ◌/◌, ◌%◌, ◌≤◌, ◌<◌, min}
use Prim.Native.Nat.{bit_and, bit_xor, digits, differ, bit_and-bitwise, bit_xor-bitwise}
use mathlib.Core.Path.{◌≡◌, refl}
use native.Mathlib.Omega.{arith}

abbrev keep : ℕ → ℕ
keep b = b

abbrev clear : ℕ → ℕ
clear b = 0

and_zero_fuel : (n a : ℕ) → a ≤ n → digits clear min n a 0 ≡ 0
and_zero_fuel zero a h = refl
and_zero_fuel (suc n) zero h = refl
and_zero_fuel (suc n) (suc a) h = omega (arith, and_zero_fuel n (suc a / 2) (omega arith))

differ-zero : (x y : ℕ) → y ≡ 0 → differ x y ≡ x
differ-zero zero y h = h
differ-zero (suc x) zero h = refl
differ-zero (suc x) (suc y) h = absurd (omega arith)

differ-one : (x y : ℕ) → y ≡ 1 → x < 2 → differ x y ≡ 1 - x
differ-one zero y h k = omega arith
differ-one (suc x) zero h k = absurd (omega arith)
differ-one (suc x) (suc y) h k = omega (arith, differ-zero x y (omega arith))

xor_zero_fuel : (n a : ℕ) → a ≤ n → digits keep differ n a 0 ≡ a
xor_zero_fuel zero zero h = refl
xor_zero_fuel zero (suc a) h = absurd (omega arith)
xor_zero_fuel (suc n) zero h = refl
xor_zero_fuel (suc n) (suc a) h = omega (
  arith,
  xor_zero_fuel n (suc a / 2) (omega arith),
  differ-zero (suc a % 2) (0 % 2) (omega arith),
)

pub bit_and-one : (a : ℕ) → bit_and a 1 ≡ a % 2
bit_and-one zero = rw bit_and-bitwise refl
bit_and-one (suc a) = rw bit_and-bitwise (omega (arith, and_zero_fuel a (suc a / 2) (omega arith)))

-- The sibling of node `a` is the other child of the same parent.
pub bit_xor-one : (a : ℕ) → bit_xor a 1 ≡ a / 2 * 2 + (1 - a % 2)
bit_xor-one zero = rw bit_xor-bitwise refl
bit_xor-one (suc a) = rw bit_xor-bitwise (
    omega (
      arith,
      xor_zero_fuel a (suc a / 2) (omega arith),
      differ-one (suc a % 2) (1 % 2) (omega arith) (omega arith),
    ))
