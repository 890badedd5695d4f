-- ===== src/Felt.antt =====
-- rust/crates/zkapi-types/src/felt.rs: 32-byte big-endian field elements and their hex form.
-- A text is the list of its bytes; `from_hex` is modelled on ASCII texts, where the slices of
-- two bytes that the source takes are two characters.
pub mod Bytes
pub mod Hex
mod Tests
use zk_api.Prelude.{
  ℕ, zero, suc, ◌+◌, ◌-◌, ◌*◌, ◌/◌, ◌%◌, ◌^◌, ◌≤◌, ◌<◌, ◌≡◌, refl, Bool, true, false, ◌&&◌, Option,
  none, some, List, [], ◌∷◌, ◌++◌, Str, codes, ltb, leb, ◌==◌, bytes_eq, bytes_eq_refl,
  bytes_eq_sound, if◌then◌else◌, length, take, drop, replicate, All, Result, ok, err, ◌>>=◌, ◌>>◌,
  ensure, arith,
}

-- `[u8; 32]`, big-endian.
pub record Felt252 : Type 0 where
  pub bytes : List ℕ

-- The derived `PartialEq`.
unfoldable pub felt_eq : Felt252 → Felt252 → Bool
felt_eq a b = bytes_eq a.bytes b.bytes

pub felt_eq_refl : (a : Felt252) → felt_eq a a ≡ true
unfolding felt_eq
felt_eq_refl a = bytes_eq_refl a.bytes

pub felt_eq_sound : (a b : Felt252) → felt_eq a b ≡ true → a ≡ b
unfolding felt_eq
felt_eq_sound a b h i = record { bytes = bytes_eq_sound a.bytes b.bytes h i }

abbrev pub felt_zero : Felt252
felt_zero = record { bytes = replicate 32 0 }

abbrev pub felt_one : Felt252
felt_one = record { bytes = replicate 31 0 ++ 1 ∷ [] }

-- An array of `n` bytes.
abbrev pub IsBytes : ℕ → List ℕ → Type 0
IsBytes n bs = (length bs ≡ n) × All (λ b. b < 256) bs

-- `to_be_bytes` of an unsigned integer of `k` bytes, and `from_be_bytes`.
unfoldable pub to_be_bytes : ℕ → ℕ → List ℕ
to_be_bytes zero n = []
to_be_bytes (suc k) n = to_be_bytes k (n / 256) ++ (n % 256) ∷ []

unfoldable pub from_be_bytes : ℕ → List ℕ → ℕ
from_be_bytes acc [] = acc
from_be_bytes acc (b ∷ bs) = from_be_bytes (acc * 256 + b) bs

unfoldable pub from_u64 : ℕ → Felt252
unfolding to_be_bytes
from_u64 val = record { bytes = replicate 24 0 ++ to_be_bytes 8 val }

unfoldable pub from_u128 : ℕ → Felt252
unfolding to_be_bytes
from_u128 val = record { bytes = replicate 16 0 ++ to_be_bytes 16 val }

unfoldable pub to_u64 : Felt252 → Option ℕ
unfolding from_be_bytes bytes_eq
to_u64 f =
    if bytes_eq (take 24 f.bytes) (replicate 24 0)
    then some (from_be_bytes 0 (drop 24 f.bytes))
    else none

unfoldable pub to_u128 : Felt252 → Option ℕ
unfolding from_be_bytes bytes_eq
to_u128 f =
    if bytes_eq (take 16 f.bytes) (replicate 16 0)
    then some (from_be_bytes 0 (drop 16 f.bytes))
    else none

unfoldable pub is_zero : Felt252 → Bool
unfolding bytes_eq
is_zero f = bytes_eq f.bytes (replicate 32 0)

pub data FeltError : Type 0 where
  not_below_modulus too_long invalid_hex : FeltError

-- A hex digit as `from_str_radix` reads it: both cases.
from_digit : ℕ → Option ℕ
from_digit c =
    if leb 48 c && leb c 57
    then some (c - 48)
    else (if leb 97 c && leb c 102
        then some (c - 87)
        else (if leb 65 c && leb c 70 then some (c - 55) else none))

join_digits : Option ℕ → Option ℕ → Option ℕ
join_digits (some a) (some b) = some (a * 16 + b)
join_digits _ _ = none

-- `u8::from_str_radix` on two characters; the standard library takes a leading `+`.
from_str_radix : ℕ → ℕ → Option ℕ
unfolding from_digit join_digits
from_str_radix a b = if a == 43 then from_digit b else join_digits (from_digit a) (from_digit b)

push_byte : Option ℕ → Result FeltError (List ℕ) → Result FeltError (List ℕ)
push_byte none rest = err invalid_hex
push_byte (some b) rest = rest >>= λ bs. ok (b ∷ bs)

-- The loop of `from_hex_checked` over the pairs of the padded text.
parse_pairs : List ℕ → Result FeltError (List ℕ)
unfolding from_str_radix push_byte
parse_pairs (a ∷ b ∷ rest) = push_byte (from_str_radix a b) (parse_pairs rest)
parse_pairs _ = ok []

pub field_modulus_hex : Str
field_modulus_hex = codes "30644e72e131a029b85045b68181585d2833e84879b9709143e1f593f0000001"

abbrev bytes_or_empty : Result FeltError (List ℕ) → List ℕ
bytes_or_empty (ok bs) = bs
bytes_or_empty (err e) = []

unfoldable pub field_modulus_bytes : List ℕ
unfolding parse_pairs field_modulus_hex
field_modulus_bytes = bytes_or_empty (parse_pairs field_modulus_hex)

-- `<` on byte arrays is lexicographic.
unfoldable pub bytes_lt : List ℕ → List ℕ → Bool
bytes_lt [] [] = false
bytes_lt [] (y ∷ ys) = true
bytes_lt (x ∷ xs) [] = false
bytes_lt (x ∷ xs) (y ∷ ys) = if x == y then bytes_lt xs ys else ltb x y

unfoldable pub try_from_bytes_be : List ℕ → Result FeltError Felt252
unfolding bytes_lt field_modulus_bytes
try_from_bytes_be bs =
    if bytes_lt bs field_modulus_bytes then ok (record { bytes = bs }) else err not_below_modulus

strip_prefix2 : ℕ → ℕ → Str → Str
strip_prefix2 a b (x ∷ y ∷ rest) = if (x == a) && (y == b) then rest else x ∷ y ∷ rest
strip_prefix2 a b s = s

unfoldable pub from_hex_checked : Str → Result FeltError Felt252
unfolding strip_prefix2 parse_pairs try_from_bytes_be
from_hex_checked s0 = do
  let s1 = strip_prefix2 48 120 s0
  let s = strip_prefix2 48 88 s1
  ensure (leb (length s) 64) too_long
  bs ← parse_pairs (replicate (64 - length s) 48 ++ s)
  try_from_bytes_be bs

unfoldable pub from_hex : Str → Result FeltError Felt252
unfolding from_hex_checked
from_hex s = from_hex_checked s

to_digit : ℕ → ℕ
to_digit d = if ltb d 10 then 48 + d else 87 + d

hex_digits : List ℕ → Str
unfolding to_digit
hex_digits [] = []
hex_digits (b ∷ bs) = to_digit (b / 16) ∷ to_digit (b % 16) ∷ hex_digits bs

trim_zeros : Str → Str
trim_zeros [] = []
trim_zeros (c ∷ s) = if c == 48 then trim_zeros s else c ∷ s

or_zero : Str → Str
or_zero [] = 48 ∷ 120 ∷ 48 ∷ []
or_zero (c ∷ s) = 48 ∷ 120 ∷ c ∷ s

unfoldable pub to_hex : Felt252 → Str
unfolding hex_digits trim_zeros or_zero
to_hex f = or_zero (trim_zeros (hex_digits f.bytes))
