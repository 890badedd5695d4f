-- ===== src/Felt/Hex.antt =====
-- `to_hex` and `from_hex`: the text form in JSON and in the database's key column.
use zk_api.Prelude.{
  ℕ, suc, ◌-◌, ◌*◌, ◌/◌, ◌%◌, ◌≤◌, ◌<◌, ◌≡◌, refl, sym, ◌∙◌, ap, true, inl, inr, some, List, [],
  ◌∷◌, ◌++◌, Str, ◌==◌, length, replicate, All, Result, ok, ◌>>=◌, ensure, ◌>>◌, ltb, arith, leb,
  Bool-cases, ◌≢◌,
}
use zk_api.Felt.{
  Felt252, IsBytes, FeltError, from_digit, to_digit, join_digits, from_str_radix, parse_pairs,
  hex_digits, trim_zeros, or_zero, to_hex, from_hex, strip_prefix2, try_from_bytes_be,
}
use zk_api.Felt.Bytes.{IsFelt, IsCanonical, value, modulus, try_from_bytes_be_lem}

from_to_digit : (d : ℕ) → d < 16 → from_digit (to_digit d) ≡ some d
unfolding from_digit to_digit
from_to_digit d h = ground arith

to_digit_bounds : (d : ℕ) → d < 16 → (48 ≤ to_digit d) × (to_digit d ≤ 102)
unfolding to_digit
to_digit_bounds d h = ground arith

from_str_radix-digits :
    (b : ℕ) → b < 256 → from_str_radix (to_digit (b / 16)) (to_digit (b % 16)) ≡ some b
unfolding from_str_radix join_digits
from_str_radix-digits b h =
    ground (arith, from_to_digit (b / 16), from_to_digit (b % 16), to_digit_bounds (b / 16))

parse_pairs-hex_digits : (bs : List ℕ) → All (λ b. b < 256) bs → parse_pairs (hex_digits bs) ≡ ok bs
unfolding parse_pairs hex_digits
parse_pairs-hex_digits [] h = refl
parse_pairs-hex_digits (b ∷ bs) h = rw (from_str_radix-digits b h.0, parse_pairs-hex_digits bs h.1)

length-hex_digits : (bs : List ℕ) → length (hex_digits bs) ≡ 2 * length bs
unfolding hex_digits
length-hex_digits [] = refl
length-hex_digits (b ∷ bs) = omega (arith, length-hex_digits bs)

length-trim_zeros : (s : Str) → length (trim_zeros s) ≤ length s
unfolding trim_zeros
length-trim_zeros [] = omega arith
length-trim_zeros (c ∷ s) = ground (arith, length-trim_zeros s)

pad_step :
    (c : ℕ) (s t : Str) (k m : ℕ)
    → c ≡ 48
    → k ≡ suc m
    → replicate m 48 ++ t ≡ s
    → replicate k 48 ++ t ≡ c ∷ s
pad_step c s t k m e h r = rw (h, e) (ap (λ (t : Str). 48 ∷ t) r)

-- Padding undoes the trimming of leading zeros.
pad-trim_zeros :
    (s : Str) (k : ℕ) → k ≡ length s - length (trim_zeros s) → replicate k 48 ++ trim_zeros s ≡ s
unfolding trim_zeros
pad-trim_zeros [] k h = rw h refl
pad-trim_zeros (c ∷ s) k h = elim (Bool-cases (c == 48)) [
  | inl e ↦ rw e (
      pad_step c s (trim_zeros s) k (length s - length (trim_zeros s)) (ground arith)
        (ground (arith, length-trim_zeros s))
        (pad-trim_zeros s (length s - length (trim_zeros s)) refl))
  | inr e ↦ rw e (let z : k ≡ 0 = ground arith in rw z refl)
]

-- A trimmed text starts with no zero.
trim_zeros-head : (s : Str) (c : ℕ) (t : Str) → trim_zeros s ≡ c ∷ t → c ≢ 48
unfolding trim_zeros
trim_zeros-head [] c t h = cc
trim_zeros-head (x ∷ s) c t h = elim (Bool-cases (x == 48)) [
  | inl e ↦ trim_zeros-head s c t (ground arith)
  | inr e ↦ ground arith
]

strip_other : (b c : ℕ) (s : Str) → c ≢ 48 → strip_prefix2 48 b (c ∷ s) ≡ c ∷ s
unfolding strip_prefix2
strip_other b c [] h = refl
strip_other b c (y ∷ s) h = ground arith

-- What `from_hex_checked` does once the prefixes are off.
abbrev from_digits : Str → Result FeltError Felt252
from_digits s = do
  ensure (leb (length s) 64) FeltError.too_long
  bs ← parse_pairs (replicate (64 - length s) 48 ++ s)
  try_from_bytes_be bs

from_digits_trimmed :
    (f : Felt252) → IsCanonical f → from_digits (trim_zeros (hex_digits f.bytes)) ≡ ok f
from_digits_trimmed f h =
    let s = trim_zeros (hex_digits f.bytes) in
    let n : length (hex_digits f.bytes) ≡ 64 = omega (arith, length-hex_digits f.bytes) in
    let short : leb (length s) 64 ≡ true = ground (arith, length-trim_zeros (hex_digits f.bytes)) in
    let padded : replicate (64 - length s) 48 ++ s ≡ hex_digits f.bytes =
      pad-trim_zeros (hex_digits f.bytes) (64 - length s) (omega arith) in
    let parsed = parse_pairs-hex_digits f.bytes h.0.1 in
    let in_range : ltb (value f) modulus ≡ true = ground arith in
    rw (short, padded, parsed) (try_from_bytes_be_lem f.bytes h.0 ∙ rw in_range refl)

from_hex-or_zero :
    (bs : List ℕ) (t : Str) → trim_zeros (hex_digits bs) ≡ t → from_hex (or_zero t) ≡ from_digits t
unfolding from_hex or_zero strip_prefix2
from_hex-or_zero bs [] h = refl
from_hex-or_zero bs (c ∷ s) h = rw (strip_other 88 c s (trim_zeros-head (hex_digits bs) c s h)) refl

-- A canonical element reads back from the text that it is written as.
pub from_hex-to_hex : (f : Felt252) → IsCanonical f → from_hex (to_hex f) ≡ ok f
unfolding to_hex
from_hex-to_hex f h =
    from_hex-or_zero f.bytes (trim_zeros (hex_digits f.bytes)) refl ∙ from_digits_trimmed f h

or_zero-injective :
    (t u : Str)
    → ((c : ℕ) (s : Str) → t ≡ c ∷ s → c ≢ 48)
    → ((c : ℕ) (s : Str) → u ≡ c ∷ s → c ≢ 48)
    → or_zero t ≡ or_zero u
    → t ≡ u
unfolding or_zero
or_zero-injective [] [] ht hu e = refl
or_zero-injective [] (c ∷ u) ht hu e = absurd (hu c u refl (ground arith))
or_zero-injective (c ∷ t) [] ht hu e = absurd (ht c t refl (ground arith))
or_zero-injective (c ∷ t) (d ∷ u) ht hu e = ground arith

-- Trimmed texts of one length are equal only if the texts are.
hex_digits-injective :
    (bs cs : List ℕ)
    → IsBytes 32 bs
    → IsBytes 32 cs
    → trim_zeros (hex_digits bs) ≡ trim_zeros (hex_digits cs)
    → bs ≡ cs
hex_digits-injective bs cs hb hc e =
    let k = length (hex_digits bs) - length (trim_zeros (hex_digits bs)) in
    let k_cs : k ≡ length (hex_digits cs) - length (trim_zeros (hex_digits cs)) =
      omega (arith, length-hex_digits bs, length-hex_digits cs, ap length e) in
    let texts : hex_digits bs ≡ hex_digits cs =
      sym (pad-trim_zeros (hex_digits bs) k refl)
      ∙ ap (λ (t : Str). replicate k 48 ++ t) e
      ∙ pad-trim_zeros (hex_digits cs) k k_cs in
    cc (parse_pairs-hex_digits bs hb.1, parse_pairs-hex_digits cs hc.1, ap parse_pairs texts)

-- Two arrays of 32 bytes are written as the same text only if they are the same.
pub to_hex-injective : (f g : Felt252) → IsFelt f → IsFelt g → to_hex f ≡ to_hex g → f ≡ g
unfolding to_hex
to_hex-injective f g hf hg e =
    let texts =
      or_zero-injective _ _ (trim_zeros-head (hex_digits f.bytes))
        (trim_zeros-head (hex_digits g.bytes)) e in
    let arrays = hex_digits-injective f.bytes g.bytes hf hg texts in
    λ i. record { bytes = arrays i }
