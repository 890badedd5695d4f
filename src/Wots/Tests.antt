-- ===== src/Wots/Tests.antt =====
-- The one-time signatures at concrete inputs.
use zk_api.Prelude.{ℕ, List, [], ◌∷◌, ◌≡◌, refl, replicate, ◌+◌, ◌*◌, ◌%◌, ◌^◌, arith}
use mathlib.Core.List.{foldl}
use zk_api.Felt.{to_be_bytes, from_be_bytes}
use zk_api.Stark.{StarkField}
use zk_api.Wots.{
  wots_verify, wots_sign, wots_keygen, wots_len, wots_len1, digits_from, base_w_digits,
}
use zk_api.Wots.Chains.{wots_verify-wots_sign}
use zk_api.Wots.Checksum.{base_w_digits-ArePassed, ArePassed, both_end, passed}

abbrev toy_field : StarkField ℕ
unfolding to_be_bytes from_be_bytes
toy_field = record {
  poseidon_hash_many = foldl (λ acc x. (acc * 31 + x + 7) % 2 ^ 61) 5;
  to_bytes_be = to_be_bytes 32;
  from_bytes_be = from_be_bytes 0;
  from_u64 = λ n. n;
}

wots_verify-wots_sign_example :
    wots_verify toy_field (wots_sign toy_field (replicate wots_len 9) 123456) 123456
    ≡ wots_keygen toy_field (replicate wots_len 9)
wots_verify-wots_sign_example = wots_verify-wots_sign toy_field (replicate wots_len 9) 123456 refl

all_passed : (ds : List ℕ) → ArePassed ds ds
all_passed [] = both_end
all_passed (d ∷ ds) = passed d d ds ds (omega arith) (all_passed ds)

base_w_digits-ArePassed_example :
    digits_from (replicate 32 171) wots_len1 0 ≡ digits_from (replicate 32 171) wots_len1 0
base_w_digits-ArePassed_example =
    base_w_digits-ArePassed (replicate 32 171) (replicate 32 171)
      (all_passed (base_w_digits (replicate 32 171)))
