-- ===== src/Wots/Chains.antt =====
-- rust/crates/zkapi-crypto/src/wots.rs: a signature leads back to the public key.
use zk_api.Prelude.{
  ◌*◌, ◌/◌, ◌%◌, ℕ, zero, suc, ◌+◌, ◌-◌, ◌<◌, ◌≤◌, ◌≡◌, refl, sym, ap, ap₂, ◌∙◌, List, [], ◌∷◌,
  ◌++◌, map, length, arith, length-append,
}
use zk_api.Stark.{StarkField}
use zk_api.Wots.{
  wots_len, wots_len1, wots_len2, digit, digits_from, checksum, checksum_digits, base_w_digits,
  zip_with, chain, chain_step, wots_keygen, message_to_base_w, wots_sign, wots_verify,
}

-- Every digit is below 16.
pub data AreDigits : List ℕ → Type 0 where
  no_digits : AreDigits []
  a_digit : (d : ℕ) (ds : List ℕ) → d < 16 → AreDigits ds → AreDigits (d ∷ ds)

AreDigits-append : (xs ys : List ℕ) → AreDigits xs → AreDigits ys → AreDigits (xs ++ ys)
AreDigits-append _ ys no_digits h = h
AreDigits-append _ ys (a_digit d ds lt rest) h =
    a_digit d (ds ++ ys) lt (AreDigits-append ds ys rest h)

bit_in_byte : (i : ℕ) → (8 + i * 4) % 8 ≤ 4
bit_in_byte i = omega arith

digit-lt : (bytes : List ℕ) (i : ℕ) → digit bytes i < 16
unfolding digit
digit-lt bytes i = ground (arith, bit_in_byte i)

pub digits_from-AreDigits : (bytes : List ℕ) (count i : ℕ) → AreDigits (digits_from bytes count i)
unfolding digits_from
digits_from-AreDigits bytes zero i = no_digits
digits_from-AreDigits bytes (suc count) i =
    a_digit _ _ (digit-lt bytes i) (digits_from-AreDigits bytes count (i + 1))

checksum_digits-AreDigits : (count cs : ℕ) → AreDigits (checksum_digits count cs)
unfolding checksum_digits
checksum_digits-AreDigits zero cs = no_digits
checksum_digits-AreDigits (suc count) cs =
    AreDigits-append _ _ (checksum_digits-AreDigits count (cs / 16))
      (a_digit _ _ (omega arith) no_digits)

pub length-digits_from : (bytes : List ℕ) (count i : ℕ) → length (digits_from bytes count i) ≡ count
unfolding digits_from
length-digits_from bytes zero i = refl
length-digits_from bytes (suc count) i = ground (arith, length-digits_from bytes count (i + 1))

length-checksum_digits : (count cs : ℕ) → length (checksum_digits count cs) ≡ count
unfolding checksum_digits
length-checksum_digits zero cs = refl
length-checksum_digits (suc count) cs = omega (
  arith,
  length-append (checksum_digits count (cs / 16)) (cs % 16 ∷ []),
  length-checksum_digits count (cs / 16),
)

module _ {F : Type 0} (k : StarkField F) where
  -- A chain runs on from where another has stopped.
  chain-chain :
      (x : F) (start a b : ℕ) → chain k (chain k x start a) (start + a) b ≡ chain k x start (a + b)
  unfolding chain
  chain-chain x start zero b =
      ap₂ (λ (s t : ℕ). chain k x s t) (let e : start + 0 ≡ start = omega arith in e)
        (let e : b ≡ 0 + b = omega arith in e)
  chain-chain x start (suc a) b =
      ap (λ (s : ℕ). chain k (chain k (chain_step k x start) (start + 1) a) s b)
        (let e : start + suc a ≡ start + 1 + a = omega arith in e)
      ∙ chain-chain (chain_step k x start) (start + 1) a b
      ∙ sym (ap (chain k x start) (let e : suc a + b ≡ suc (a + b) = omega arith in e))

  chain_complete : (x : F) (d : ℕ) → d < 16 → chain k (chain k x 0 d) d (15 - d) ≡ chain k x 0 15
  chain_complete x d lt =
      ap (λ (s : ℕ). chain k (chain k x 0 d) s (15 - d)) (let e : d ≡ 0 + d = omega arith in e)
      ∙ chain-chain x 0 d (15 - d)
      ∙ ap (chain k x 0) (let e : d + (15 - d) ≡ 15 = omega arith in e)

  zip_chains :
      (ds : List ℕ) (sk : List F)
      → AreDigits ds
      → length ds ≡ length sk
      → zip_with (λ s d. chain k s d (15 - d)) (zip_with (λ s d. chain k s 0 d) sk ds) ds
        ≡ map (λ s. chain k s 0 15) sk
  unfolding zip_with
  zip_chains _ [] no_digits e = refl
  zip_chains _ (s ∷ sk) no_digits e = absurd (omega arith)
  zip_chains _ [] (a_digit d ds lt h) e = refl
  zip_chains _ (s ∷ sk) (a_digit d ds lt h) e =
      ap₂ (λ (x : F) (xs : List F). x ∷ xs) (chain_complete s d lt)
        (zip_chains ds sk h (omega arith))

  length-zip_with :
      (start : ℕ) (sk : List F) (ds : List ℕ)
      → length ds ≡ length sk
      → length (zip_with (λ s d. chain k s start d) sk ds) ≡ length sk
  unfolding zip_with
  length-zip_with start [] ds e = refl
  length-zip_with start (s ∷ sk) [] e = absurd (omega arith)
  length-zip_with start (s ∷ sk) (d ∷ ds) e = ap suc (length-zip_with start sk ds (omega arith))

  length-message_to_base_w : (message : F) → length (message_to_base_w k message) ≡ wots_len
  unfolding message_to_base_w base_w_digits
  length-message_to_base_w message =
      let msg = digits_from (k.to_bytes_be message) wots_len1 0 in
      omega (
        arith,
        length-append msg (checksum_digits wots_len2 (checksum msg)),
        length-digits_from (k.to_bytes_be message) 62 0,
        length-checksum_digits 3 (checksum msg),
      )

  pub length-wots_sign :
      (secret_key : List F) (message : F)
      → length secret_key ≡ wots_len
      → length (wots_sign k secret_key message) ≡ wots_len
  unfolding wots_sign
  length-wots_sign secret_key message n =
      length-zip_with 0 secret_key (message_to_base_w k message)
        (length-message_to_base_w message ∙ sym n)
      ∙ n

  -- Verifying the signature that a secret key of 65 elements makes of any message gives the public
  -- key of that secret key.
  pub wots_verify-wots_sign :
      (secret_key : List F) (message : F)
      → length secret_key ≡ wots_len
      → wots_verify k (wots_sign k secret_key message) message ≡ wots_keygen k secret_key
  unfolding wots_verify wots_sign wots_keygen message_to_base_w base_w_digits
  wots_verify-wots_sign secret_key message n =
      let bytes = k.to_bytes_be message in
      let msg = digits_from bytes wots_len1 0 in
      let cs = checksum_digits wots_len2 (checksum msg) in
      zip_chains (msg ++ cs) secret_key
        (AreDigits-append msg cs (digits_from-AreDigits bytes 62 0)
          (checksum_digits-AreDigits 3 (checksum msg)))
        (omega (
          arith,
          length-append msg cs,
          length-digits_from bytes 62 0,
          length-checksum_digits 3 (checksum msg),
        ))
