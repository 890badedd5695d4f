-- ===== src/Wots.antt =====
-- rust/crates/zkapi-crypto/src/wots.rs: Winternitz one-time signatures with w = 16. The Stark field
-- and its Poseidon hash are `starknet_crypto`'s: they enter as the record `StarkField`.
pub mod Chains
pub mod Checksum
mod Tests
use zk_api.Prelude.{
  ℕ, zero, suc, ◌+◌, ◌-◌, ◌*◌, ◌/◌, ◌%◌, ◌^◌, List, [], ◌∷◌, ◌++◌, map, Str, codes, leb, get_or,
  take, drop, if◌then◌else◌,
}
use zk_api.Stark.{StarkField, felt_to_field, domain_felt}

abbrev pub wots_w : ℕ
wots_w = 16

abbrev pub wots_len1 : ℕ
wots_len1 = 62

abbrev pub wots_len2 : ℕ
wots_len2 = 3

abbrev pub wots_len : ℕ
wots_len = 65

-- Digit `i` of the 248 low bits of 32 bytes, as the source shifts it out.
unfoldable pub digit : List ℕ → ℕ → ℕ
digit bytes i =
    let bit_offset = 8 + i * 4 in
    let byte_idx = bit_offset / 8 in
    let bit_in_byte = bit_offset % 8 in
    if leb bit_in_byte 4
    then get_or bytes byte_idx 0 / 2 ^ (4 - bit_in_byte) % 16
    else (get_or bytes byte_idx 0 * 2 ^ (bit_in_byte - 4) % 256 % 16)
      + get_or bytes (byte_idx + 1) 0 / 2 ^ (12 - bit_in_byte)

-- The digits from `i` on, `count` of them.
unfoldable pub digits_from : List ℕ → ℕ → ℕ → List ℕ
unfolding digit
digits_from bytes zero i = []
digits_from bytes (suc count) i = digit bytes i ∷ digits_from bytes count (i + 1)

unfoldable pub checksum : List ℕ → ℕ
checksum [] = 0
checksum (d ∷ ds) = wots_w - 1 - d + checksum ds

-- `len2` digits, the most significant first.
unfoldable pub checksum_digits : ℕ → ℕ → List ℕ
checksum_digits zero cs = []
checksum_digits (suc count) cs = checksum_digits count (cs / wots_w) ++ (cs % wots_w ∷ [])

-- The message's digits followed by those of its checksum.
unfoldable pub base_w_digits : List ℕ → List ℕ
unfolding digits_from checksum checksum_digits
base_w_digits bytes =
    let msg_digits = digits_from bytes wots_len1 0 in
    msg_digits ++ checksum_digits wots_len2 (checksum msg_digits)

unfoldable pub zip_with : {A B : Type 0} → (A → ℕ → B) → List A → List ℕ → List B
zip_with f [] ds = []
zip_with f (a ∷ as') [] = []
zip_with f (a ∷ as') (d ∷ ds) = f a d ∷ zip_with f as' ds

module _ {F : Type 0} (k : StarkField F) where
  unfoldable pub chain_step : F → ℕ → F
  unfolding felt_to_field domain_felt
  chain_step value step =
      k.poseidon_hash_many
        (felt_to_field k (domain_felt (codes "zkapi.xmss.chain")) ∷ value ∷ k.from_u64 step ∷ [])

  -- `steps` applications, from step `start`.
  unfoldable pub chain : F → ℕ → ℕ → F
  unfolding chain_step
  chain value start zero = value
  chain value start (suc steps) = chain (chain_step value start) (start + 1) steps

  unfoldable pub wots_keygen : List F → List F
  unfolding chain
  wots_keygen secret_key = map (λ s. chain s 0 (wots_w - 1)) secret_key

  unfoldable pub wots_pk_to_leaf : List F → F
  unfolding felt_to_field domain_felt
  wots_pk_to_leaf public_key =
      k.poseidon_hash_many (felt_to_field k (domain_felt (codes "zkapi.xmss.leaf")) ∷ public_key)

  unfoldable pub message_to_base_w : F → List ℕ
  unfolding base_w_digits
  message_to_base_w message = base_w_digits (k.to_bytes_be message)

  unfoldable pub wots_sign : List F → F → List F
  unfolding chain message_to_base_w zip_with
  wots_sign secret_key message =
      zip_with (λ s d. chain s 0 d) secret_key (message_to_base_w message)

  -- The public key that the signature leads to.
  unfoldable pub wots_verify : List F → F → List F
  unfolding chain message_to_base_w zip_with
  wots_verify signature message =
      zip_with (λ s d. chain s d (wots_w - 1 - d)) signature (message_to_base_w message)
