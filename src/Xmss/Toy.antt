-- ===== src/Xmss/Toy.antt =====
-- A small stand-in for the Stark field, and a keypair over it.
use zk_api.Prelude.{ℕ, [], ◌∷◌, ◌++◌, ◌≡◌, replicate, ◌+◌, ◌*◌, ◌%◌, arith}
use mathlib.Core.List.{foldl}
use zk_api.Felt.{from_be_bytes}
use zk_api.Stark.{StarkField}
use zk_api.Xmss.{XmssKeypair, generate_with_height}

-- Every number is the last of its 32 bytes.
abbrev pub small_field : StarkField ℕ
small_field = record {
  poseidon_hash_many = foldl (λ acc x. (acc * 31 + x + 7) % 61) 5;
  to_bytes_be = λ n. replicate 31 0 ++ n ∷ [];
  from_bytes_be = from_be_bytes 0;
  from_u64 = λ n. n;
}

pub small_round : (x : ℕ) → small_field.from_bytes_be (small_field.to_bytes_be x) ≡ x
unfolding from_be_bytes
small_round x = omega arith

abbrev pub small_keypair : XmssKeypair ℕ
small_keypair = generate_with_height small_field 42 2
