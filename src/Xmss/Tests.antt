-- ===== src/Xmss/Tests.antt =====
-- The XMSS trees at concrete inputs, over a small stand-in for the Stark field.
use zk_api.Prelude.{ℕ, [], ◌∷◌, ◌≡◌, refl, some, true, arith}
use zk_api.Felt.{from_u64}
use zk_api.Signature.{XmssSignature}
use zk_api.Xmss.{
  XmssKeypair, generate_with_height, root_felt, signature_at, sign, sign_reserved, verify,
  is_exhausted,
}
use zk_api.Xmss.Toy.{small_field, small_round, small_keypair}
use zk_api.Xmss.Signing.{Usage, unused, signs_reserved}
use zk_api.Xmss.Verifying.{verify-sign}

used :
    Usage small_field small_keypair
      (2 ∷ [])
      (sign_reserved small_field 2 (from_u64 9) small_keypair).1
unfolding generate_with_height sign_reserved
used =
    signs_reserved [] small_keypair 2 (from_u64 9)
      (signature_at small_field small_keypair 2 (from_u64 9)) unused refl

abbrev moved : XmssKeypair ℕ
moved = (sign_reserved small_field 2 (from_u64 9) small_keypair).1

verify-sign_example :
    ((sig : XmssSignature) × ((sign small_field (from_u64 7) moved).0
        ≡ some (sig, moved.next_index))
      × (sig.leaf_index ≡ moved.next_index)
      × (verify small_field (root_felt small_field moved) (from_u64 7) (record sig { epoch = 5 })
          ≡ true))
    × ((sig : XmssSignature) × ((sign_reserved small_field 1 (from_u64 7) moved).0 ≡ some sig)
        × (sig.leaf_index ≡ 1)
        × (verify small_field (root_felt small_field moved) (from_u64 7) (record sig { epoch = 5 })
            ≡ true))
unfolding generate_with_height sign_reserved
verify-sign_example =
    verify-sign small_field small_round 42 2 (2 ∷ []) moved (from_u64 7) 1 5 used (omega arith)
      (omega arith) (omega arith)

-- After the last of four leaves the tree is exhausted.
exhausted_test :
    is_exhausted (
      (sign small_field
        (from_u64 1)
        ((sign_reserved small_field 2 (from_u64 9) small_keypair).1)).1)
    ≡ true
unfolding is_exhausted sign sign_reserved generate_with_height
exhausted_test = refl
