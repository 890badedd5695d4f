-- ===== src/Xmss/Signing.antt =====
-- rust/crates/zkapi-crypto/src/xmss.rs: over any calls on a generated keypair, its signatures are
-- accepted under its root, and `sign` never hands out a leaf that was handed out before.
use zk_api.Prelude.{All-lt_mono, ℕ, ◌+◌, ◌<◌, ◌≤◌, ◌≡◌, refl, List, [], ◌∷◌, some, All, arith}
use zk_api.Felt.{Felt252}
use zk_api.Signature.{XmssSignature}
use zk_api.Stark.{StarkField}
use zk_api.Xmss.{XmssKeypair, generate_with_height, sign_with_index, sign, sign_reserved}

module _ {F : Type 0} (k : StarkField F) where
  -- Calls on a keypair, with the leaves that they have handed out, the last one first.
  pub data Usage (start : XmssKeypair F) : List ℕ → XmssKeypair F → Type 0 where
    unused : Usage start [] start
    signs :
        (issued : List ℕ) (kp : XmssKeypair F) (build_message : ℕ → Felt252) (sig : XmssSignature)
        (idx : ℕ) (message : Felt252)
        → Usage start issued kp
        → (sign_with_index k build_message kp).0 ≡ some (sig, idx, message)
        → Usage start (idx ∷ issued) ((sign_with_index k build_message kp).1)
    signs_reserved :
        (issued : List ℕ) (kp : XmssKeypair F) (index : ℕ) (message : Felt252) (sig : XmssSignature)
        → Usage start issued kp
        → (sign_reserved k index message kp).0 ≡ some sig
        → Usage start (index ∷ issued) ((sign_reserved k index message kp).1)

  -- The keypair that was generated, up to its cursor.
  pub record IsGenerated (seed : F) (height : ℕ) (kp : XmssKeypair F) : Type 0 where
    pub secrets : kp.secret_keys ≡ (generate_with_height k seed height).secret_keys
    pub levels : kp.tree ≡ (generate_with_height k seed height).tree
    pub top : kp.root ≡ (generate_with_height k seed height).root
    pub rounds : kp.height ≡ height

  pub Usage-IsGenerated :
      (seed : F) (height : ℕ) {issued : List ℕ} {kp : XmssKeypair F}
      → Usage (generate_with_height k seed height) issued kp
      → IsGenerated seed height kp
  unfolding sign_with_index sign_reserved
  Usage-IsGenerated seed height unused = record {
    secrets = refl;
    levels = refl;
    top = refl;
    rounds = unfold generate_with_height in refl;
  }
  Usage-IsGenerated seed height (signs issued kp build sig idx m u e) =
      let g = Usage-IsGenerated seed height u in ground (arith, g)
  Usage-IsGenerated seed height (signs_reserved issued kp index m sig u e) =
      let g = Usage-IsGenerated seed height u in ground (arith, g)

  signs_cursor :
      (kp : XmssKeypair F) (build : ℕ → Felt252) (sig : XmssSignature) (idx : ℕ) (message : Felt252)
      → (sign_with_index k build kp).0 ≡ some (sig, idx, message)
      → (idx ≡ kp.next_index) × ((sign_with_index k build kp).1.next_index ≡ idx + 1)
  unfolding sign_with_index
  signs_cursor kp build sig idx message e = ground arith

  signs_reserved_cursor :
      (kp : XmssKeypair F) (index : ℕ) (message : Felt252) (sig : XmssSignature)
      → (sign_reserved k index message kp).0 ≡ some sig
      → (index < (sign_reserved k index message kp).1.next_index)
        × (kp.next_index ≤ (sign_reserved k index message kp).1.next_index)
  unfolding sign_reserved
  signs_reserved_cursor kp index message sig e = ground arith

  -- The cursor stands above every leaf handed out.
  pub Usage-lt :
      {start : XmssKeypair F} {issued : List ℕ} {kp : XmssKeypair F}
      → Usage start issued kp
      → All (λ i. i < kp.next_index) issued
  Usage-lt unused = tt
  Usage-lt (signs issued kp build sig idx m u e) =
      let c = signs_cursor kp build sig idx m e in
      (omega arith, All-lt_mono kp.next_index _ issued (omega arith) (Usage-lt u))
  Usage-lt (signs_reserved issued kp index m sig u e) =
      let c = signs_reserved_cursor kp index m sig e in
      (c.0, All-lt_mono kp.next_index _ issued (c.1) (Usage-lt u))

  sign_cursor :
      (kp : XmssKeypair F) (message : Felt252) (sig : XmssSignature) (idx : ℕ)
      → (sign k message kp).0 ≡ some (sig, idx)
      → kp.next_index ≤ idx
  unfolding sign sign_with_index
  sign_cursor kp message sig idx e = ground arith

  -- After any calls on a keypair, a leaf that `sign` hands out is above every leaf that `sign`,
  -- `sign_with_index` and `sign_reserved` have handed out before.
  pub sign-IsFresh :
      (start kp : XmssKeypair F) (issued : List ℕ) (message : Felt252) (sig : XmssSignature)
      (idx : ℕ)
      → Usage start issued kp
      → (sign k message kp).0 ≡ some (sig, idx)
      → All (λ i. i < idx) issued
  sign-IsFresh start kp issued message sig idx u e =
      All-lt_mono kp.next_index idx issued (sign_cursor kp message sig idx e) (Usage-lt u)
