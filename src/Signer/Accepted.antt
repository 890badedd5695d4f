-- ===== src/Signer/Accepted.antt =====
-- rust/crates/zkapi-server/src/signer.rs: the signatures that a signer gives out are verified.
use zk_api.Prelude.{
  true, ◌≤◌, true, sym, ap, refl, ◌∙◌, Bool-cases, Result-cases, Option-cases, ℕ, ◌<◌, ◌^◌, ◌≡◌,
  Bool, some, ok, arith, inl, inr,
}
use zk_api.Felt.{to_hex, Felt252}
use zk_api.Stark.{StarkField}
use zk_api.Signature.{XmssSignature}
use zk_api.Xmss.{
  verify, XmssKeypair, root_felt, capacity, sign_reserved, sign_with_index, signature_at,
}
use zk_api.Signer.{
  state, sign_tree, ServerSigner, state_root, sign_next_state, sign_durable, sign_in_memory,
}
use zk_api.Xmss.Signing.{IsGenerated}
use zk_api.Xmss.Verifying.{verify_for_height-signature_at}
use zk_api.Signer.Leaves.{reserve_leaf-ok}
use zk_api.Signer.Table.{SignerRow, select_tree, as_str, SignerTree, SignerStateStore, reserve_leaf}

module _ {F : Type 0} (k : StarkField F) where
  -- A signature of the keypair at a leaf of its tree, under an epoch.
  pub record IsSignedAt (kp : XmssKeypair F) (epoch : ℕ) (build : ℕ → Felt252) (sig : XmssSignature)
      (leaf : ℕ) (m : Felt252) : Type 0 where
    pub within : leaf < 2 ^ kp.height
    pub built : m ≡ build leaf
    pub signed : sig ≡ record (signature_at k kp leaf (build leaf)) { epoch = epoch }

  sign_reserved-some :
      (leaf : ℕ) (m : Felt252) (kp : XmssKeypair F) (sig : XmssSignature)
      → (sign_reserved k leaf m kp).0 ≡ some sig
      → (leaf < 2 ^ kp.height) × (sig ≡ signature_at k kp leaf m)
  unfolding sign_reserved
  sign_reserved-some leaf m kp sig h = ground arith

  sign_with_index-some :
      (build : ℕ → Felt252) (kp : XmssKeypair F) (sig : XmssSignature) (leaf : ℕ) (m : Felt252)
      → (sign_with_index k build kp).0 ≡ some (sig, leaf, m)
      → (leaf < 2 ^ kp.height) × (m ≡ build leaf) × (sig ≡ signature_at k kp leaf (build leaf))
  unfolding sign_with_index
  sign_with_index-some build kp sig leaf m h = ground arith

  pub sign_durable-IsSignedAt :
      (reachable : Bool) (tree : SignerTree) (epoch : ℕ) (build : ℕ → Felt252) (kp : XmssKeypair F)
      (table : SignerStateStore) (sig : XmssSignature) (leaf : ℕ) (m : Felt252)
      → (sign_durable k reachable tree epoch build kp table).0 ≡ ok (sig, leaf, m)
      → IsSignedAt kp epoch build sig leaf m
  unfolding sign_durable
  sign_durable-IsSignedAt reachable tree epoch build kp table sig leaf m h =
      elim (Result-cases
        ((reserve_leaf reachable tree epoch (root_felt k kp) (capacity kp) table).0)) [
          | inr (e, failed) ↦ absurd (ground arith)
          | inl (l, reserved) ↦ elim (Option-cases ((sign_reserved k l (build l) kp).0)) [
            | inl nothing ↦ absurd (ground arith)
            | inr (sig0, some0) ↦
                let c = sign_reserved-some l (build l) kp sig0 some0 in ground arith
          ]
        ]

  pub sign_in_memory-IsSignedAt :
      (epoch : ℕ) (build : ℕ → Felt252) (kp : XmssKeypair F) (sig : XmssSignature) (leaf : ℕ)
      (m : Felt252)
      → (sign_in_memory k epoch build kp).0 ≡ ok (sig, leaf, m)
      → IsSignedAt kp epoch build sig leaf m
  unfolding sign_in_memory
  sign_in_memory-IsSignedAt epoch build kp sig leaf m h =
      elim (Option-cases ((sign_with_index k build kp).0)) [
        | inl nothing ↦ absurd (ground arith)
        | inr ((sig0, l, m0), some0) ↦
            let c = sign_with_index-some build kp sig0 l m0 some0 in ground arith
      ]

  pub sign_next_state-IsSignedAt :
      (reachable : Bool) (build : ℕ → Felt252) (s : ServerSigner F) (table : SignerStateStore)
      (sig : XmssSignature) (leaf : ℕ) (m : Felt252)
      → (sign_next_state k reachable build s table).0 ≡ ok (sig, leaf, m)
      → IsSignedAt s.state_keypair s.state_epoch build sig leaf m
  unfolding sign_next_state sign_tree
  sign_next_state-IsSignedAt reachable build s table sig leaf m h =
      elim (Bool-cases s.durable_state) [
        | inl durable ↦
            sign_durable-IsSignedAt reachable state s.state_epoch build s.state_keypair table sig
              leaf m (ground arith)
        | inr memory ↦
            sign_in_memory-IsSignedAt s.state_epoch build s.state_keypair sig leaf m (ground arith)
      ]

  -- A durable signer signs at the counter of its row while the tree has leaves left.
  pub sign_next_state-ok :
      (build : ℕ → Felt252) (s : ServerSigner F) (table : SignerStateStore) (row : SignerRow)
      → s.durable_state ≡ true
      → select_tree (as_str state) table ≡ some row
      → row.epoch ≡ s.state_epoch
      → row.root ≡ to_hex (state_root k s)
      → row.next_leaf < 2 ^ s.state_keypair.height
      → 2 ^ s.state_keypair.height ≤ 2 ^ 32
      → (sign_next_state k true build s table).0
        ≡ ok (
          record (signature_at k s.state_keypair row.next_leaf (build row.next_leaf)) {
            epoch = s.state_epoch;
          },
          row.next_leaf,
          build row.next_leaf,
        )
  unfolding sign_next_state sign_tree sign_durable sign_reserved capacity state_root
  sign_next_state-ok build s table row d found e r lt le = ground (
    arith,
    reserve_leaf-ok state s.state_epoch (root_felt k s.state_keypair) (2 ^ s.state_keypair.height)
        table row found e r lt le,
  )

  -- A signing call moves at most the cursor of the keypair.
  sign_next_state-IsGenerated :
      (seed : F) (height : ℕ) (reachable : Bool) (build : ℕ → Felt252) (s : ServerSigner F)
      (table : SignerStateStore)
      → IsGenerated k seed height s.state_keypair
      → IsGenerated k seed height ((sign_next_state k reachable build s table).1.state_keypair)
  unfolding sign_next_state sign_tree sign_durable sign_in_memory sign_reserved sign_with_index
  sign_next_state-IsGenerated seed height reachable build s table g = ground (arith, g)

  module _ (round : (x : F) → k.from_bytes_be (k.to_bytes_be x) ≡ x) where
    -- When the state keypair is one generated with a height below 32, up to its cursor, a state
    -- signature that the signer gives out, with or without a table, is for the message built from
    -- its own leaf, which is in the tree, carries the epoch of the signer, and is verified under its
    -- state root; and the keypair stays the generated one.
    pub sign_next_state-verify :
        (seed : F) (height : ℕ) (reachable : Bool) (build : ℕ → Felt252) (s : ServerSigner F)
        (table : SignerStateStore) (sig : XmssSignature) (leaf : ℕ) (m : Felt252)
        → IsGenerated k seed height s.state_keypair
        → height < 32
        → (sign_next_state k reachable build s table).0 ≡ ok (sig, leaf, m)
        → (m ≡ build leaf)
          × (leaf < 2 ^ height)
          × (sig.leaf_index ≡ leaf)
          × (sig.epoch ≡ s.state_epoch)
          × (verify k (state_root k s) m sig ≡ true)
          × IsGenerated k seed height ((sign_next_state k reachable build s table).1.state_keypair)
    unfolding state_root
    sign_next_state-verify seed height reachable build s table sig leaf m g small h =
        let at = sign_next_state-IsSignedAt reachable build s table sig leaf m h in
        let lt : leaf < 2 ^ height = rw (sym g.rounds) at.within in
        (
          at.built,
          lt,
          ap (λ (x : XmssSignature). x.leaf_index) at.signed ∙ (unfold signature_at in refl),
          ap (λ (x : XmssSignature). x.epoch) at.signed,
          rw (at.built, at.signed)
              ((verify_for_height-signature_at k round seed s.state_keypair height leaf
                s.state_epoch (build leaf) g small lt).1),
          sign_next_state-IsGenerated seed height reachable build s table g,
        )
