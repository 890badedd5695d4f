-- ===== src/Xmss/Verifying.antt =====
-- rust/crates/zkapi-crypto/src/xmss.rs: what a generated keypair signs is accepted under its root.
use zk_api.Prelude.{
  some, ℕ, ◌^◌, ◌<◌, ◌≡◌, refl, sym, ap, ap₂, ◌∙◌, List, [], ◌∷◌, map, length, get_or, true, ok,
  arith,
}
use zk_api.Felt.{Felt252, felt_eq_refl}
use zk_api.Signature.{XmssSignature, validate_for_height}
use zk_api.Stark.{StarkField, field_to_felt, felt_to_field}
use zk_api.Wots.{wots_sign, wots_keygen, wots_pk_to_leaf, wots_len, wots_verify}
use zk_api.Wots.Chains.{wots_verify-wots_sign, length-wots_sign}
use zk_api.Xmss.{
  sign_with_index, sign, sign_reserved, XmssKeypair, range_from, secret_key, secret_element, climb,
  path_from, field_zero, generate_with_height, root_felt, xmss_hash_message, signature_at,
  verify_inner, verify, verify_for_height,
}
use zk_api.Xmss.Paths.{
  get_or-map, length-map, length-range_from, get_or-range_from, length-path_from, climb-path_from,
  felt_to_field-field_to_felt,
}
use zk_api.Xmss.Signing.{IsGenerated, Usage, Usage-IsGenerated}

module _ {F : Type 0} (k : StarkField F) where
  length-secret_key : (seed : F) (i : ℕ) → length (secret_key k seed i) ≡ wots_len
  unfolding secret_key
  length-secret_key seed i =
      length-map (secret_element k seed i) (range_from 0 wots_len) ∙ length-range_from 0 wots_len

  secret_keys_at :
      (seed : F) (height i : ℕ)
      → i < 2 ^ height
      → get_or (generate_with_height k seed height).secret_keys i [] ≡ secret_key k seed i
  unfolding generate_with_height
  secret_keys_at seed height i lt =
      get_or-map (secret_key k seed) (range_from 0 (2 ^ height)) i 0 []
        (rw (length-range_from 0 (2 ^ height)) lt)
      ∙ ap (secret_key k seed) (omega (arith, get_or-range_from 0 (2 ^ height) i lt))

  leaf_of : List F → F
  leaf_of sk = wots_pk_to_leaf k (wots_keygen k sk)

  length-secret_keys :
      (seed : F) (height : ℕ) → length (generate_with_height k seed height).secret_keys ≡ 2 ^ height
  unfolding generate_with_height
  length-secret_keys seed height =
      length-map _ (range_from 0 (2 ^ height)) ∙ length-range_from 0 (2 ^ height)

  leaf_at :
      (seed : F) (height i : ℕ)
      → i < 2 ^ height
      → get_or (map leaf_of (generate_with_height k seed height).secret_keys) i (field_zero k)
        ≡ leaf_of (secret_key k seed i)
  leaf_at seed height i lt =
      get_or-map leaf_of (generate_with_height k seed height).secret_keys i [] (field_zero k)
        (rw (length-secret_keys seed height) lt)
      ∙ ap leaf_of (secret_keys_at seed height i lt)

  validate_for_height-signature_at :
      (seed : F) (kp : XmssKeypair F) (height i e : ℕ) (message : Felt252)
      → IsGenerated k seed height kp
      → height < 32
      → i < 2 ^ height
      → validate_for_height (record (signature_at k kp i message) { epoch = e }) height ≡ ok tt
  unfolding validate_for_height signature_at
  validate_for_height-signature_at seed kp height i e message g small lt =
      let sk = get_or kp.secret_keys i [] in
      let key : sk ≡ secret_key k seed i = rw g.secrets (secret_keys_at seed height i lt) in
      let long : length sk ≡ wots_len = rw key (length-secret_key seed i) in
      ground (
        arith,
        length-map (field_to_felt k) (wots_sign k sk (xmss_hash_message k message)),
        length-wots_sign k sk (xmss_hash_message k message) long,
        length-path_from k kp.tree kp.height 0 i,
        g,
      )

  sign-some :
      (kp : XmssKeypair F) (message : Felt252)
      → kp.next_index < 2 ^ kp.height
      → (sign k message kp).0 ≡ some (signature_at k kp kp.next_index message, kp.next_index)
  unfolding sign sign_with_index
  sign-some kp message lt = ground arith

  sign_reserved-some :
      (kp : XmssKeypair F) (i : ℕ) (message : Felt252)
      → i < 2 ^ kp.height
      → (sign_reserved k i message kp).0 ≡ some (signature_at k kp i message)
  unfolding sign_reserved
  sign_reserved-some kp i message lt = ground arith

  module _ (round : (x : F) → k.from_bytes_be (k.to_bytes_be x) ≡ x) where
    map_round : (xs : List F) → map (felt_to_field k) (map (field_to_felt k) xs) ≡ xs
    map_round [] = refl
    map_round (x ∷ xs) =
        ap₂ (λ (a : F) (r : List F). a ∷ r) (felt_to_field-field_to_felt k round x) (map_round xs)

    generated_climb :
        (seed : F) (height i : ℕ)
        → i < 2 ^ height
        → climb k i
            (leaf_of (secret_key k seed i))
            (path_from k (generate_with_height k seed height).tree height 0 i)
          ≡ (generate_with_height k seed height).root
    unfolding generate_with_height leaf_of
    generated_climb seed height i lt =
        let leaves = map leaf_of (generate_with_height k seed height).secret_keys in
        ap
          (λ (leaf : F).
            climb k i leaf (path_from k (generate_with_height k seed height).tree height 0 i))
          (sym (leaf_at seed height i lt))
        ∙ climb-path_from k round height leaves i
            (length-map leaf_of (generate_with_height k seed height).secret_keys
              ∙ length-secret_keys seed height)
            lt

    -- The leaf that the verifier recovers is the leaf of the tree.
    recovered_leaf :
        (seed : F) (kp : XmssKeypair F) (height i : ℕ) (message : F)
        → IsGenerated k seed height kp
        → i < 2 ^ height
        → wots_pk_to_leaf k (
            wots_verify k
              (map
                (felt_to_field k)
                (map (field_to_felt k) (wots_sign k (get_or kp.secret_keys i []) message)))
              message)
          ≡ leaf_of (secret_key k seed i)
    unfolding leaf_of
    recovered_leaf seed kp height i message g lt =
        rw
          (
            map_round (wots_sign k (get_or kp.secret_keys i []) message),
            g.secrets,
            secret_keys_at seed height i lt,
            wots_verify-wots_sign k (secret_key k seed i) message (length-secret_key seed i),
          )
          refl

    verify_inner-signature_at :
        (seed : F) (kp : XmssKeypair F) (height i e : ℕ) (message : Felt252)
        → IsGenerated k seed height kp
        → i < 2 ^ height
        → verify_inner k
            (root_felt k kp)
            message
            (record (signature_at k kp i message) { epoch = e })
          ≡ true
    unfolding verify_inner signature_at root_felt
    verify_inner-signature_at seed kp height i e message g lt =
        let leaf = recovered_leaf seed kp height i (xmss_hash_message k message) g lt in
        let top = generated_climb seed height i lt in
        rw (leaf, g.levels, g.rounds, top, g.top) (felt_eq_refl _)

    -- For a height below 32, what a generated keypair signs at a leaf, for any epoch that the caller
    -- sets, passes the structural check and the verifier under the keypair's root.
    pub verify_for_height-signature_at :
        (seed : F) (kp : XmssKeypair F) (height i e : ℕ) (message : Felt252)
        → IsGenerated k seed height kp
        → height < 32
        → i < 2 ^ height
        → (verify_for_height k
              (root_felt k kp)
              message
              (record (signature_at k kp i message) { epoch = e })
              height
            ≡ true)
          × (verify k (root_felt k kp) message (record (signature_at k kp i message) { epoch = e })
              ≡ true)
    unfolding verify_for_height verify signature_at
    verify_for_height-signature_at seed kp height i e message g small lt =
        let sig = record (signature_at k kp i message) { epoch = e } in
        let shape = validate_for_height-signature_at seed kp height i e message g small lt in
        let inner = verify_inner-signature_at seed kp height i e message g lt in
        let deep : length sig.auth_path ≡ height =
          length-path_from k kp.tree kp.height 0 i ∙ g.rounds in
        let accepted : verify_for_height k (root_felt k kp) message sig height ≡ true =
          rw (shape, verify_for_height) inner in
        (accepted, ap (verify_for_height k (root_felt k kp) message sig) deep ∙ accepted)

    -- Let a keypair be generated with a height below 32 and used by any calls, and its cursor be below
    -- the number of leaves. Then `sign` signs at the cursor and `sign_reserved` at any leaf `i` of
    -- the tree, and both signatures, with any epoch set, are verified under the keypair's root.
    pub verify-sign :
        (seed : F) (height : ℕ) (issued : List ℕ) (kp : XmssKeypair F) (message : Felt252) (i e : ℕ)
        → Usage k (generate_with_height k seed height) issued kp
        → height < 32
        → kp.next_index < 2 ^ height
        → i < 2 ^ height
        → ((sig : XmssSignature) × ((sign k message kp).0 ≡ some (sig, kp.next_index))
            × (sig.leaf_index ≡ kp.next_index)
            × (verify k (root_felt k kp) message (record sig { epoch = e }) ≡ true))
          × ((sig : XmssSignature) × ((sign_reserved k i message kp).0 ≡ some sig)
              × (sig.leaf_index ≡ i)
              × (verify k (root_felt k kp) message (record sig { epoch = e }) ≡ true))
    verify-sign seed height issued kp message i e u small room lt =
        let g = Usage-IsGenerated k seed height u in
        (
          (
            signature_at k kp kp.next_index message,
            sign-some kp message (rw g.rounds room),
            unfold signature_at in refl,
            (verify_for_height-signature_at seed kp height kp.next_index e message g small room).1,
          ),
          (
            signature_at k kp i message,
            sign_reserved-some kp i message (rw g.rounds lt),
            unfold signature_at in refl,
            (verify_for_height-signature_at seed kp height i e message g small lt).1,
          ),
        )
