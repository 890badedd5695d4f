-- ===== src/Signer/Signatures.antt =====
-- rust/crates/zkapi-server/src/signer.rs: no leaf of a tree signs twice, whatever signers share the
-- table, restart, fail or stop after a reservation; and what a signer signs is verified.
use zk_api.Prelude.{
  sym, ap, ◌∙◌, refl, ◌+◌, ◌≤◌, Str, ℕ, ◌≡◌, Bool, true, List, [], ◌∷◌, err, ok, arith,
}
use zk_api.Felt.{Felt252}
use zk_api.Signature.{XmssSignature}
use zk_api.Stark.{StarkField}
use zk_api.Server.{ServerError}
use zk_api.Xmss.{XmssKeypair, root_felt, capacity, signature_at}
use zk_api.Signer.Accepted.{sign_durable-IsSignedAt}
use zk_api.Signer.{
  leaf_of, sign_tree, ensure_tree, with_height, ServerSigner, with_height_durable, open_store,
  sign_durable, sign_next_state, sign_state, sign_clearance,
}
use zk_api.Signer.Table.{as_str, SignerTree, state, clear, SignerStateStore, reserve_leaf}
use zk_api.Signer.Leaves.{reserve_leaf-counter, reserve_leaf_mono, counter, counter-ensure_tree}

module _ {F : Type 0} (k : StarkField F) where
  -- Uses of one table by any signers with a connection to it, with the leaf indices of the
  -- signatures given out in the state tree and in the clearance tree, the last ones first. `stops` is a process that ends
  -- between a reservation and the signature.
  pub data History : List ℕ → List ℕ → SignerStateStore → Type 0 where
    created : History [] [] []
    opens :
        (a b : List ℕ) (table : SignerStateStore) (reachable : Bool) (state_seed clear_seed : F)
        (epoch height : ℕ)
        → History a b table
        → History a b ((with_height_durable k reachable state_seed clear_seed epoch height table).1)
    stops :
        (a b : List ℕ) (table : SignerStateStore) (reachable : Bool) (tree : SignerTree) (epoch : ℕ)
        (root : Felt252) (capacity : ℕ)
        → History a b table
        → History a b ((reserve_leaf reachable tree epoch root capacity table).1)
    signs_state :
        (a b : List ℕ) (table : SignerStateStore) (reachable : Bool) (build : ℕ → Felt252)
        (s : ServerSigner F) (sig : XmssSignature) (leaf : ℕ) (message : Felt252)
        → History a b table
        → s.durable_state ≡ true
        → (sign_next_state k reachable build s table).0 ≡ ok (sig, leaf, message)
        → History (sig.leaf_index ∷ a) b ((sign_next_state k reachable build s table).2)
    fails_state :
        (a b : List ℕ) (table : SignerStateStore) (reachable : Bool) (build : ℕ → Felt252)
        (s : ServerSigner F) (e : ServerError)
        → History a b table
        → s.durable_state ≡ true
        → (sign_next_state k reachable build s table).0 ≡ err e
        → History a b ((sign_next_state k reachable build s table).2)
    signs_message :
        (a b : List ℕ) (table : SignerStateStore) (reachable : Bool) (message : Felt252)
        (s : ServerSigner F) (sig : XmssSignature) (leaf : ℕ)
        → History a b table
        → s.durable_state ≡ true
        → (sign_state k reachable message s table).0 ≡ ok (sig, leaf)
        → History (sig.leaf_index ∷ a) b ((sign_state k reachable message s table).2)
    fails_message :
        (a b : List ℕ) (table : SignerStateStore) (reachable : Bool) (message : Felt252)
        (s : ServerSigner F) (e : ServerError)
        → History a b table
        → s.durable_state ≡ true
        → (sign_state k reachable message s table).0 ≡ err e
        → History a b ((sign_state k reachable message s table).2)
    signs_clearance :
        (a b : List ℕ) (table : SignerStateStore) (reachable : Bool) (message : Felt252)
        (s : ServerSigner F) (sig : XmssSignature) (leaf : ℕ)
        → History a b table
        → s.durable_state ≡ true
        → (sign_clearance k reachable message s table).0 ≡ ok (sig, leaf)
        → History a (sig.leaf_index ∷ b) ((sign_clearance k reachable message s table).2)
    fails_clearance :
        (a b : List ℕ) (table : SignerStateStore) (reachable : Bool) (message : Felt252)
        (s : ServerSigner F) (e : ServerError)
        → History a b table
        → s.durable_state ≡ true
        → (sign_clearance k reachable message s table).0 ≡ err e
        → History a b ((sign_clearance k reachable message s table).2)

  pub counter-with_height_durable :
      (kind : Str) (reachable : Bool) (ss cs : F) (epoch height : ℕ) (table : SignerStateStore)
      → counter kind ((with_height_durable k reachable ss cs epoch height table).1)
        ≡ counter kind table
  unfolding with_height_durable open_store
  counter-with_height_durable kind reachable ss cs epoch height table =
      let s = with_height k ss cs epoch height in
      let made = ensure_tree reachable state epoch (root_felt k s.state_keypair) table in
      ground (
        arith,
        counter-ensure_tree kind reachable state epoch (root_felt k s.state_keypair) table,
        counter-ensure_tree kind reachable clear epoch (root_felt k s.clear_keypair) (made.1),
      )

  -- A durable signature is at the leaf that was reserved for it.
  sign_durable_table :
      (reachable : Bool) (tree : SignerTree) (epoch : ℕ) (build : ℕ → Felt252) (kp : XmssKeypair F)
      (table : SignerStateStore)
      → (sign_durable k reachable tree epoch build kp table).2
        ≡ (reserve_leaf reachable tree epoch (root_felt k kp) (capacity kp) table).1
  unfolding sign_durable
  sign_durable_table reachable tree epoch build kp table = ground arith

  sign_durable_leaf :
      (reachable : Bool) (tree : SignerTree) (epoch : ℕ) (build : ℕ → Felt252) (kp : XmssKeypair F)
      (table : SignerStateStore) (sig : XmssSignature) (leaf : ℕ) (message : Felt252)
      → (sign_durable k reachable tree epoch build kp table).0 ≡ ok (sig, leaf, message)
      → (reserve_leaf reachable tree epoch (root_felt k kp) (capacity kp) table).0 ≡ ok leaf
  unfolding sign_durable
  sign_durable_leaf reachable tree epoch build kp table sig leaf message h = ground arith

  -- A signature at the counter of its tree, which moves past it.
  pub record Signs (tree : SignerTree) (sig : XmssSignature) (t u : SignerStateStore) : Type 0 where
    pub at : sig.leaf_index ≡ counter (as_str tree) t
    pub past : counter (as_str tree) u ≡ sig.leaf_index + 1

  -- No counter moves back.
  pub record Grows (t u : SignerStateStore) : Type 0 where
    pub states : counter (as_str state) t ≤ counter (as_str state) u
    pub clears : counter (as_str clear) t ≤ counter (as_str clear) u

  pub sign_durable-Signs :
      (reachable : Bool) (tree : SignerTree) (epoch : ℕ) (build : ℕ → Felt252) (kp : XmssKeypair F)
      (table : SignerStateStore) (sig : XmssSignature) (leaf : ℕ) (message : Felt252)
      → (sign_durable k reachable tree epoch build kp table).0 ≡ ok (sig, leaf, message)
      → Signs tree sig table ((sign_durable k reachable tree epoch build kp table).2)
  sign_durable-Signs reachable tree epoch build kp table sig leaf message h =
      let c =
        reserve_leaf-counter reachable tree epoch (root_felt k kp) (capacity kp) leaf table
          (sign_durable_leaf reachable tree epoch build kp table sig leaf message h) in
      let signed =
        sign_durable-IsSignedAt k reachable tree epoch build kp table sig leaf message h in
      let own : sig.leaf_index ≡ leaf =
        ap (λ (x : XmssSignature). x.leaf_index) signed.signed ∙ (unfold signature_at in refl) in
      rw (sign_durable_table reachable tree epoch build kp table)
        (record { at = own ∙ c.0; past = c.2 ∙ ap (λ (n : ℕ). n + 1) (sym own) })

  pub sign_durable-Grows :
      (reachable : Bool) (tree : SignerTree) (epoch : ℕ) (build : ℕ → Felt252) (kp : XmssKeypair F)
      (table : SignerStateStore)
      → Grows table ((sign_durable k reachable tree epoch build kp table).2)
  sign_durable-Grows reachable tree epoch build kp table =
      rw (sign_durable_table reachable tree epoch build kp table) (record {
        states = reserve_leaf_mono reachable tree state epoch (root_felt k kp) (capacity kp) table;
        clears = reserve_leaf_mono reachable tree clear epoch (root_felt k kp) (capacity kp) table;
      })

  pub state_as_durable :
      (reachable : Bool) (build : ℕ → Felt252) (s : ServerSigner F) (table : SignerStateStore)
      → s.durable_state ≡ true
      → ((sign_next_state k reachable build s table).0
          ≡ (sign_durable k reachable state s.state_epoch build s.state_keypair table).0)
        × ((sign_next_state k reachable build s table).2
            ≡ (sign_durable k reachable state s.state_epoch build s.state_keypair table).2)
  unfolding sign_next_state sign_tree
  state_as_durable reachable build s table d = ground arith

  pub clearance_as_durable :
      (reachable : Bool) (message : Felt252) (s : ServerSigner F) (table : SignerStateStore)
      → s.durable_state ≡ true
      → ((sign_clearance k reachable message s table).0
          ≡ leaf_of (
              (sign_durable k reachable clear s.clear_epoch
                (λ _. message)
                s.clear_keypair
                table).0))
        × ((sign_clearance k reachable message s table).2
            ≡ (sign_durable k reachable clear s.clear_epoch (λ _. message) s.clear_keypair table).2)
  unfolding sign_clearance sign_tree
  clearance_as_durable reachable message s table d = ground arith

  pub message_as_durable :
      (reachable : Bool) (message : Felt252) (s : ServerSigner F) (table : SignerStateStore)
      → s.durable_state ≡ true
      → ((sign_state k reachable message s table).0
          ≡ leaf_of (
              (sign_durable k reachable state s.state_epoch
                (λ _. message)
                s.state_keypair
                table).0))
        × ((sign_state k reachable message s table).2
            ≡ (sign_durable k reachable state s.state_epoch (λ _. message) s.state_keypair table).2)
  unfolding sign_state sign_tree
  message_as_durable reachable message s table d = ground arith
