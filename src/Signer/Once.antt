-- ===== src/Signer/Once.antt =====
-- rust/crates/zkapi-server/src/signer.rs: in every history of a table, the leaves of each tree grow.
use zk_api.Prelude.{
  [], ◌∷◌, All-lt_mono, ◌∙◌, Result, sym, ℕ, ◌<◌, ◌≡◌, Bool, true, List, err, ok, All, arith,
}
use zk_api.Felt.{Felt252}
use zk_api.Stark.{StarkField}
use zk_api.Signature.{XmssSignature}
use zk_api.Signer.{
  ServerError, ServerSigner, sign_next_state, sign_state, sign_clearance, sign_durable, leaf_of,
}
use zk_api.Signer.Table.{state, clear, SignerStateStore, as_str}
use zk_api.Signer.Leaves.{counter, reserve_leaf_mono}
use zk_api.Signer.Signatures.{
  History, created, opens, stops, signs_state, fails_state, signs_message, fails_message,
  signs_clearance, fails_clearance, Signs, Grows, sign_durable-Signs, sign_durable-Grows,
  state_as_durable, message_as_durable, clearance_as_durable, counter-with_height_durable,
}

-- Each leaf, the last one first, is above those before it.
abbrev pub AreDescending : List ℕ → Type 0
AreDescending [] = Unit {0}
AreDescending (leaf ∷ issued) = All (λ i. i < leaf) issued × AreDescending issued

leaf_of_ok :
    (signed : Result ServerError (XmssSignature × ℕ × Felt252)) (sig : XmssSignature) (leaf : ℕ)
    → leaf_of signed ≡ ok (sig, leaf)
    → (message : Felt252) × (signed ≡ ok (sig, leaf, message))
leaf_of_ok (ok (sig', leaf', message)) sig leaf h = (message, ground arith)
leaf_of_ok (err e) sig leaf h = absurd (ground arith)

module _ {F : Type 0} (k : StarkField F) where
  -- Both trees' leaves are below their counters.
  pub record AreBelow (a b : List ℕ) (table : SignerStateStore) : Type 0 where
    pub states : All (λ i. i < counter (as_str state) table) a
    pub clears : All (λ i. i < counter (as_str clear) table) b

  AreBelow-Grows :
      (a b : List ℕ) (t u : SignerStateStore) → Grows k t u → AreBelow a b t → AreBelow a b u
  AreBelow-Grows a b t u g h = record {
    states = All-lt_mono _ _ a g.states h.states;
    clears = All-lt_mono _ _ b g.clears h.clears;
  }

  -- The signatures of the three calls are at the counters, and the calls move no counter back.
  state-Signs :
      (reachable : Bool) (build : ℕ → Felt252) (s : ServerSigner F) (table : SignerStateStore)
      (sig : XmssSignature) (leaf : ℕ) (message : Felt252)
      → s.durable_state ≡ true
      → (sign_next_state k reachable build s table).0 ≡ ok (sig, leaf, message)
      → Signs k state sig table ((sign_next_state k reachable build s table).2)
  state-Signs reachable build s table sig leaf message d h =
      let same = state_as_durable k reachable build s table d in
      rw (same.1) (
        sign_durable-Signs k reachable state s.state_epoch build s.state_keypair table sig leaf
          message (sym (same.0) ∙ h))

  state-Grows :
      (reachable : Bool) (build : ℕ → Felt252) (s : ServerSigner F) (table : SignerStateStore)
      → s.durable_state ≡ true
      → Grows k table ((sign_next_state k reachable build s table).2)
  state-Grows reachable build s table d =
      rw ((state_as_durable k reachable build s table d).1)
        (sign_durable-Grows k reachable state s.state_epoch build s.state_keypair table)

  message-Signs :
      (reachable : Bool) (message : Felt252) (s : ServerSigner F) (table : SignerStateStore)
      (sig : XmssSignature) (leaf : ℕ)
      → s.durable_state ≡ true
      → (sign_state k reachable message s table).0 ≡ ok (sig, leaf)
      → Signs k state sig table ((sign_state k reachable message s table).2)
  message-Signs reachable message s table sig leaf d h =
      let build : ℕ → Felt252 = λ _. message in
      let same = message_as_durable k reachable message s table d in
      let signed = (sign_durable k reachable state s.state_epoch build s.state_keypair table).0 in
      let (m, e) = leaf_of_ok signed sig leaf (sym (same.0) ∙ h) in
      rw (same.1) (
        sign_durable-Signs k reachable state s.state_epoch build s.state_keypair table sig leaf m e)

  message-Grows :
      (reachable : Bool) (message : Felt252) (s : ServerSigner F) (table : SignerStateStore)
      → s.durable_state ≡ true
      → Grows k table ((sign_state k reachable message s table).2)
  message-Grows reachable message s table d =
      rw ((message_as_durable k reachable message s table d).1)
        (sign_durable-Grows k reachable state s.state_epoch (λ _. message) s.state_keypair table)

  clearance-Signs :
      (reachable : Bool) (message : Felt252) (s : ServerSigner F) (table : SignerStateStore)
      (sig : XmssSignature) (leaf : ℕ)
      → s.durable_state ≡ true
      → (sign_clearance k reachable message s table).0 ≡ ok (sig, leaf)
      → Signs k clear sig table ((sign_clearance k reachable message s table).2)
  clearance-Signs reachable message s table sig leaf d h =
      let build : ℕ → Felt252 = λ _. message in
      let same = clearance_as_durable k reachable message s table d in
      let signed = (sign_durable k reachable clear s.clear_epoch build s.clear_keypair table).0 in
      let (m, e) = leaf_of_ok signed sig leaf (sym (same.0) ∙ h) in
      rw (same.1) (
        sign_durable-Signs k reachable clear s.clear_epoch build s.clear_keypair table sig leaf m e)

  clearance-Grows :
      (reachable : Bool) (message : Felt252) (s : ServerSigner F) (table : SignerStateStore)
      → s.durable_state ≡ true
      → Grows k table ((sign_clearance k reachable message s table).2)
  clearance-Grows reachable message s table d =
      rw ((clearance_as_durable k reachable message s table d).1)
        (sign_durable-Grows k reachable clear s.clear_epoch (λ _. message) s.clear_keypair table)

  leaves_below :
      (a b : List ℕ) {table : SignerStateStore} → History k a b table → AreBelow a b table
  leaves_below a b created = record { states = tt; clears = tt }
  leaves_below a b (opens _ _ t r ss cs e h past) =
      AreBelow-Grows a b t _
        (record {
          states = omega (arith, counter-with_height_durable k (as_str state) r ss cs e h t);
          clears = omega (arith, counter-with_height_durable k (as_str clear) r ss cs e h t);
        })
        (leaves_below a b past)
  leaves_below a b (stops _ _ t r tree e root c past) =
      AreBelow-Grows a b t _
        (record {
          states = reserve_leaf_mono r tree state e root c t;
          clears = reserve_leaf_mono r tree clear e root c t;
        })
        (leaves_below a b past)
  leaves_below _ b (signs_state a _ t r build s sig leaf m past d h) =
      let c = state-Signs r build s t sig leaf m d h in
      let rest = AreBelow-Grows a b t _ (state-Grows r build s t d) (leaves_below a b past) in
      record { states = (omega (arith, c.past), rest.states); clears = rest.clears }
  leaves_below a b (fails_state _ _ t r build s e past d h) =
      AreBelow-Grows a b t _ (state-Grows r build s t d) (leaves_below a b past)
  leaves_below _ b (signs_message a _ t r m s sig leaf past d h) =
      let c = message-Signs r m s t sig leaf d h in
      let rest = AreBelow-Grows a b t _ (message-Grows r m s t d) (leaves_below a b past) in
      record { states = (omega (arith, c.past), rest.states); clears = rest.clears }
  leaves_below a b (fails_message _ _ t r m s e past d h) =
      AreBelow-Grows a b t _ (message-Grows r m s t d) (leaves_below a b past)
  leaves_below a _ (signs_clearance _ b t r m s sig leaf past d h) =
      let c = clearance-Signs r m s t sig leaf d h in
      let rest = AreBelow-Grows a b t _ (clearance-Grows r m s t d) (leaves_below a b past) in
      record { states = rest.states; clears = (omega (arith, c.past), rest.clears) }
  leaves_below a b (fails_clearance _ _ t r m s e past d h) =
      AreBelow-Grows a b t _ (clearance-Grows r m s t d) (leaves_below a b past)

  -- In every history of the table, from its creation, with any signers that share it, restarts,
  -- failures and processes that stop, the leaf index of every signature given out in the state
  -- tree, by either state call, is above all those given out in it before, and so in the
  -- clearance tree.
  pub leaves-AreDescending :
      (a b : List ℕ) {table : SignerStateStore}
      → History k a b table
      → AreDescending a × AreDescending b
  leaves-AreDescending a b created = (tt, tt)
  leaves-AreDescending a b (opens _ _ t r ss cs e h past) = leaves-AreDescending a b past
  leaves-AreDescending a b (stops _ _ t r tree e root c past) = leaves-AreDescending a b past
  leaves-AreDescending _ b (signs_state a _ t r build s sig leaf m past d h) =
      let below = leaves_below a b past in
      let c = state-Signs r build s t sig leaf m d h in
      let rest = leaves-AreDescending a b past in
      ((All-lt_mono _ sig.leaf_index a (omega (arith, c.at)) below.states, rest.0), rest.1)
  leaves-AreDescending a b (fails_state _ _ t r build s e past d h) = leaves-AreDescending a b past
  leaves-AreDescending _ b (signs_message a _ t r m s sig leaf past d h) =
      let below = leaves_below a b past in
      let c = message-Signs r m s t sig leaf d h in
      let rest = leaves-AreDescending a b past in
      ((All-lt_mono _ sig.leaf_index a (omega (arith, c.at)) below.states, rest.0), rest.1)
  leaves-AreDescending a b (fails_message _ _ t r m s e past d h) = leaves-AreDescending a b past
  leaves-AreDescending a _ (signs_clearance _ b t r m s sig leaf past d h) =
      let below = leaves_below a b past in
      let c = clearance-Signs r m s t sig leaf d h in
      let rest = leaves-AreDescending a b past in
      (rest.0, (All-lt_mono _ sig.leaf_index b (omega (arith, c.at)) below.clears, rest.1))
  leaves-AreDescending a b (fails_clearance _ _ t r m s e past d h) = leaves-AreDescending a b past
