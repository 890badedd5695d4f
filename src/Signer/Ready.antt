-- ===== src/Signer/Ready.antt =====
-- rust/crates/zkapi-server/src/signer.rs: when a signer has a leaf for a state signature.
use zk_api.Prelude.{ℕ, ◌<◌, ◌≤◌, ◌^◌, ◌≡◌, Bool, true, false, some, ok, arith}
use zk_api.Felt.{Felt252, to_hex}
use zk_api.Stark.{StarkField}
use zk_api.Xmss.{sign_with_index, signature_at}
use zk_api.Signer.{ServerSigner, state_root, sign_next_state, sign_tree, sign_in_memory}
use zk_api.Signer.Table.{SignerRow, SignerStateStore, state, as_str, select_tree}
use zk_api.Signer.Accepted.{sign_next_state-ok}

module _ {F : Type 0} (k : StarkField F) where
  -- The leaf that the next state signature takes: with a table that is served, the counter of the
  -- row that is this signer's; without one, the cursor of the keypair; in both, with leaves left.
  pub data IsReady (reachable : Bool) (s : ServerSigner F) (table : SignerStateStore) (leaf : ℕ)
      : Type 0 where
    in_table :
        (row : SignerRow)
        → reachable ≡ true
        → s.durable_state ≡ true
        → select_tree (as_str state) table ≡ some row
        → row.epoch ≡ s.state_epoch
        → row.root ≡ to_hex (state_root k s)
        → row.next_leaf ≡ leaf
        → leaf < 2 ^ s.state_keypair.height
        → 2 ^ s.state_keypair.height ≤ 2 ^ 32
        → IsReady reachable s table leaf
    in_memory :
        s.durable_state ≡ false
        → s.state_keypair.next_index ≡ leaf
        → leaf < 2 ^ s.state_keypair.height
        → IsReady reachable s table leaf

  pub sign_next_state-IsReady :
      (reachable : Bool) (build : ℕ → Felt252) (s : ServerSigner F) (table : SignerStateStore)
      (leaf : ℕ)
      → IsReady reachable s table leaf
      → (sign_next_state k reachable build s table).0
        ≡ ok (
          record (signature_at k s.state_keypair leaf (build leaf)) { epoch = s.state_epoch },
          leaf,
          build leaf,
        )
  unfolding sign_next_state sign_tree sign_in_memory sign_with_index
  sign_next_state-IsReady reachable build s table leaf (in_table row up d found e r at lt le) =
      let signed = sign_next_state-ok k build s table row d found e r (omega arith) le in
      ground (arith, signed)
  sign_next_state-IsReady reachable build s table leaf (in_memory d at lt) = ground arith
