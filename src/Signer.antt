-- ===== src/Signer.antt =====
-- rust/crates/zkapi-server/src/signer.rs: the server's two XMSS keypairs, and the table in which a
-- durable signer reserves its leaves. The table is outside the process: a call takes it and returns
-- it, with the signer. A first argument says that the lock, the connection and the disk serve the
-- call, which otherwise fails and rolls back; the messages of such errors leave out SQLite's text
-- and the values that they print.
pub mod Table
pub mod Leaves
pub mod Signatures
pub mod Once
pub mod Accepted
pub mod Clearance
pub mod Ready
mod Tests
use zk_api.Prelude.{
  ℕ, ◌+◌, ◌-◌, ◌^◌, Bool, true, false, List, [], ◌∷◌, ◌++◌, Str, codes, ltb, leb, ◌==◌, ◌&&◌,
  bytes_eq, Option, none, some, Result, err, ok, if◌then◌else◌,
}
use zk_api.Felt.{Felt252, to_hex}
use zk_api.Signature.{XmssSignature}
use zk_api.Stark.{StarkField}
use zk_api.Server.{ServerError, database, capacity_exhausted}
use zk_api.Signer.Table.{
  SignerTree, state, clear, SignerStateStore, ensure_tree, next_leaf, reserve_leaf,
}
use zk_api.Xmss.{
  XmssKeypair, generate_with_height, root_felt, sign, sign_with_index, sign_reserved, capacity,
  remaining,
}

-- `durable_state` says whether the signer has a connection to the table.
pub record ServerSigner (F : Type 0) : Type 0 where
  pub state_keypair : XmssKeypair F
  pub clear_keypair : XmssKeypair F
  pub state_epoch : ℕ
  pub clear_epoch : ℕ
  pub durable_state : Bool

abbrev pub leaf_of :
    Result ServerError (XmssSignature × ℕ × Felt252) → Result ServerError (XmssSignature × ℕ)
leaf_of (err e) = err e
leaf_of (ok (sig, leaf_index, message)) = ok (sig, leaf_index)

abbrev pub or_zero : Result ServerError ℕ → ℕ
or_zero (ok n) = n
or_zero (err e) = 0

-- `checked_sub` and `unwrap_or(0)` give what `-` stops at.
abbrev pub left_of : ℕ → Result ServerError ℕ → ℕ
left_of total (ok n) = total - n
left_of total (err e) = 0

module _ {F : Type 0} (k : StarkField F) where
  unfoldable pub with_height : F → F → ℕ → ℕ → ServerSigner F
  with_height state_seed clear_seed epoch height = record {
    state_keypair = generate_with_height k state_seed height;
    clear_keypair = generate_with_height k clear_seed height;
    state_epoch = epoch;
    clear_epoch = epoch;
    durable_state = false;
  }

  -- `SignerStateStore::new` on the table that the file holds.
  unfoldable pub open_store :
      Bool
      → ℕ
      → Felt252
      → ℕ
      → Felt252
      → SignerStateStore
      → Result ServerError (Unit {0}) × SignerStateStore
  unfolding ensure_tree
  open_store reachable state_epoch state_root clear_epoch clear_root table =
      let (made, table1) = ensure_tree reachable state state_epoch state_root table in
      elim made [
        | err e ↦ (err e, table1)
        | ok _ ↦ ensure_tree reachable clear clear_epoch clear_root table1
      ]

  unfoldable pub with_height_durable :
      Bool
      → F
      → F
      → ℕ
      → ℕ
      → SignerStateStore
      → Result ServerError (ServerSigner F) × SignerStateStore
  unfolding with_height open_store
  with_height_durable reachable state_seed clear_seed epoch height table =
      let signer = with_height state_seed clear_seed epoch height in
      let (made, table1) =
        open_store reachable epoch (root_felt k signer.state_keypair) epoch
          (root_felt k signer.clear_keypair) table in
      elim made [
        | err e ↦ (err e, table1)
        | ok _ ↦ (ok (record signer { durable_state = true }), table1)
      ]

  -- The durable branch of the signing calls: reserve a leaf, build the message, sign it there.
  unfoldable pub sign_durable :
      Bool
      → SignerTree
      → ℕ
      → (ℕ → Felt252)
      → XmssKeypair F
      → SignerStateStore
      → Result ServerError (XmssSignature × ℕ × Felt252) × XmssKeypair F × SignerStateStore
  unfolding reserve_leaf
  sign_durable reachable tree epoch build_message kp table =
      let (leaf, table1) = reserve_leaf reachable tree epoch (root_felt k kp) (capacity kp) table in
      elim leaf [
        | err e ↦ (err e, kp, table1)
        | ok leaf_index ↦
            let message = build_message leaf_index in
            let (signed, kp1) = sign_reserved k leaf_index message kp in
            elim signed [
              | none ↦ (err capacity_exhausted, kp1, table1)
              | some sig ↦ (ok (record sig { epoch = epoch }, leaf_index, message), kp1, table1)
            ]
      ]

  -- The branch without a table.
  unfoldable pub sign_in_memory :
      ℕ
      → (ℕ → Felt252)
      → XmssKeypair F
      → Result ServerError (XmssSignature × ℕ × Felt252) × XmssKeypair F
  sign_in_memory epoch build_message kp =
      let (signed, kp1) = sign_with_index k build_message kp in
      elim signed [
        | none ↦ (err capacity_exhausted, kp1)
        | some (sig, leaf_index, message) ↦
            (ok (record sig { epoch = epoch }, leaf_index, message), kp1)
      ]

  unfoldable pub sign_tree :
      Bool
      → SignerTree
      → ℕ
      → (ℕ → Felt252)
      → Bool
      → XmssKeypair F
      → SignerStateStore
      → Result ServerError (XmssSignature × ℕ × Felt252) × XmssKeypair F × SignerStateStore
  unfolding sign_durable sign_in_memory
  sign_tree reachable tree epoch build_message durable kp table = elim durable [
    | true ↦ sign_durable reachable tree epoch build_message kp table
    | false ↦ let (signed, kp1) = sign_in_memory epoch build_message kp in (signed, kp1, table)
  ]

  unfoldable pub sign_next_state :
      Bool
      → (ℕ → Felt252)
      → ServerSigner F
      → SignerStateStore
      → Result ServerError (XmssSignature × ℕ × Felt252) × ServerSigner F × SignerStateStore
  unfolding sign_tree
  sign_next_state reachable build_message s table =
      let (signed, kp, table1) =
        sign_tree reachable state s.state_epoch build_message s.durable_state s.state_keypair
          table in
      (signed, record s { state_keypair = kp }, table1)

  unfoldable pub sign_state :
      Bool
      → Felt252
      → ServerSigner F
      → SignerStateStore
      → Result ServerError (XmssSignature × ℕ) × ServerSigner F × SignerStateStore
  unfolding sign_tree
  sign_state reachable message s table =
      let (signed, kp, table1) =
        sign_tree reachable state s.state_epoch (λ _. message) s.durable_state s.state_keypair
          table in
      (leaf_of signed, record s { state_keypair = kp }, table1)

  unfoldable pub sign_clearance :
      Bool
      → Felt252
      → ServerSigner F
      → SignerStateStore
      → Result ServerError (XmssSignature × ℕ) × ServerSigner F × SignerStateStore
  unfolding sign_tree
  sign_clearance reachable message s table =
      let (signed, kp, table1) =
        sign_tree reachable clear s.clear_epoch (λ _. message) s.durable_state s.clear_keypair
          table in
      (leaf_of signed, record s { clear_keypair = kp }, table1)

  unfoldable pub state_root : ServerSigner F → Felt252
  state_root s = root_felt k s.state_keypair

  unfoldable pub clear_root : ServerSigner F → Felt252
  clear_root s = root_felt k s.clear_keypair

  unfoldable pub state_remaining : Bool → ServerSigner F → SignerStateStore → ℕ
  unfolding next_leaf remaining capacity
  state_remaining reachable s table =
      if s.durable_state
      then left_of (capacity s.state_keypair) (next_leaf reachable state table)
      else remaining s.state_keypair

  unfoldable pub state_next_index : Bool → ServerSigner F → SignerStateStore → ℕ
  unfolding next_leaf
  state_next_index reachable s table =
      if s.durable_state
      then or_zero (next_leaf reachable state table)
      else s.state_keypair.next_index

  unfoldable pub clear_remaining : Bool → ServerSigner F → SignerStateStore → ℕ
  unfolding next_leaf remaining capacity
  clear_remaining reachable s table =
      if s.durable_state
      then left_of (capacity s.clear_keypair) (next_leaf reachable clear table)
      else remaining s.clear_keypair

  unfoldable pub clear_next_index : Bool → ServerSigner F → SignerStateStore → ℕ
  unfolding next_leaf
  clear_next_index reachable s table =
      if s.durable_state
      then or_zero (next_leaf reachable clear table)
      else s.clear_keypair.next_index
