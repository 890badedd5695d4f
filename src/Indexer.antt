-- ===== src/Indexer.antt =====
-- rust/crates/zkapi-indexer: the mirror of the on-chain tree (tree_mirror.rs), kept from the
-- vault's events (events.rs), and the reads that the service gives (service.rs). The `HashMap` of
-- original leaves is a partial function; the read-write lock of the service is left out.
pub mod Slots
pub mod Roots
mod Tests
use zk_api.Prelude.{ℕ, Option, none, some, List, [], ◌∷◌, ◌==◌, if◌then◌else◌}
use zk_api.Felt.{Felt252, felt_zero}
use zk_api.Core.{Poseidon, note_leaf, merkle_node}
use zk_api.Merkle.{MerkleTree}
use zk_api.Merkle

pub data VaultEvent : Type 0 where
  note_deposited : ℕ → Felt252 → ℕ → ℕ → Felt252 → VaultEvent
  mutual_close : ℕ → Felt252 → ℕ → VaultEvent
  escape_withdrawal_initiated : ℕ → Felt252 → ℕ → ℕ → Felt252 → VaultEvent
  escape_withdrawal_challenged : ℕ → Felt252 → Felt252 → VaultEvent
  escape_withdrawal_finalized : ℕ → Felt252 → ℕ → VaultEvent
  expired_claimed : ℕ → ℕ → Felt252 → VaultEvent

pub record TreeMirror : Type 0 where
  pub tree : MerkleTree
  pub original_leaves : ℕ → Option Felt252

unfoldable pub next_note_id : TreeMirror → ℕ
next_note_id m = m.tree.next_index

unfoldable pub get_root : TreeMirror → Felt252
get_root m = Merkle.root m.tree

unfoldable pub get_path : TreeMirror → ℕ → List Felt252
get_path m note_id = Merkle.get_siblings m.tree note_id

unfoldable pub get_zero_path : TreeMirror → ℕ → List Felt252
get_zero_path m note_id = Merkle.get_siblings m.tree note_id

unfoldable pub get_leaf : TreeMirror → ℕ → Felt252
get_leaf m note_id = Merkle.get_leaf m.tree note_id

unfoldable pub insert_leaf : (ℕ → Option Felt252) → ℕ → Felt252 → ℕ → Option Felt252
insert_leaf leaves note_id leaf i = if i == note_id then some leaf else leaves i

module _ {Fr : Type 0} (p : Poseidon Fr) where
  unfoldable pub compute_note_leaf : ℕ → Felt252 → ℕ → ℕ → Felt252
  compute_note_leaf note_id commitment deposit_amount expiry_ts =
      note_leaf p note_id commitment deposit_amount expiry_ts

  unfoldable pub new : TreeMirror
  new = record { tree = Merkle.new (merkle_node p); original_leaves = λ note_id. none }

  pub set_leaf : TreeMirror → ℕ → Felt252 → TreeMirror
  set_leaf m note_id leaf = record m { tree = Merkle.set_leaf (merkle_node p) m.tree note_id leaf }

  -- `if let Some(original) = self.original_leaves.get(note_id)`
  pub restore : TreeMirror → ℕ → Option Felt252 → TreeMirror
  unfolding set_leaf
  restore m note_id none = m
  restore m note_id (some original) = set_leaf m note_id original

  unfoldable pub process_event : TreeMirror → VaultEvent → TreeMirror
  unfolding set_leaf restore insert_leaf
  process_event m (note_deposited note_id commitment amount expiry_ts _) =
      let leaf = compute_note_leaf note_id commitment amount expiry_ts in
      record (set_leaf m note_id leaf) {
        original_leaves = insert_leaf m.original_leaves note_id leaf;
      }
  process_event m (mutual_close note_id _ _) = set_leaf m note_id felt_zero
  process_event m (escape_withdrawal_initiated note_id _ _ _ _) = set_leaf m note_id felt_zero
  process_event m (escape_withdrawal_challenged note_id _ _) =
      restore m note_id (m.original_leaves note_id)
  process_event m (escape_withdrawal_finalized _ _ _) = m
  process_event m (expired_claimed note_id _ _) = set_leaf m note_id felt_zero

  unfoldable pub process_events : TreeMirror → List VaultEvent → TreeMirror
  process_events m [] = m
  process_events m (e ∷ es) = process_events (process_event m e) es
