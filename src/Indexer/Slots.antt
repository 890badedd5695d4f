-- ===== src/Indexer/Slots.antt =====
-- The specification of the mirror: each note's slot is a small state machine, and the mirror's
-- leaves and archive are what the slots say after the same events.
use zk_api.Prelude.{
  ℕ, ◌≡◌, refl, sym, ◌∙◌, Option, none, some, List, [], ◌∷◌, ◌==◌, ap, ==_iff, Option-cases,
  if◌then◌else◌, Bool-cases, inl, inr, arith,
}
use zk_api.Felt.{Felt252, felt_zero}
use zk_api.Core.{Poseidon, merkle_node}
use zk_api.Merkle.{MerkleTree}
use zk_api.Merkle
use zk_api.Merkle.Consistent.{
  IsConsistent, set_leaf-IsConsistent, new-IsConsistent, get_leaf-set_leaf,
}
use zk_api.Indexer.{
  VaultEvent, note_deposited, mutual_close, escape_withdrawal_initiated,
  escape_withdrawal_challenged, escape_withdrawal_finalized, expired_claimed, TreeMirror, get_leaf,
  insert_leaf, compute_note_leaf, new, set_leaf, restore, process_event, process_events,
}

-- Never deposited; in the tree; or taken out of it, with the leaf that a challenge would restore.
pub data Slot : Type 0 where
  unused : Slot
  live zeroed : Felt252 → Slot

abbrev pub leaf_of : Slot → Felt252
leaf_of unused = felt_zero
leaf_of (live leaf) = leaf
leaf_of (zeroed leaf) = felt_zero

abbrev pub original_of : Slot → Option Felt252
original_of unused = none
original_of (live leaf) = some leaf
original_of (zeroed leaf) = some leaf

abbrev pub removed : Slot → Slot
removed unused = unused
removed (live leaf) = zeroed leaf
removed (zeroed leaf) = zeroed leaf

abbrev pub restored : Slot → Slot
restored unused = unused
restored (live leaf) = live leaf
restored (zeroed leaf) = live leaf

leaf_of-removed : (s : Slot) → leaf_of (removed s) ≡ felt_zero
leaf_of-removed unused = refl
leaf_of-removed (live leaf) = refl
leaf_of-removed (zeroed leaf) = refl

original_of-removed : (s : Slot) → original_of (removed s) ≡ original_of s
original_of-removed unused = refl
original_of-removed (live leaf) = refl
original_of-removed (zeroed leaf) = refl

original_of-restored : (s : Slot) → original_of (restored s) ≡ original_of s
original_of-restored unused = refl
original_of-restored (live leaf) = refl
original_of-restored (zeroed leaf) = refl

leaf_of-restored :
    (s : Slot) (leaf : Felt252) → original_of s ≡ some leaf → leaf_of (restored s) ≡ leaf
leaf_of-restored unused leaf h = cc
leaf_of-restored (live l) leaf h = ground arith
leaf_of-restored (zeroed l) leaf h = ground arith

restored_unused : (s : Slot) → original_of s ≡ none → restored s ≡ s
restored_unused unused h = refl
restored_unused (live l) h = cc
restored_unused (zeroed l) h = cc

module _ {Fr : Type 0} (p : Poseidon Fr) where
  -- One event on the slot of one note.
  abbrev pub slot_step : ℕ → Slot → VaultEvent → Slot
  slot_step i s (note_deposited note_id commitment amount expiry_ts _) =
      if i == note_id then live (compute_note_leaf p note_id commitment amount expiry_ts) else s
  slot_step i s (mutual_close note_id _ _) = if i == note_id then removed s else s
  slot_step i s (escape_withdrawal_initiated note_id _ _ _ _) =
      if i == note_id then removed s else s
  slot_step i s (escape_withdrawal_challenged note_id _ _) = if i == note_id then restored s else s
  slot_step i s (escape_withdrawal_finalized _ _ _) = s
  slot_step i s (expired_claimed note_id _ _) = if i == note_id then removed s else s

  -- The slot of a note after a history of events.
  abbrev pub slot_after : ℕ → Slot → List VaultEvent → Slot
  slot_after i s [] = s
  slot_after i s (e ∷ es) = slot_after i (slot_step i s e) es

  -- A mirror that shows the given slots through a consistent tree.
  pub record Shows (m : TreeMirror) (slots : ℕ → Slot) : Type 0 where
    pub consistent : IsConsistent (merkle_node p) m.tree
    pub leaves : (i : ℕ) → get_leaf m i ≡ leaf_of (slots i)
    pub originals : (i : ℕ) → m.original_leaves i ≡ original_of (slots i)

  set_leaf-Shows :
      (m : TreeMirror) (note_id : ℕ) (leaf : Felt252) (slots : ℕ → Slot)
      → Shows m slots
      → (i : ℕ)
      → get_leaf (set_leaf p m note_id leaf) i ≡ (if i == note_id then leaf else leaf_of (slots i))
  unfolding set_leaf get_leaf
  set_leaf-Shows m note_id leaf slots s i =
      ground (arith, get_leaf-set_leaf (merkle_node p) m.tree note_id leaf i, s.leaves i)

  set_leaf-tree-IsConsistent :
      (m : TreeMirror) (note_id : ℕ) (leaf : Felt252) (slots : ℕ → Slot)
      → Shows m slots
      → IsConsistent (merkle_node p) (set_leaf p m note_id leaf).tree
  unfolding set_leaf
  set_leaf-tree-IsConsistent m note_id leaf slots s =
      set_leaf-IsConsistent (merkle_node p) m.tree note_id leaf s.consistent

  -- A removal zeroes the leaf and keeps the archive.
  removed-Shows :
      (m : TreeMirror) (note_id : ℕ) (slots : ℕ → Slot)
      → Shows m slots
      → Shows
          (set_leaf p m note_id felt_zero)
          (λ i. if i == note_id then removed (slots i) else slots i)
  removed-Shows m note_id slots s = record {
    consistent = set_leaf-tree-IsConsistent m note_id felt_zero slots s;
    leaves = λ i.
        set_leaf-Shows m note_id felt_zero slots s i ∙ ground (arith, leaf_of-removed (slots i));
    originals =
        λ i. unfold set_leaf in s.originals i ∙ ground (arith, original_of-removed (slots i));
  }

  archived :
      (m : TreeMirror) (note_id : ℕ) (slots : ℕ → Slot) (leaf : Felt252)
      → Shows m slots
      → m.original_leaves note_id ≡ some leaf
      → (i : ℕ) → i ≡ note_id
      → original_of (slots i) ≡ some leaf
  archived m note_id slots leaf s e i same = sym (s.originals i) ∙ ap m.original_leaves same ∙ e

  -- A challenge brings the archived leaf back.
  restored_live :
      (m : TreeMirror) (note_id : ℕ) (slots : ℕ → Slot) (leaf : Felt252)
      → Shows m slots
      → m.original_leaves note_id ≡ some leaf
      → Shows
          (set_leaf p m note_id leaf)
          (λ i. if i == note_id then restored (slots i) else slots i)
  restored_live m note_id slots leaf s e = record {
    consistent = set_leaf-tree-IsConsistent m note_id leaf slots s;
    leaves = λ i.
        set_leaf-Shows m note_id leaf slots s i
        ∙ ground (arith, leaf_of-restored (slots i) leaf, archived m note_id slots leaf s e i);
    originals =
        λ i. unfold set_leaf in s.originals i ∙ ground (arith, original_of-restored (slots i));
  }

  restored-none :
      (m : TreeMirror) (note_id : ℕ) (slots : ℕ → Slot)
      → Shows m slots
      → m.original_leaves note_id ≡ none
      → Shows m (λ i. if i == note_id then restored (slots i) else slots i)
  restored-none m note_id slots s e = record {
    consistent = s.consistent;
    leaves = λ i. s.leaves i ∙ ap leaf_of (sym (unchanged i));
    originals = λ i. s.originals i ∙ ap original_of (sym (unchanged i));
  }
    where
      unchanged : (i : ℕ) → (if i == note_id then restored (slots i) else slots i) ≡ slots i
      unchanged i = elim (Bool-cases (i == note_id)) [
        | inl same ↦ rw same (
            restored_unused (slots i)
              (sym (s.originals i) ∙ ap m.original_leaves ((==_iff i note_id).0 same) ∙ e))
        | inr other ↦ rw other refl
      ]

  deposited-Shows :
      (m : TreeMirror) (note_id : ℕ) (leaf : Felt252) (slots : ℕ → Slot)
      → Shows m slots
      → Shows
          (record (set_leaf p m note_id leaf) {
            original_leaves = insert_leaf m.original_leaves note_id leaf;
          })
          (λ i. if i == note_id then live leaf else slots i)
  deposited-Shows m note_id leaf slots s = record {
    consistent = set_leaf-tree-IsConsistent m note_id leaf slots s;
    leaves = λ i.
        unfold get_leaf in
        (unfold get_leaf in set_leaf-Shows m note_id leaf slots s i) ∙ ground arith;
    originals = λ i. unfold insert_leaf in ground (arith, s.originals i);
  }

  -- One event moves the mirror as it moves the slots, whichever event it is.
  pub process_event-Shows :
      (m : TreeMirror) (slots : ℕ → Slot) (e : VaultEvent)
      → Shows m slots
      → Shows (process_event p m e) (λ i. slot_step i (slots i) e)
  unfolding process_event
  process_event-Shows m slots (note_deposited note_id commitment amount expiry_ts r) s =
      deposited-Shows m note_id (compute_note_leaf p note_id commitment amount expiry_ts) slots s
  process_event-Shows m slots (mutual_close note_id n b) s = removed-Shows m note_id slots s
  process_event-Shows m slots (escape_withdrawal_initiated note_id n b d r) s =
      removed-Shows m note_id slots s
  process_event-Shows m slots (escape_withdrawal_challenged note_id n r) s =
      elim (Option-cases (m.original_leaves note_id)) [
        | inl e ↦ rw (e, restore) (restored-none m note_id slots s e)
        | inr (leaf, e) ↦ rw (e, restore) (restored_live m note_id slots leaf s e)
      ]
  process_event-Shows m slots (escape_withdrawal_finalized note_id n b) s = s
  process_event-Shows m slots (expired_claimed note_id a r) s = removed-Shows m note_id slots s

  process_events-Shows :
      (m : TreeMirror) (slots : ℕ → Slot) (es : List VaultEvent)
      → Shows m slots
      → Shows (process_events p m es) (λ i. slot_after i (slots i) es)
  unfolding process_events
  process_events-Shows m slots [] s = s
  process_events-Shows m slots (e ∷ es) s =
      process_events-Shows (process_event p m e) (λ i. slot_step i (slots i) e) es
        (process_event-Shows m slots e s)

  new-Shows : Shows (new p) (λ i. unused)
  unfolding new get_leaf
  new-Shows = record {
    consistent = new-IsConsistent (merkle_node p);
    leaves =
        λ i. unfold Merkle.new Merkle.get_leaf Merkle.get_node Merkle.compute_zero_hashes in refl;
    originals = λ i. refl;
  }

  -- After any history of events from an empty mirror, the tree is consistent, every leaf is what
  -- the note's slot says, and the archive holds the last leaf that was deposited for the note.
  pub mirror-Shows :
      (es : List VaultEvent) → Shows (process_events p (new p) es) (λ i. slot_after i unused es)
  mirror-Shows es = process_events-Shows (new p) (λ i. unused) es new-Shows
