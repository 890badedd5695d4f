-- ===== src/Indexer/Roots.antt =====
-- What a reader of the mirror relies on: its paths open its leaves, challenges undo escapes, and
-- notes do not interfere. And what it cannot rely on: the next note id.
use zk_api.Prelude.{
  ℕ, ◌^◌, ◌<◌, ◌≡◌, ◌≢◌, refl, sym, ◌∙◌, ap, true, List, [], ◌∷◌, ◌==◌, Bool-cases, ==_iff, inl,
  inr, Option, some, none, arith,
}
use zk_api.Felt.{Felt252, felt_zero}
use zk_api.Core.{Poseidon, merkle_node}
use zk_api.Merkle.{MerkleTree, merkle_depth, verify_membership}
use zk_api.Merkle
use zk_api.Merkle.Consistent.{next_index-set_leaf}
use zk_api.Merkle.Paths.{verify_membership-get_siblings, root_ext}
use zk_api.Indexer.{
  VaultEvent, note_deposited, mutual_close, escape_withdrawal_initiated,
  escape_withdrawal_challenged, escape_withdrawal_finalized, expired_claimed, TreeMirror,
  next_note_id, get_root, get_path, get_leaf, new, set_leaf, restore, process_event, process_events,
}
use zk_api.Indexer.Slots.{
  Slot, unused, live, leaf_of, slot_step, slot_after, Shows, mirror-Shows, process_event-Shows,
}

-- The note that an event is about.
abbrev pub note_of : VaultEvent → ℕ
note_of (note_deposited note_id _ _ _ _) = note_id
note_of (mutual_close note_id _ _) = note_id
note_of (escape_withdrawal_initiated note_id _ _ _ _) = note_id
note_of (escape_withdrawal_challenged note_id _ _) = note_id
note_of (escape_withdrawal_finalized note_id _ _) = note_id
note_of (expired_claimed note_id _ _) = note_id

module _ {Fr : Type 0} (p : Poseidon Fr) where
  -- The mirror after a history of events.
  abbrev pub mirror : List VaultEvent → TreeMirror
  mirror es = process_events p (new p) es

  tree_leaf :
      (m : TreeMirror) (slots : ℕ → Slot)
      → Shows p m slots
      → (i : ℕ) → Merkle.get_leaf m.tree i ≡ leaf_of (slots i)
  unfolding get_leaf
  tree_leaf m slots s i = s.leaves i

  -- After any history, the path served for a note id below 2^32 opens, under the served root, the
  -- leaf that the slot of the note holds by the specification: the deposited leaf of a live note,
  -- zero for any other.
  pub get_path_opens :
      (es : List VaultEvent) (i : ℕ)
      → i < 2 ^ merkle_depth
      → verify_membership
          (merkle_node p)
          (get_root (mirror es))
          i
          (leaf_of (slot_after p i unused es))
          (get_path (mirror es) i)
        ≡ true
  unfolding get_root get_path
  get_path_opens es i lt =
      let s = mirror-Shows p es in
      rw (← tree_leaf (mirror es) _ s i)
        (verify_membership-get_siblings (merkle_node p) (mirror es).tree i s.consistent lt)

  -- An event leaves the slots of other notes alone.
  slot_step_other : (i : ℕ) (e : VaultEvent) (s : Slot) → i ≢ note_of e → slot_step p i s e ≡ s
  slot_step_other i (note_deposited note_id _ _ _ _) s ne = ground arith
  slot_step_other i (mutual_close note_id _ _) s ne = ground arith
  slot_step_other i (escape_withdrawal_initiated note_id _ _ _ _) s ne = ground arith
  slot_step_other i (escape_withdrawal_challenged note_id _ _) s ne = ground arith
  slot_step_other i (escape_withdrawal_finalized _ _ _) s ne = refl
  slot_step_other i (expired_claimed note_id _ _) s ne = ground arith

  Shows-root :
      (m n : TreeMirror) (a b : ℕ → Slot)
      → Shows p m a
      → Shows p n b
      → ((i : ℕ) → leaf_of (a i) ≡ leaf_of (b i))
      → get_root m ≡ get_root n
  unfolding get_root
  Shows-root m n a b sm sn same =
      root_ext (merkle_node p) m.tree n.tree sm.consistent sn.consistent
        (λ i. tree_leaf m a sm i ∙ same i ∙ sym (tree_leaf n b sn i))

  -- After any history that leaves a note live, an escape withdrawal of that note that is
  -- challenged leaves the root as it was before the escape.
  pub challenge_restores_root :
      (es : List VaultEvent) (id : ℕ) (leaf n n' r r' : Felt252) (b d : ℕ)
      → slot_after p id unused es ≡ live leaf
      → get_root (
          process_events p
            (mirror es)
            (escape_withdrawal_initiated id n b d r ∷ escape_withdrawal_challenged id n' r' ∷ []))
        ≡ get_root (mirror es)
  unfolding process_events
  challenge_restores_root es id leaf n n' r r' b d h =
      let slots = λ (i : ℕ). slot_after p i unused es in
      let s = mirror-Shows p es in
      let e = escape_withdrawal_initiated id n b d r in
      let c = escape_withdrawal_challenged id n' r' in
      let escaped = process_event-Shows p (mirror es) slots e s in
      let challenged = process_event-Shows p _ (λ i. slot_step p i (slots i) e) c escaped in
      Shows-root _ _ _ _ challenged s (λ i. undone i (slots i) (λ same. ap slots same ∙ h))
    where
      undone :
          (i : ℕ) (s : Slot)
          → (i ≡ id → s ≡ live leaf)
          → leaf_of (
              slot_step p i
                (slot_step p i s (escape_withdrawal_initiated id n b d r))
                (escape_withdrawal_challenged id n' r'))
            ≡ leaf_of s
      undone i s k = elim (Bool-cases (i == id)) [
        | inl same ↦ rw (k ((==_iff i id).0 same), same) refl
        | inr other ↦ rw other refl
      ]

  -- After any history, two events about different notes lead to the same root in either order.
  pub process_event_commute :
      (es : List VaultEvent) (e f : VaultEvent)
      → note_of e ≢ note_of f
      → get_root (process_events p (mirror es) (e ∷ f ∷ []))
        ≡ get_root (process_events p (mirror es) (f ∷ e ∷ []))
  unfolding process_events
  process_event_commute es e f ne =
      let slots = λ (i : ℕ). slot_after p i unused es in
      let s = mirror-Shows p es in
      let ef = process_event-Shows p _ _ f (process_event-Shows p (mirror es) slots e s) in
      let fe = process_event-Shows p _ _ e (process_event-Shows p (mirror es) slots f s) in
      Shows-root _ _ _ _ ef fe (λ i. ap leaf_of (slots_commute i (slots i)))
    where
      slots_commute :
          (i : ℕ) (s : Slot)
          → slot_step p i (slot_step p i s e) f ≡ slot_step p i (slot_step p i s f) e
      slots_commute i s = elim (Bool-cases (i == note_of e)) [
        | inl same ↦
            slot_step_other i f (slot_step p i s e)
              (λ k. ne (sym ((==_iff i (note_of e)).0 same) ∙ k))
            ∙ ap (λ (t : Slot). slot_step p i t e)
                (sym (slot_step_other i f s (λ k. ne (sym ((==_iff i (note_of e)).0 same) ∙ k))))
        | inr other ↦
            ap (λ (t : Slot). slot_step p i t f)
              (slot_step_other i e s (λ k. cc (other, (==_iff i (note_of e)).1 k)))
            ∙ sym (
                slot_step_other i e (slot_step p i s f)
                  (λ k. cc (other, (==_iff i (note_of e)).1 k)))
      ]

  next_note_id-set_leaf :
      (m : TreeMirror) (id : ℕ) (leaf : Felt252)
      → next_note_id (set_leaf p m id leaf) ≡ next_note_id m
  unfolding next_note_id set_leaf
  next_note_id-set_leaf m id leaf = next_index-set_leaf (merkle_node p) m.tree id leaf

  next_note_id-restore :
      (m : TreeMirror) (id : ℕ) (o : Option Felt252)
      → next_note_id (restore p m id o) ≡ next_note_id m
  unfolding restore
  next_note_id-restore m id none = refl
  next_note_id-restore m id (some leaf) = next_note_id-set_leaf m id leaf

  next_note_id-process_event :
      (m : TreeMirror) (e : VaultEvent) → next_note_id (process_event p m e) ≡ next_note_id m
  unfolding process_event
  next_note_id-process_event m (note_deposited id commitment amount expiry_ts r) =
      unfold next_note_id in unfold next_note_id in next_note_id-set_leaf m id _
  next_note_id-process_event m (mutual_close id n b) = next_note_id-set_leaf m id felt_zero
  next_note_id-process_event m (escape_withdrawal_initiated id n b d r) =
      next_note_id-set_leaf m id felt_zero
  next_note_id-process_event m (escape_withdrawal_challenged id n r) =
      next_note_id-restore m id (m.original_leaves id)
  next_note_id-process_event m (escape_withdrawal_finalized id n b) = refl
  next_note_id-process_event m (expired_claimed id a r) = next_note_id-set_leaf m id felt_zero

  next_note_id-process_events :
      (m : TreeMirror) (es : List VaultEvent)
      → next_note_id (process_events p m es) ≡ next_note_id m
  unfolding process_events
  next_note_id-process_events m [] = refl
  next_note_id-process_events m (e ∷ es) =
      next_note_id-process_events (process_event p m e) es ∙ next_note_id-process_event m e

  -- The next note id that a mirror reports is 0 after every history of events, so also when notes
  -- have been deposited: no event moves the counter of the tree.
  pub next_note_id_stuck : (es : List VaultEvent) → next_note_id (mirror es) ≡ 0
  next_note_id_stuck es = next_note_id-process_events (new p) es ∙ start
    where
      start : next_note_id (new p) ≡ 0
      start = unfold next_note_id new Merkle.new in refl
