-- ===== src/Wallet/Invariant.antt =====
-- rust/crates/zkapi-client/src/wallet_v2.rs: the wallet's invariant. The note's commitment opens to
-- its balance under its blinding, the balance is at most the deposit, and the file holds the state.
use zk_api.Prelude.{
  ℕ, ◌+◌, ◌≤◌, ◌≡◌, ap, ◌∙◌, true, false, Option, none, some, List, Str, Result, ok, arith,
  Result-cases, inl, inr,
}
use zk_api.Felt.{Felt252, felt_eq_sound, is_zero, from_hex, to_hex}
use zk_api.Core.{Poseidon, state_message}
use zk_api.Curve.{
  CurvePointWire, wire_eq, BabyJubJub, CurveError, balance_commitment, add_blindings, server_update,
  verify_signature,
}
use zk_api.Wallet.{
  ClientConfig, NoteState, RequestResponseV2, Stored, missing, holds, Wallet, applied_cap,
}
use zk_api.Wallet.Request.{state_note_leaf, parse_scalar}
use zk_api.Wallet.Response.{next_state}

-- The file that a wallet with this note keeps.
abbrev pub file_of : Option NoteState → Stored NoteState
file_of none = missing
file_of (some s) = holds s

module _ {Fr Sc Pt : Type 0} (p : Poseidon Fr) (c : BabyJubJub Fr Sc Pt)
    (keccak : List ℕ → List ℕ) where
  -- The note's blinding parses, its stored commitment is the commitment to its balance under that
  -- blinding, and the balance is within the deposit.
  pub record NoteOpens (s : NoteState) : Type 0 where
    pub blinding : Felt252
    pub parses : from_hex s.balance_blinding ≡ ok blinding
    pub commits :
        balance_commitment p c s.current_balance blinding (state_note_leaf p c keccak s)
        ≡ record { x = s.current_commitment_x; y = s.current_commitment_y }
    pub within : s.current_balance ≤ s.deposit_amount

  pub record IsWellFormed (w : Wallet) : Type 0 where
    pub on_disk : w.note_file ≡ file_of w.state
    pub opens : (s : NoteState) → w.state ≡ some s → NoteOpens s

  -- What an accepted response has shown, and the state it leads to.
  pub record Accepted (config : ClientConfig) (s n : NoteState) (r : RequestResponseV2)
      (anonymous : CurvePointWire) (q : Felt252) : Type 0 where
    pub capped : r.charge_applied ≤ applied_cap config
    pub charged : n.current_balance + r.charge_applied ≡ s.current_balance
    pub updated :
        server_update p c anonymous r.charge_applied r.blind_delta_srv ≡ ok r.next_commitment
    pub signed :
        verify_signature p c config.state_signing_key
          (state_message p s.protocol_version s.chain_id s.contract_address r.next_commitment.x
            r.next_commitment.y r.next_anchor)
          r.next_state_signature
        ≡ ok true
    pub anchored : is_zero r.next_anchor ≡ false
    pub committed :
        (n.current_commitment_x ≡ r.next_commitment.x)
        × (n.current_commitment_y ≡ r.next_commitment.y)
    pub moved : n.current_anchor ≡ r.next_anchor
    pub later : n.is_genesis ≡ false
    pub keeps_signature : n.state_signature ≡ some r.next_state_signature
    pub blinding : Felt252
    pub parsed : from_hex s.balance_blinding ≡ ok blinding
    pub blinded :
        n.balance_blinding
        ≡ to_hex (add_blindings p c (add_blindings p c blinding q) r.blind_delta_srv)
    pub same_note :
        (state_note_leaf p c keccak n ≡ state_note_leaf p c keccak s)
        × (n.deposit_amount ≡ s.deposit_amount)

  pub wire_eq_sound : (a b : CurvePointWire) → wire_eq a b ≡ true → a ≡ b
  unfolding wire_eq
  wire_eq_sound a b e =
      let x : a.x ≡ b.x = felt_eq_sound a.x b.x (ground arith) in
      let y : a.y ≡ b.y = felt_eq_sound a.y b.y (ground arith) in cc

  updated_by :
      (m : Result CurveError CurvePointWire) (e next : CurvePointWire)
      → m ≡ ok e
      → wire_eq e next ≡ true
      → m ≡ ok next
  updated_by m e next h eq = h ∙ ap (λ (t : CurvePointWire). ok t) (wire_eq_sound e next eq)

  server_update-accepted :
      (config : ClientConfig) (s n : NoteState) (r : RequestResponseV2) (id : Str) (null : Felt252)
      (anonymous : CurvePointWire) (q : Felt252)
      → next_state p c keccak config (some s) r id null anonymous q ≡ ok n
      → server_update p c anonymous r.charge_applied r.blind_delta_srv ≡ ok r.next_commitment
  unfolding next_state
  server_update-accepted config s n r id null anonymous q h =
      elim (Result-cases (server_update p c anonymous r.charge_applied r.blind_delta_srv)) [
        | inl (e, k) ↦ updated_by _ e r.next_commitment k (ground arith)
        | inr (e, k) ↦ absurd (ground arith)
      ]

  -- A response that is accepted has passed every check.
  pub next_state-Accepted :
      (config : ClientConfig) (s n : NoteState) (r : RequestResponseV2) (id : Str) (null : Felt252)
      (anonymous : CurvePointWire) (q : Felt252)
      → next_state p c keccak config (some s) r id null anonymous q ≡ ok n
      → Accepted config s n r anonymous q
  unfolding next_state parse_scalar state_note_leaf
  next_state-Accepted config s n r id null anonymous q h =
      elim (Result-cases (from_hex s.balance_blinding)) [
        | inr (e, k) ↦ absurd (ground arith)
        | inl (b, k) ↦ record {
          capped = ground arith;
          charged = ground arith;
          updated = server_update-accepted config s n r id null anonymous q h;
          signed = ground arith;
          anchored = ground arith;
          committed = (ground arith, ground arith);
          moved = ground arith;
          later = ground arith;
          keeps_signature = ground arith;
          blinding = b;
          parsed = k;
          blinded = ground arith;
          same_note = (ground arith, ground arith);
        }
      ]
