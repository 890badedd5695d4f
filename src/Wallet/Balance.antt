-- ===== src/Wallet/Balance.antt =====
-- rust/crates/zkapi-client/src/wallet_v2.rs: the note after an accepted response still opens.
use zk_api.Prelude.{ℕ, ◌-◌, ◌≤◌, ◌≡◌, refl, sym, ap, ◌∙◌, Result, ok, ◌>>=◌, arith, List}
use zk_api.Felt.{Felt252, felt_eq_refl, from_hex, to_hex}
use zk_api.Felt.Hex.{from_hex-to_hex}
use zk_api.Core.{Poseidon}
use zk_api.Curve.{
  CurvePointWire, CurveError, BabyJubJub, balance_commitment, rerandomize, add_blindings,
  server_update,
}
use zk_api.Curve.Commitments.{CurveLaws, server_update-rerandomize, add_blindings-IsCanonical}
use zk_api.Wallet.{ClientConfig, NoteState, RequestResponseV2}
use zk_api.Wallet.Request.{
  state_note_leaf, parse_scalar, current_commitment, ensure_stored_commitment,
}
use zk_api.Wallet.Invariant.{NoteOpens, Accepted}

module _ {Fr Sc Pt : Type 0} (p : Poseidon Fr) (c : BabyJubJub Fr Sc Pt) (keccak : List ℕ → List ℕ)
    (laws : CurveLaws p c) where
  abbrev yes : CurvePointWire → Result CurveError CurvePointWire
  yes a = ok a

  next_commitment_opens :
      (s : NoteState) (o : NoteOpens p c keccak s) (a next : CurvePointWire) (charge : ℕ)
      (q delta : Felt252)
      → charge ≤ s.current_balance
      → rerandomize p c
          (balance_commitment p c s.current_balance o.blinding (state_note_leaf p c keccak s))
          q
        ≡ ok a
      → server_update p c a charge delta ≡ ok next
      → balance_commitment p c
          (s.current_balance - charge)
          (add_blindings p c (add_blindings p c o.blinding q) delta)
          (state_note_leaf p c keccak s)
        ≡ next
  next_commitment_opens s o a next charge q delta le ra up =
      let whole =
        server_update-rerandomize p c laws s.current_balance charge o.blinding q delta
          (state_note_leaf p c keccak s) le in
      ok_injective (
        sym whole
        ∙ ap (λ m. m >>= λ (t : CurvePointWire). server_update p c t charge delta) ra
        ∙ up)
    where
      ok_injective : {x y : CurvePointWire} → yes x ≡ yes y → x ≡ y
      ok_injective e = cc

  -- An accepted response takes a note that opens to a note that opens.
  pub Accepted-NoteOpens :
      (config : ClientConfig) (s n : NoteState) (r : RequestResponseV2) (a : CurvePointWire)
      (q : Felt252) (o : NoteOpens p c keccak s)
      → rerandomize p c
          (balance_commitment p c s.current_balance o.blinding (state_note_leaf p c keccak s))
          q
        ≡ ok a
      → Accepted p c keccak config s n r a q
      → NoteOpens p c keccak n
  Accepted-NoteOpens config s n r a q o ra acc =
      let next_blinding = add_blindings p c (add_blindings p c o.blinding q) r.blind_delta_srv in
      let same : acc.blinding ≡ o.blinding = (let k = acc.parsed in let l = o.parses in cc) in
      let charged = acc.charged in
      let balance : n.current_balance ≡ s.current_balance - r.charge_applied = omega arith in
      let blinded : n.balance_blinding ≡ to_hex next_blinding =
        acc.blinded
        ∙ ap (λ (b : Felt252). to_hex (add_blindings p c (add_blindings p c b q) r.blind_delta_srv))
            same in
      let opened =
        next_commitment_opens s o a r.next_commitment r.charge_applied q r.blind_delta_srv
          (omega arith) ra acc.updated in
      let leaf = acc.same_note.0 in
      let amount = acc.same_note.1 in
      let cx = acc.committed.0 in
      let cy = acc.committed.1 in
      let within = o.within in
      record {
        blinding = next_blinding;
        parses =
            ap from_hex blinded
            ∙ from_hex-to_hex next_blinding (add_blindings-IsCanonical p c laws _ _);
        commits = rw (leaf, balance, cx, cy) opened;
        within = omega arith;
      }

  pub current_commitment-NoteOpens :
      (s : NoteState) (o : NoteOpens p c keccak s)
      → current_commitment p c keccak s
        ≡ ok (
          o.blinding,
          balance_commitment p c s.current_balance o.blinding (state_note_leaf p c keccak s),
        )
  unfolding current_commitment parse_scalar ensure_stored_commitment
  current_commitment-NoteOpens s o =
      rw
        (
          o.parses,
          o.commits,
          felt_eq_refl s.current_commitment_x,
          felt_eq_refl s.current_commitment_y,
        )
        refl
