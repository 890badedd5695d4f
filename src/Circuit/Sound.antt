-- ===== src/Circuit/Sound.antt =====
-- rust/crates/zkapi-proof/src/groth16.rs: what a request or a withdrawal whose constraints hold
-- shows, in terms of the functions outside the circuits.
use zk_api.Prelude.{
  ℕ, ◌^◌, ◌≤◌, ◌<◌, ◌≡◌, ◌≢◌, ◌⊎◌, inl, inr, refl, sym, ap, subst, [], ◌∷◌, codes, if◌then◌else◌,
  ◌∙◌, Bool, true, false, not, Bool-cases, length, arith,
}
use zk_api.Core.{Poseidon, domain, hash_fields}
use zk_api.Curve.{
  BabyJubJub, StateSignature, commitment_point, rerandomize_commitment, verify_state_signature,
}
use zk_api.Circuit.{
  CircuitField, RequestPublic, RequestWitness, WithdrawalPublic, WithdrawalWitness,
}
use zk_api.Circuit.Gadgets.{
  conditional, commitment_var, enforce_signature, registration_var, leaf_var, state_message_var,
  clearance_message_var,
}
use zk_api.Circuit.Constraints.{request_constraints, withdrawal_constraints}
use zk_api.Circuit.Native.{
  registration_commitment, note_leaf, merkle_root, state_message, clearance_message,
  request_nullifier, authorization_tag, withdrawal_tag,
}
use zk_api.Circuit.Equal.{
  CircuitLaws, path_var-merkle_root, commitment_var-point, enforce_signature-verify,
}

module _ {Fr Sc Pt : Type 0} (k : CircuitField Fr) (p : Poseidon Fr) (c : BabyJubJub Fr Sc Pt) where
  -- The state of a note: the deposit itself under the first anchor, or what the server has signed.
  pub record IsState (key : Pt) (message anchor : Fr) (sig : StateSignature Sc Pt) (genesis : Bool)
      (balance deposit : ℕ) : Type 0 where
    pub known :
        ((genesis ≡ true) × (anchor ≡ k.one) × (balance ≡ deposit))
        ⊎ ((genesis ≡ false) × (verify_state_signature p c key message sig ≡ true))

  pub record IsRequest (x : RequestPublic Fr Pt) (w : RequestWitness Fr Sc Pt) : Type 0 where
    pub leaf : Fr
    pub commitment : Pt
    pub secret : w.secret ≢ k.zero
    pub unexpired : x.request_time ≤ w.expiry
    pub solvent : x.solvency_bound ≤ w.current_balance
    pub note :
        leaf
        ≡ note_leaf k p w.note_id (registration_commitment k p w.secret) w.deposit_amount w.expiry
    pub active : merkle_root p w.note_id leaf w.merkle_siblings ≡ x.active_root
    pub commits : commitment ≡ commitment_point p c w.current_balance w.current_blinding leaf
    pub state :
        IsState x.state_signing_key
          (state_message k p c x.protocol_version x.chain_id x.contract_address commitment
            w.current_anchor)
          w.current_anchor
          w.state_signature
          w.is_genesis
          w.current_balance
          w.deposit_amount
    pub hides : rerandomize_commitment p c commitment w.rerandomization ≡ x.anonymous_commitment
    pub spends : request_nullifier p w.secret w.current_anchor ≡ x.request_nullifier
    pub authorizes : authorization_tag p x.request_nullifier w.request_context ≡ x.authorization_tag

  pub record IsWithdrawal (x : WithdrawalPublic Fr Pt) (w : WithdrawalWitness Fr Sc Pt)
      : Type 0 where
    pub leaf : Fr
    pub secret : w.secret ≢ k.zero
    pub within : x.final_balance ≤ w.deposit_amount
    pub note :
        leaf
        ≡ note_leaf k p x.note_id (registration_commitment k p w.secret) w.deposit_amount w.expiry
    pub active : merkle_root p x.note_id leaf w.merkle_siblings ≡ x.active_root
    pub state :
        IsState x.state_signing_key
          (state_message k p c x.protocol_version x.chain_id x.contract_address
            (commitment_point p c x.final_balance w.final_blinding leaf)
            w.current_anchor)
          w.current_anchor
          w.state_signature
          w.is_genesis
          x.final_balance
          w.deposit_amount
    pub spends : request_nullifier p w.secret w.current_anchor ≡ x.withdrawal_nullifier
    pub tagged :
        withdrawal_tag k p x.withdrawal_nullifier x.destination x.final_balance x.has_clearance
        ≡ x.withdrawal_tag
    pub cleared :
        (x.has_clearance ≡ false)
        ⊎ (verify_state_signature p c x.clearance_signing_key
              (clearance_message k p x.protocol_version x.chain_id x.contract_address
                x.withdrawal_nullifier)
              w.clearance_signature
            ≡ true)

  module _ (laws : CircuitLaws k c) where
    enforced-IsState :
        (key : Pt) (message anchor : Fr) (sig : StateSignature Sc Pt) (genesis : Bool)
        (balance deposit : ℕ)
        → balance < 2 ^ 128
        → deposit < 2 ^ 128
        → conditional genesis (k.field_eq anchor k.one) ≡ true
        → conditional genesis (k.field_eq (k.from_uint balance) (k.from_uint deposit)) ≡ true
        → enforce_signature p c key message sig (not genesis) ≡ true
        → IsState key message anchor sig genesis balance deposit
    enforced-IsState key message anchor sig genesis balance deposit small small2 first same signed =
        elim (Bool-cases genesis) [
          | inl first_state ↦ record {
            known = inl (
              first_state,
              laws.field_eq_sound anchor k.one (ground arith),
              laws.from_uint_injective balance deposit small small2
                  (laws.field_eq_sound (k.from_uint balance) (k.from_uint deposit) (ground arith)),
            );
          }
          | inr later ↦ record {
            known = inr (
              later,
              sym (enforce_signature-verify k p c laws key message sig)
                  ∙ ap (enforce_signature p c key message sig) (sym (ap not later))
                  ∙ signed,
            );
          }
        ]

    -- A request whose constraints hold, at machine words and 32 siblings, is `IsRequest`: its note's
    -- secret is not zero, the note has not expired, the balance covers the bound, the note's leaf
    -- is in the active tree, the state is the deposit itself or one that the server has signed for
    -- this very commitment and anchor, the anonymous commitment hides that commitment, the
    -- nullifier is that of secret and anchor, and the tag binds it to the context.
    pub request_constraints-IsRequest :
        (x : RequestPublic Fr Pt) (w : RequestWitness Fr Sc Pt)
        → w.current_balance < 2 ^ 128
        → w.deposit_amount < 2 ^ 128
        → length w.merkle_siblings ≡ 32
        → request_constraints k p c x w ≡ true
        → IsRequest x w
    unfolding request_constraints leaf_var registration_var note_leaf registration_commitment
        state_message_var state_message rerandomize_commitment request_nullifier authorization_tag
    request_constraints-IsRequest x w small small2 depth h =
        let leaf =
          leaf_var k p w.note_id (registration_var k p w.secret) w.deposit_amount w.expiry in
        let commitment = commitment_var c w.current_balance w.current_blinding leaf in
        record {
          leaf = leaf;
          commitment = commitment;
          secret = λ e.
              let zero_secret =
                ap (λ (a : Fr). k.field_eq a k.zero) e ∙ laws.field_eq_refl k.zero in
              ground arith;
          unexpired = ground arith;
          solvent = ground arith;
          note = refl;
          active =
              sym (path_var-merkle_root p 32 w.note_id leaf w.merkle_siblings (omega arith))
              ∙ laws.field_eq_sound _ _ (ground arith);
          commits = commitment_var-point k p c laws w.current_balance w.current_blinding leaf small;
          state =
              enforced-IsState x.state_signing_key
                (state_message_var k p c x.protocol_version x.chain_id x.contract_address commitment
                  w.current_anchor)
                w.current_anchor w.state_signature w.is_genesis w.current_balance w.deposit_amount
                small small2 (ground arith) (ground arith) (ground arith);
          hides = laws.point_eq_sound _ _ (ground arith);
          spends = laws.field_eq_sound _ _ (ground arith);
          authorizes = laws.field_eq_sound _ _ (ground arith);
        }

    tag_value : (b : Bool) → (if b then k.one else k.zero) ≡ k.from_uint (if b then 1 else 0)
    tag_value true = sym laws.from_uint-one
    tag_value false = sym laws.from_uint-zero

    -- A withdrawal whose constraints hold, at machine words and 32 siblings, is `IsWithdrawal`: the
    -- note's secret is not zero, the balance paid out is at most the deposit, the note's leaf is in
    -- the active tree, the state is the deposit itself or one that the server has signed for a
    -- commitment to the balance paid out, the nullifier is that of secret and anchor, the tag
    -- binds it to the destination, the balance and the kind of close, and a close with clearance
    -- has the server's signature on the nullifier.
    pub withdrawal_constraints-IsWithdrawal :
        (x : WithdrawalPublic Fr Pt) (w : WithdrawalWitness Fr Sc Pt)
        → x.final_balance < 2 ^ 128
        → w.deposit_amount < 2 ^ 128
        → length w.merkle_siblings ≡ 32
        → withdrawal_constraints k p c x w ≡ true
        → IsWithdrawal x w
    unfolding withdrawal_constraints leaf_var registration_var note_leaf registration_commitment
        state_message_var state_message clearance_message_var clearance_message request_nullifier
        withdrawal_tag
    withdrawal_constraints-IsWithdrawal x w small small2 depth h =
        let leaf =
          leaf_var k p x.note_id (registration_var k p w.secret) w.deposit_amount w.expiry in
        let commitment = commitment_var c x.final_balance w.final_blinding leaf in
        let message : Pt → Fr = λ q.
          state_message_var k p c x.protocol_version x.chain_id x.contract_address q
            w.current_anchor in
        let clear_message =
          clearance_message_var k p x.protocol_version x.chain_id x.contract_address
            x.withdrawal_nullifier in
        record {
          leaf = leaf;
          secret = λ e.
              let zero_secret =
                ap (λ (a : Fr). k.field_eq a k.zero) e ∙ laws.field_eq_refl k.zero in
              ground arith;
          within = ground arith;
          note = refl;
          active =
              sym (path_var-merkle_root p 32 x.note_id leaf w.merkle_siblings (omega arith))
              ∙ laws.field_eq_sound _ _ (ground arith);
          state =
              subst
                (λ (q : Pt).
                  IsState x.state_signing_key (message q) w.current_anchor w.state_signature
                    w.is_genesis x.final_balance w.deposit_amount)
                (commitment_var-point k p c laws x.final_balance w.final_blinding leaf small)
                (enforced-IsState x.state_signing_key (message commitment) w.current_anchor
                  w.state_signature w.is_genesis x.final_balance w.deposit_amount small small2
                  (ground arith) (ground arith) (ground arith));
          spends = laws.field_eq_sound _ _ (ground arith);
          tagged =
              ap
                (λ (t : Fr). hash_fields p (
                  domain p (codes "zkapi.v2.withdraw")
                  ∷ x.withdrawal_nullifier
                  ∷ x.destination
                  ∷ k.from_uint x.final_balance
                  ∷ t
                  ∷ []))
                (sym (tag_value x.has_clearance))
              ∙ laws.field_eq_sound _ _ (ground arith);
          cleared = elim (Bool-cases x.has_clearance) [
            | inr open_exit ↦ inl open_exit
            | inl closes ↦ inr (
                sym (
                  enforce_signature-verify k p c laws x.clearance_signing_key clear_message
                    w.clearance_signature)
                ∙ ap
                    (enforce_signature p c x.clearance_signing_key clear_message
                      w.clearance_signature)
                    (sym closes)
                ∙ ground arith)
          ];
        }
