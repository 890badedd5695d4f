-- ===== src/Circuit/Native.antt =====
-- rust/crates/zkapi-proof/src/groth16.rs: the messages, tags and roots outside the circuits.
use zk_api.Prelude.{ℕ, ◌/◌, ◌==◌, bit_and, Bool, List, [], ◌∷◌, codes, if◌then◌else◌}
use zk_api.Core.{Poseidon, domain, hash_fields}
use zk_api.Curve.{BabyJubJub}
use zk_api.Circuit.{CircuitField}

module _ {Fr : Type 0} (k : CircuitField Fr) (p : Poseidon Fr) where
  unfoldable pub registration_commitment : Fr → Fr
  registration_commitment secret =
      hash_fields p (domain p (codes "zkapi.v2.reg") ∷ secret ∷ k.zero ∷ [])

  unfoldable pub note_leaf : ℕ → Fr → ℕ → ℕ → Fr
  note_leaf note_id registration deposit_amount expiry = hash_fields p (
      domain p (codes "zkapi.v2.leaf")
      ∷ k.from_uint note_id
      ∷ registration
      ∷ k.from_uint deposit_amount
      ∷ k.from_uint expiry
      ∷ [])

  unfoldable pub withdrawal_tag : Fr → Fr → ℕ → Bool → Fr
  withdrawal_tag nullifier destination final_balance has_clearance = hash_fields p (
      domain p (codes "zkapi.v2.withdraw")
      ∷ nullifier
      ∷ destination
      ∷ k.from_uint final_balance
      ∷ k.from_uint (if has_clearance then 1 else 0)
      ∷ [])

  unfoldable pub clearance_message : ℕ → ℕ → Fr → Fr → Fr
  clearance_message protocol_version chain_id contract_address withdrawal_nullifier =
      hash_fields p (
        domain p (codes "zkapi.v2.clear")
        ∷ k.from_uint protocol_version
        ∷ k.from_uint chain_id
        ∷ contract_address
        ∷ withdrawal_nullifier
        ∷ [])

  unfoldable pub state_message : {Sc Pt : Type 0} → BabyJubJub Fr Sc Pt → ℕ → ℕ → Fr → Pt → Fr → Fr
  state_message c protocol_version chain_id contract_address commitment anchor = hash_fields p (
      domain p (codes "zkapi.v2.state")
      ∷ k.from_uint protocol_version
      ∷ k.from_uint chain_id
      ∷ contract_address
      ∷ c.affine_x commitment
      ∷ c.affine_y commitment
      ∷ anchor
      ∷ [])

module _ {Fr : Type 0} (p : Poseidon Fr) where
  -- `note_id >> level` is the index of the round.
  unfoldable pub merkle_root : ℕ → Fr → List Fr → Fr
  merkle_root index current [] = current
  merkle_root index current (sibling ∷ rest) =
      merkle_root (index / 2)
        (if bit_and index 1 == 0
          then hash_fields p (domain p (codes "zkapi.v2.node") ∷ current ∷ sibling ∷ [])
          else hash_fields p (domain p (codes "zkapi.v2.node") ∷ sibling ∷ current ∷ []))
        rest

  unfoldable pub request_nullifier : Fr → Fr → Fr
  request_nullifier secret anchor =
      hash_fields p (domain p (codes "zkapi.v2.null") ∷ secret ∷ anchor ∷ [])

  unfoldable pub authorization_tag : Fr → Fr → Fr
  authorization_tag nullifier request_context =
      hash_fields p (domain p (codes "zkapi.v2.auth") ∷ nullifier ∷ request_context ∷ [])
