-- ===== src/Circuit/Gadgets.antt =====
-- rust/crates/zkapi-proof/src/groth16.rs: the parts of the circuits, evaluated at values.
use zk_api.Prelude.{ℕ, zero, suc, ◌/◌, ◌%◌, ◌==◌, Bool, true, List, [], ◌∷◌, codes, if◌then◌else◌}
use zk_api.Core.{Poseidon, domain, hash_fields}
use zk_api.Curve.{BabyJubJub, StateSignature}
use zk_api.Circuit.{CircuitField}

-- `conditional_enforce_equal`: nothing is asked when the condition is false.
abbrev pub conditional : Bool → Bool → Bool
conditional condition equal = if condition then equal else true

-- The bits of a word, the lowest first.
unfoldable pub uint_bits : ℕ → ℕ → List Bool
uint_bits zero n = []
uint_bits (suc width) n = (n % 2 == 1) ∷ uint_bits width (n / 2)

module _ {Fr : Type 0} (k : CircuitField Fr) (p : Poseidon Fr) where
  unfoldable pub registration_var : Fr → Fr
  registration_var secret = hash_fields p (domain p (codes "zkapi.v2.reg") ∷ secret ∷ k.zero ∷ [])

  unfoldable pub leaf_var : ℕ → Fr → ℕ → ℕ → Fr
  leaf_var note_id registration deposit_amount expiry = hash_fields p (
      domain p (codes "zkapi.v2.leaf")
      ∷ k.from_uint note_id
      ∷ registration
      ∷ k.from_uint deposit_amount
      ∷ k.from_uint expiry
      ∷ [])

  unfoldable pub clearance_message_var : ℕ → ℕ → Fr → Fr → Fr
  clearance_message_var protocol_version chain_id contract_address withdrawal_nullifier =
      hash_fields p (
        domain p (codes "zkapi.v2.clear")
        ∷ k.from_uint protocol_version
        ∷ k.from_uint chain_id
        ∷ contract_address
        ∷ withdrawal_nullifier
        ∷ [])

module _ {Fr : Type 0} (p : Poseidon Fr) where
  -- The loop over the siblings, with the bit of each level selecting the sides.
  unfoldable pub path_var : List Bool → Fr → List Fr → Fr
  path_var bits current [] = current
  path_var [] current (sibling ∷ rest) = current
  path_var (bit ∷ bits) current (sibling ∷ rest) =
      path_var bits
        (hash_fields p (
          domain p (codes "zkapi.v2.node")
          ∷ (if bit then sibling else current)
          ∷ (if bit then current else sibling)
          ∷ []))
        rest

module _ {Fr Sc Pt : Type 0} (c : BabyJubJub Fr Sc Pt) where
  unfoldable pub commitment_var : ℕ → Sc → Fr → Pt
  commitment_var balance blinding note_leaf =
      c.add
        (c.add (c.mul_bigint balance c.generator)
          (c.mul_bigint (c.scalar_into_bigint blinding) c.blinding_generator))
        (c.mul_bigint (c.field_into_bigint note_leaf) c.note_generator)

module _ {Fr Sc Pt : Type 0} (k : CircuitField Fr) (p : Poseidon Fr) (c : BabyJubJub Fr Sc Pt) where
  unfoldable pub state_message_var : ℕ → ℕ → Fr → Pt → Fr → Fr
  state_message_var protocol_version chain_id contract_address commitment anchor = hash_fields p (
      domain p (codes "zkapi.v2.state")
      ∷ k.from_uint protocol_version
      ∷ k.from_uint chain_id
      ∷ contract_address
      ∷ c.affine_x commitment
      ∷ c.affine_y commitment
      ∷ anchor
      ∷ [])

module _ {Fr Sc Pt : Type 0} (p : Poseidon Fr) (c : BabyJubJub Fr Sc Pt) where
  -- The challenge multiplies the key as the full hash, bit by bit.
  unfoldable pub enforce_signature : Pt → Fr → StateSignature Sc Pt → Bool → Bool
  enforce_signature public_key message signature condition =
      let challenge_hash = hash_fields p (
        domain p (codes "zkapi.v2.sig")
        ∷ c.affine_x signature.r
        ∷ c.affine_y signature.r
        ∷ message
        ∷ []) in
      let lhs = c.mul_bigint (c.scalar_into_bigint signature.s) c.generator in
      let rhs = c.add signature.r (c.mul_bigint (c.field_into_bigint challenge_hash) public_key) in
      conditional condition (c.point_eq lhs rhs)
