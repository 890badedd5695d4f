-- ===== src/Circuit/Equal.antt =====
-- rust/crates/zkapi-proof/src/groth16.rs: the gadgets compute what the native functions compute.
use zk_api.Prelude.{
  ℕ, zero, suc, sym, ◌%◌, ◌/◌, ◌^◌, ◌≤◌, ◌<◌, ◌==◌, bit_and-one, ◌≡◌, refl, ap, true, Bool-cases,
  inl, inr, List, [], ◌∷◌, codes, length, arith,
}
use zk_api.Core.{Poseidon, domain, hash_fields}
use zk_api.Curve.{
  BabyJubJub, StateSignature, commitment_point, signature_challenge, verify_state_signature,
}
use zk_api.Circuit.{CircuitField}
use zk_api.Circuit.Gadgets.{uint_bits, path_var, commitment_var, enforce_signature}
use zk_api.Circuit.Native.{merkle_root}

-- What the code relies on of the field and the group: equality is decided, machine integers keep
-- their values, and a multiple depends on the scalar modulo the order of the subgroup.
pub record CircuitLaws {Fr Sc Pt : Type 0} (k : CircuitField Fr) (c : BabyJubJub Fr Sc Pt)
    : Type 0 where
  pub field_eq_sound : (a b : Fr) → k.field_eq a b ≡ true → a ≡ b
  pub field_eq_refl : (a : Fr) → k.field_eq a a ≡ true
  pub point_eq_sound : (a b : Pt) → c.point_eq a b ≡ true → a ≡ b
  pub from_uint_injective :
      (m n : ℕ) → m < 2 ^ 128 → n < 2 ^ 128 → k.from_uint m ≡ k.from_uint n → m ≡ n
  pub from_uint-one : k.from_uint 1 ≡ k.one
  pub from_uint-zero : k.from_uint 0 ≡ k.zero
  pub mul-from_u128 :
      (n : ℕ) (q : Pt)
      → n < 2 ^ 128
      → c.mul_bigint (c.scalar_into_bigint (c.scalar_from_u128 n)) q ≡ c.mul_bigint n q
  pub mul-challenge :
      (h : Fr) (q : Pt)
      → c.mul_bigint (c.scalar_into_bigint (c.challenge_from_hash h)) q
        ≡ c.mul_bigint (c.field_into_bigint h) q

module _ {Fr : Type 0} (p : Poseidon Fr) where
  pub path_var-merkle_root :
      (width index : ℕ) (current : Fr) (siblings : List Fr)
      → length siblings ≤ width
      → path_var p (uint_bits width index) current siblings ≡ merkle_root p index current siblings
  unfolding path_var uint_bits merkle_root
  path_var-merkle_root width index current [] le = refl
  path_var-merkle_root zero index current (sibling ∷ rest) le = absurd (omega arith)
  path_var-merkle_root (suc width) index current (sibling ∷ rest) le =
      let back = path_var-merkle_root width (index / 2) in
      let bit = bit_and-one index in
      elim (Bool-cases (index % 2 == 1)) [
        | inl odd ↦ ground (
          arith,
          bit,
          back (hash_fields p (domain p (codes "zkapi.v2.node") ∷ sibling ∷ current ∷ [])) rest,
        )
        | inr even ↦ ground (
          arith,
          bit,
          back (hash_fields p (domain p (codes "zkapi.v2.node") ∷ current ∷ sibling ∷ [])) rest,
        )
      ]

module _ {Fr Sc Pt : Type 0} (k : CircuitField Fr) (p : Poseidon Fr) (c : BabyJubJub Fr Sc Pt)
    (laws : CircuitLaws k c) where
  pub commitment_var-point :
      (balance : ℕ) (blinding : Sc) (leaf : Fr)
      → balance < 2 ^ 128
      → commitment_var c balance blinding leaf ≡ commitment_point p c balance blinding leaf
  unfolding commitment_var commitment_point
  commitment_var-point balance blinding leaf lt =
      ap
        (λ (t : Pt).
          c.add (c.add t (c.mul_bigint (c.scalar_into_bigint blinding) c.blinding_generator))
            (c.mul_bigint (c.field_into_bigint leaf) c.note_generator))
        (sym (laws.mul-from_u128 balance c.generator lt))

  pub enforce_signature-verify :
      (key : Pt) (message : Fr) (sig : StateSignature Sc Pt)
      → enforce_signature p c key message sig true ≡ verify_state_signature p c key message sig
  unfolding enforce_signature verify_state_signature signature_challenge
  enforce_signature-verify key message sig =
      ap
        (λ (t : Pt).
          c.point_eq (c.mul_bigint (c.scalar_into_bigint sig.s) c.generator) (c.add sig.r t))
        (sym (laws.mul-challenge _ key))
