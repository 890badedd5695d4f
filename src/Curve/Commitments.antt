-- ===== src/Curve/Commitments.antt =====
-- The commitments are homomorphic: rerandomizing and charging a commitment to a balance gives the
-- commitment to the reduced balance, under the added blindings.
use zk_api.Prelude.{ℕ, ◌+◌, ◌-◌, ◌≤◌, ◌≡◌, refl, sym, ◌∙◌, ap, true, ok, ◌>>=◌, arith}
use zk_api.Felt.{Felt252}
use zk_api.Felt.Bytes.{IsCanonical}
use zk_api.Core.{Poseidon, felt_to_field, field_to_felt}
use zk_api.Curve.{
  BabyJubJub, scalar, scalar_to_felt, point_from_wire, point_to_wire, commitment_point,
  rerandomize_commitment, balance_commitment, rerandomize, add_blindings, updated_point,
  server_update,
}

-- What the code relies on of the group, the fields and their encodings: an abelian group, scalars
-- that act on it additively, and coordinates and scalars that survive their 32-byte encoding.
pub record CurveLaws {Fr Sc Pt : Type 0} (p : Poseidon Fr) (c : BabyJubJub Fr Sc Pt) : Type 0 where
  pub add_assoc : (a b d : Pt) → c.add (c.add a b) d ≡ c.add a (c.add b d)
  pub add_comm : (a b : Pt) → c.add a b ≡ c.add b a
  pub add_neg : (a b : Pt) → c.add (c.add a b) (c.neg b) ≡ a
  pub mul_add :
      (a b : Sc) (q : Pt)
      → c.mul_bigint (c.scalar_into_bigint (c.scalar_add a b)) q
        ≡ c.add (c.mul_bigint (c.scalar_into_bigint a) q) (c.mul_bigint (c.scalar_into_bigint b) q)
  pub mul_mul :
      (a b : Sc) (q : Pt)
      → c.mul_bigint (c.scalar_into_bigint (c.scalar_mul a b)) q
        ≡ c.mul_bigint (c.scalar_into_bigint a) (c.mul_bigint (c.scalar_into_bigint b) q)
  pub from_u128_add :
      (a b : ℕ)
      → c.scalar_from_u128 (a + b) ≡ c.scalar_add (c.scalar_from_u128 a) (c.scalar_from_u128 b)
  pub on_curve : (q : Pt) → c.is_on_curve (c.affine_x q) (c.affine_y q) ≡ true
  pub in_subgroup : (q : Pt) → c.is_in_correct_subgroup (c.affine_x q) (c.affine_y q) ≡ true
  pub into_group_affine : (q : Pt) → c.into_group (c.affine_x q) (c.affine_y q) ≡ q
  pub wire_x : (q : Pt) → felt_to_field p (field_to_felt p (c.affine_x q)) ≡ c.affine_x q
  pub wire_y : (q : Pt) → felt_to_field p (field_to_felt p (c.affine_y q)) ≡ c.affine_y q
  pub wire_scalar : (s : Sc) → scalar p c (scalar_to_felt p c s) ≡ s
  pub scalar_canonical : (s : Sc) → IsCanonical (scalar_to_felt p c s)
  pub point_eq_refl : (q : Pt) → c.point_eq q q ≡ true

module _ {Fr Sc Pt : Type 0} (p : Poseidon Fr) (c : BabyJubJub Fr Sc Pt)
    (laws : CurveLaws p c) where
  open laws use {
    add_assoc, add_comm, add_neg, mul_add, from_u128_add, on_curve, in_subgroup, into_group_affine,
    wire_x, wire_y, wire_scalar,
  }

  -- A point survives the wire.
  pub point_from-to_wire : (q : Pt) → point_from_wire p c (point_to_wire p c q) ≡ ok q
  unfolding point_from_wire point_to_wire
  point_from-to_wire q =
      rw (wire_x q, wire_y q, on_curve q, in_subgroup q) (ap ok (into_group_affine q))

  swap_last : (a b d : Pt) → c.add (c.add a b) d ≡ c.add (c.add a d) b
  swap_last a b d = add_assoc a b d ∙ ap (c.add a) (add_comm b d) ∙ sym (add_assoc a d b)

  rerandomize_commitment_point :
      (balance : ℕ) (blinding r : Sc) (leaf : Fr)
      → rerandomize_commitment p c (commitment_point p c balance blinding leaf) r
        ≡ commitment_point p c balance (c.scalar_add blinding r) leaf
  unfolding rerandomize_commitment commitment_point
  rerandomize_commitment_point balance blinding r leaf =
      swap_last _ _ _
      ∙ ap (λ (t : Pt). c.add t (c.mul_bigint (c.field_into_bigint leaf) c.note_generator))
          (add_assoc _ _ _ ∙ ap (c.add _) (sym (mul_add blinding r c.blinding_generator)))

  -- (r + x + b + j) - x + d = r + (b + d) + j
  cancel :
      (r x b j d : Pt)
      → c.add (c.add (c.add (c.add (c.add r x) b) j) (c.neg x)) d ≡ c.add (c.add r (c.add b d)) j
  cancel r x b j d =
      ap (λ (t : Pt). c.add (c.add (c.add t j) (c.neg x)) d) (swap_last r x b)
      ∙ ap (λ (t : Pt). c.add (c.add t (c.neg x)) d) (swap_last (c.add r b) x j)
      ∙ ap (λ (t : Pt). c.add t d) (add_neg (c.add (c.add r b) j) x)
      ∙ swap_last (c.add r b) j d
      ∙ ap (λ (t : Pt). c.add t j) (add_assoc r b d)

  updated_commitment_point :
      (rest charge : ℕ) (blinding delta : Sc) (leaf : Fr)
      → updated_point p c (commitment_point p c (rest + charge) blinding leaf) charge delta
        ≡ commitment_point p c rest (c.scalar_add blinding delta) leaf
  unfolding updated_point commitment_point
  updated_commitment_point rest charge blinding delta leaf =
      ap
        (λ (t : Pt).
          c.add
            (c.add
              (c.add (c.add t (c.mul_bigint (c.scalar_into_bigint blinding) c.blinding_generator))
                (c.mul_bigint (c.field_into_bigint leaf) c.note_generator))
              (c.neg (c.mul_bigint (c.scalar_into_bigint (c.scalar_from_u128 charge)) c.generator)))
            (c.mul_bigint (c.scalar_into_bigint delta) c.blinding_generator))
        (ap (λ (t : Sc). c.mul_bigint (c.scalar_into_bigint t) c.generator)
            (from_u128_add rest charge)
          ∙ mul_add (c.scalar_from_u128 rest) (c.scalar_from_u128 charge) c.generator)
      ∙ cancel _ _ _ _ _
      ∙ ap
          (λ (t : Pt).
            c.add
              (c.add (c.mul_bigint (c.scalar_into_bigint (c.scalar_from_u128 rest)) c.generator) t)
              (c.mul_bigint (c.field_into_bigint leaf) c.note_generator))
          (sym (mul_add blinding delta c.blinding_generator))

  -- Rerandomizing a commitment adds to its blinding.
  pub rerandomize-balance_commitment :
      (balance : ℕ) (blinding r leaf : Felt252)
      → rerandomize p c (balance_commitment p c balance blinding leaf) r
        ≡ ok (
            point_to_wire p c (
              commitment_point p c balance
                (c.scalar_add (scalar p c blinding) (scalar p c r))
                (felt_to_field p leaf)))
  unfolding rerandomize balance_commitment
  rerandomize-balance_commitment balance blinding r leaf =
      rw
        (
          point_from-to_wire
              (commitment_point p c balance (scalar p c blinding) (felt_to_field p leaf)),
          rerandomize_commitment_point balance (scalar p c blinding) (scalar p c r)
              (felt_to_field p leaf),
        )
        refl

  -- Charging a commitment reduces its balance.
  pub server_update-point :
      (rest charge : ℕ) (blinding : Sc) (delta : Felt252) (leaf : Fr)
      → server_update p c
          (point_to_wire p c (commitment_point p c (rest + charge) blinding leaf))
          charge
          delta
        ≡ ok (
            point_to_wire p c
              (commitment_point p c rest (c.scalar_add blinding (scalar p c delta)) leaf))
  unfolding server_update
  server_update-point rest charge blinding delta leaf =
      rw
        (
          point_from-to_wire (commitment_point p c (rest + charge) blinding leaf),
          updated_commitment_point rest charge blinding (scalar p c delta) leaf,
        )
        refl

  scalar-add_blindings :
      (a b : Felt252)
      → scalar p c (add_blindings p c a b) ≡ c.scalar_add (scalar p c a) (scalar p c b)
  unfolding add_blindings
  scalar-add_blindings a b = wire_scalar (c.scalar_add (scalar p c a) (scalar p c b))

  -- Under the laws of the curve, for a charge within the balance: rerandomizing the commitment to
  -- a balance, charging it and blinding it again, as wallet and server do between them, gives the
  -- commitment to the balance less the charge, under the sum of the blindings and the same note
  -- leaf.
  pub server_update-rerandomize :
      (balance charge : ℕ) (blinding r delta leaf : Felt252)
      → charge ≤ balance
      → (rerandomize p c (balance_commitment p c balance blinding leaf) r >>= λ anonymous.
          server_update p c anonymous charge delta)
        ≡ ok (
            balance_commitment p c
              (balance - charge)
              (add_blindings p c (add_blindings p c blinding r) delta)
              leaf)
  server_update-rerandomize balance charge blinding r delta leaf le =
      rw (rerandomize-balance_commitment balance blinding r leaf) (
        ap
          (λ (n : ℕ).
            server_update p c
              (point_to_wire p c (
                commitment_point p c n (c.scalar_add (scalar p c blinding) (scalar p c r))
                  (felt_to_field p leaf)))
              charge delta)
          (let e : balance ≡ balance - charge + charge = omega arith in e)
        ∙ server_update-point (balance - charge) charge _ delta (felt_to_field p leaf)
        ∙ ap
            (λ (b : Sc). ok (
              point_to_wire p c (commitment_point p c (balance - charge) b (felt_to_field p leaf))))
            (sym (
              scalar-add_blindings (add_blindings p c blinding r) delta
              ∙ ap (λ (b : Sc). c.scalar_add b (scalar p c delta))
                  (scalar-add_blindings blinding r)))
        ∙ ap ok (sym committed))
    where
      committed :
          balance_commitment p c
            (balance - charge)
            (add_blindings p c (add_blindings p c blinding r) delta)
            leaf
          ≡ point_to_wire p c (
              commitment_point p c
                (balance - charge)
                (scalar p c (add_blindings p c (add_blindings p c blinding r) delta))
                (felt_to_field p leaf))
      committed = unfold balance_commitment in refl

  -- Added blindings are written canonically.
  pub add_blindings-IsCanonical : (a b : Felt252) → IsCanonical (add_blindings p c a b)
  unfolding add_blindings
  add_blindings-IsCanonical a b = laws.scalar_canonical _
