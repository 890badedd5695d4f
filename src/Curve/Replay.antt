-- ===== src/Curve/Replay.antt =====
-- rust/crates/zkapi-proof: a rerandomization and an update leave a commitment as it was only when
-- their blindings amount to the charge.
use zk_api.Prelude.{ℕ, ◌≡◌, sym, ap, ◌∙◌, ok, Result}
use zk_api.Core.{Poseidon}
use zk_api.Curve.{
  CurveError, BabyJubJub, point_from_wire, point_to_wire, rerandomize_commitment, updated_point,
}
use zk_api.Curve.Commitments.{CurveLaws, point_from-to_wire}

module _ {Fr Sc Pt : Type 0} (p : Poseidon Fr) (c : BabyJubJub Fr Sc Pt)
    (laws : CurveLaws p c) where
  open laws use {add_assoc, add_comm, add_neg}

  ok_injective : (a b : Pt) (m : Result CurveError Pt) → m ≡ ok a → m ≡ ok b → a ≡ b
  ok_injective a b m e f = cc

  -- Different points have different wires.
  pub point_to_wire-injective : (a b : Pt) → point_to_wire p c a ≡ point_to_wire p c b → a ≡ b
  point_to_wire-injective a b e =
      ok_injective a b _ (point_from-to_wire p c laws a)
        (ap (point_from_wire p c) e ∙ point_from-to_wire p c laws b)

  swap : (a b d : Pt) → c.add (c.add a b) d ≡ c.add (c.add a d) b
  swap a b d = add_assoc a b d ∙ ap (c.add a) (add_comm b d) ∙ sym (add_assoc a d b)

  -- n + x = n + g gives x = g.
  cancel_left : (n x g : Pt) → c.add n x ≡ c.add n g → x ≡ g
  cancel_left n x g e =
      sym (add_neg x n)
      ∙ ap (λ (t : Pt). c.add t (c.neg n)) (add_comm x n ∙ e ∙ add_comm n g)
      ∙ add_neg g n

  pub updated_point-rerandomize_commitment :
      (commitment : Pt) (q delta : Sc) (charge : ℕ)
      → updated_point p c (rerandomize_commitment p c commitment q) charge delta ≡ commitment
      → c.add
          (c.mul_bigint (c.scalar_into_bigint q) c.blinding_generator)
          (c.mul_bigint (c.scalar_into_bigint delta) c.blinding_generator)
        ≡ c.mul_bigint (c.scalar_into_bigint (c.scalar_from_u128 charge)) c.generator
  unfolding updated_point rerandomize_commitment
  updated_point-rerandomize_commitment n q delta charge e =
      let x = c.mul_bigint (c.scalar_into_bigint q) c.blinding_generator in
      let d = c.mul_bigint (c.scalar_into_bigint delta) c.blinding_generator in
      let g = c.mul_bigint (c.scalar_into_bigint (c.scalar_from_u128 charge)) c.generator in
      cancel_left n (c.add x d) g (
        sym (add_assoc n x d)
        ∙ sym (add_neg (c.add (c.add n x) d) g)
        ∙ swap (c.add (c.add n x) d) g (c.neg g)
        ∙ ap (λ (t : Pt). c.add t g) (swap (c.add n x) d (c.neg g) ∙ e))
