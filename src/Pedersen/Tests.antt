-- ===== src/Pedersen/Tests.antt =====
-- The commitments in the integers modulo the order of the curve, with generators 1 and 5.
use zk_api.Prelude.{
  ℕ, zero, suc, ◌+◌, ◌-◌, ◌*◌, ◌/◌, ◌%◌, ◌<◌, ◌≤◌, ◌≡◌, refl, ap, ◌∙◌, List, [], ◌∷◌, Bool, true,
  some, arith, ◌==◌, ==_iff,
}
use mathlib.Core.HLevel.{Σ_prop_path}
use native.Mathlib.Bridge.{le_prop}
use zk_api.Felt.{from_be_bytes}
use zk_api.Pedersen.{
  StarkCurve, curve_order, commit, rerandomize, server_update, verify_opening, add_blinding,
  scalar_mul,
}
use zk_api.Pedersen.Multiples.{StarkLaws, times, bits_value, scalar_mul-times}
use zk_api.Pedersen.Openings.{verify_opening-server_update}

abbrev Residue : Type 0
Residue = (x : ℕ) × (x < curve_order)

residue : ℕ → Residue
residue x = (x % curve_order, omega arith)

Residue-ext : (a b : Residue) → a.0 ≡ b.0 → a ≡ b
Residue-ext a b h = Σ_prop_path (λ n. le_prop) h

sum : Residue → Residue → Residue
unfolding residue
sum a b = residue (a.0 + b.0)

-- The bits of a number, with enough rounds.
bits_of : ℕ → ℕ → List Bool
bits_of zero n = []
bits_of (suc rounds) n = (n % 2 == 1) ∷ bits_of rounds (n / 2)

bits_value-bits_of : (rounds n : ℕ) → n ≤ rounds → bits_value (bits_of rounds n) ≡ n
unfolding bits_value bits_of
bits_value-bits_of zero n h = omega arith
bits_value-bits_of (suc rounds) n h =
    ground (arith, bits_value-bits_of rounds (n / 2) (omega arith))

residues : StarkCurve ℕ Residue
unfolding residue sum bits_of
residues = record {
  to_biguint = λ n. n;
  to_bits_le = λ n. bits_of n n;
  from_bytes_be = from_be_bytes 0;
  from_u128 = λ n. n;
  identity = residue 0;
  add = sum;
  neg = λ a. residue (curve_order - a.0);
  from_affine = λ x y. some (residue x);
  to_affine = λ p. some (p.0, 0);
  point_eq = λ p q. p.0 == q.0;
  g_balance = residue 1;
  h_blind = residue 5;
}

times-residue : (n : ℕ) (a : Residue) → (times sum (residue 0) n a).0 ≡ n * a.0 % curve_order
unfolding times sum residue
times-residue zero a = omega arith
times-residue (suc n) a =
    let split : suc n * a.0 ≡ a.0 + n * a.0 = grind arith in omega (arith, times-residue n a)

residues-laws : StarkLaws residues
unfolding residues residue sum
residues-laws = record {
  add_assoc = λ p q r. Residue-ext _ _ (omega arith);
  add_comm = λ p q. Residue-ext _ _ (omega arith);
  identity_add = λ p. Residue-ext _ _ (let lt = p.1 in omega arith);
  add_neg = λ p. Residue-ext _ _ (let lt = p.1 in omega arith);
  order_g = Residue-ext _ _ (times-residue curve_order (residue 1) ∙ omega arith);
  order_h = Residue-ext _ _ (times-residue curve_order (residue 5) ∙ omega arith);
  point_eq_iff = λ p q. (
    (λ h. Residue-ext p q ((==_iff (p.0) (q.0)).0 h)),
    (λ e. (==_iff (p.0) (q.0)).1 (ap (λ (x : Residue). x.0) e)),
  );
  bits = λ x. bits_value-bits_of x x (omega arith);
  bytes = λ bs n lt. refl;
  u128 = λ n lt. refl;
}

verify_opening-server_update_example :
    verify_opening residues
      (server_update residues (rerandomize residues (commit residues 1000 12) 34) 300 56)
      700
      (add_blinding residues (add_blinding residues 12 34) 56)
    ≡ true
verify_opening-server_update_example =
    verify_opening-server_update residues residues-laws 1000 300 12 34 56 (omega arith)
      (omega arith)

scalar_mul-times_example :
    scalar_mul residues (residue 7) 12
    ≡ times residues.add residues.identity (residues.to_biguint 12) (residue 7)
scalar_mul-times_example = scalar_mul-times residues residues-laws (residue 7) 12
