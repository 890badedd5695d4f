-- ===== src/Curve/Toy.antt =====
-- A group of eight elements, three bits under exclusive or, that meets the laws asked of
-- Baby-JubJub: the three generators are the three unit vectors, and scalars are bits.
use zk_api.Prelude.{ℕ, ◌+◌, ◌*◌, ◌%◌, ◌^◌, ◌≡◌, refl, Bool, true, false, ◌&&◌, ◌||◌, ◌==◌, arith}
use mathlib.Core.List.{foldl}
use zk_api.Felt.{to_be_bytes, from_be_bytes}
use zk_api.Felt.Bytes.{IsCanonical}
use zk_api.Core.{Poseidon, felt_to_field, field_to_felt}
use zk_api.Curve.{BabyJubJub, scalar, scalar_to_felt}
use zk_api.Curve.Commitments.{CurveLaws}

pub record Bits : Type 0 where
  pub g : Bool
  pub h : Bool
  pub j : Bool

abbrev pub bit : Bool → ℕ
bit true = 1
bit false = 0

abbrev pub xor : Bool → Bool → Bool
xor true true = false
xor true false = true
xor false b = b

abbrev pub is_odd : ℕ → Bool
is_odd n = n % 2 == 1

abbrev pub join : Bits → Bits → Bits
join a b = record { g = xor a.g b.g; h = xor a.h b.h; j = xor a.j b.j }

abbrev pub times : ℕ → Bits → Bits
times n a = record { g = is_odd n && a.g; h = is_odd n && a.h; j = is_odd n && a.j }

abbrev same : Bool → Bool → Bool
same true b = b
same false true = false
same false false = true

-- Field elements are numbers; the sponge is a polynomial.
unfoldable pub toy : Poseidon ℕ
unfolding to_be_bytes from_be_bytes
toy = record {
  from_be_bytes_mod_order = from_be_bytes 0;
  to_bytes_be = to_be_bytes 32;
  absorb_squeeze = foldl (λ acc x. (acc * 31 + x + 7) % 2 ^ 61) 5;
}

unfoldable pub toy_curve : BabyJubJub ℕ Bool Bits
unfolding to_be_bytes from_be_bytes
toy_curve = record {
  generator = record { g = true; h = false; j = false };
  blinding_generator = record { g = false; h = true; j = false };
  note_generator = record { g = false; h = false; j = true };
  add = join;
  neg = λ a. a;
  mul_bigint = times;
  affine_x = λ a. bit a.g + 2 * bit a.h;
  affine_y = λ a. bit a.j;
  is_on_curve = λ x y. true;
  is_in_correct_subgroup = λ x y. true;
  into_group = λ x y. record { g = is_odd x; h = (x % 4 == 2) || (x % 4 == 3); j = is_odd y };
  point_eq = λ a b. same a.g b.g && same a.h b.h && same a.j b.j;
  field_into_bigint = λ x. x;
  scalar_from_u128 = is_odd;
  scalar_from_be_bytes_mod_order = λ bs. is_odd (from_be_bytes 0 bs);
  scalar_into_bigint = bit;
  scalar_to_bytes_be = λ s. to_be_bytes 32 (bit s);
  scalar_add = xor;
  scalar_mul = ◌&&◌;
  scalar_is_zero = λ s. elim s [ true ↦ false | false ↦ true ];
  scalar_one = true;
  challenge_from_hash = is_odd;
}

xor_assoc : (a b d : Bool) → xor (xor a b) d ≡ xor a (xor b d)
xor_assoc a b d = ground arith

xor_comm : (a b : Bool) → xor a b ≡ xor b a
xor_comm a b = ground arith

is_odd-add : (a b : ℕ) → is_odd (a + b) ≡ xor (is_odd a) (is_odd b)
is_odd-add a b = ground arith

mul_add :
    (a b : Bool) (q : Bits) → times (bit (xor a b)) q ≡ join (times (bit a) q) (times (bit b) q)
mul_add a b q = ground arith

mul_mul : (a b : Bool) (q : Bits) → times (bit (a && b)) q ≡ times (bit a) (times (bit b) q)
mul_mul a b q = ground arith

join_assoc : (a b d : Bits) → join (join a b) d ≡ join a (join b d)
join_assoc a b d =
    ground (arith, xor_assoc a.g b.g d.g, xor_assoc a.h b.h d.h, xor_assoc a.j b.j d.j)

join_comm : (a b : Bits) → join a b ≡ join b a
join_comm a b = ground (arith, xor_comm a.g b.g, xor_comm a.h b.h, xor_comm a.j b.j)

join_self : (a b : Bits) → join (join a b) b ≡ a
join_self a b = ground arith

wire_x :
    (g h : Bool) → felt_to_field toy (field_to_felt toy (bit g + 2 * bit h)) ≡ bit g + 2 * bit h
unfolding felt_to_field field_to_felt to_be_bytes from_be_bytes toy toy_curve
wire_x true true = refl
wire_x true false = refl
wire_x false true = refl
wire_x false false = refl

wire_y : (j : Bool) → felt_to_field toy (field_to_felt toy (bit j)) ≡ bit j
unfolding felt_to_field field_to_felt to_be_bytes from_be_bytes toy toy_curve
wire_y true = refl
wire_y false = refl

affine_back : (q : Bits) → toy_curve.into_group (toy_curve.affine_x q) (toy_curve.affine_y q) ≡ q
unfolding to_be_bytes from_be_bytes toy toy_curve
affine_back q = ground arith

wire_scalar : (s : Bool) → scalar toy toy_curve (scalar_to_felt toy toy_curve s) ≡ s
unfolding scalar scalar_to_felt to_be_bytes from_be_bytes toy toy_curve
wire_scalar true = refl
wire_scalar false = refl

scalar-IsCanonical : (s : Bool) → IsCanonical (scalar_to_felt toy toy_curve s)
unfolding scalar_to_felt to_be_bytes from_be_bytes toy toy_curve
scalar-IsCanonical true = omega arith
scalar-IsCanonical false = omega arith

same_refl : (a : Bool) → same a a ≡ true
same_refl true = refl
same_refl false = refl

pub toy_laws : CurveLaws toy toy_curve
unfolding to_be_bytes from_be_bytes toy toy_curve
toy_laws = record {
  add_assoc = join_assoc;
  add_comm = join_comm;
  add_neg = join_self;
  mul_add = mul_add;
  mul_mul = mul_mul;
  from_u128_add = is_odd-add;
  on_curve = λ q. refl;
  in_subgroup = λ q. refl;
  into_group_affine = affine_back;
  wire_x = λ q. wire_x q.g q.h;
  wire_y = λ q. wire_y q.j;
  wire_scalar = wire_scalar;
  scalar_canonical = scalar-IsCanonical;
  point_eq_refl = λ q. rw (same_refl q.g, same_refl q.h) (same_refl q.j);
}
