-- ===== src/Curve.antt =====
-- rust/crates/zkapi-proof: the curve operations of compact.rs and the commitments and signatures
-- of groth16.rs. Baby-JubJub, its scalar field and the Poseidon sponge are arkworks': they enter
-- as the records `Poseidon` and `BabyJubJub`. `Pt` stands for the group elements of the prime-order
-- subgroup, in which every operation here stays.
pub mod Commitments
pub mod Signatures
pub mod Replay
pub mod Toy
mod Tests
use zk_api.Prelude.{
  ℕ, ◌-◌, Bool, true, not, ◌&&◌, List, [], ◌∷◌, ◌++◌, length, replicate, Str, codes, Result, ok,
  err, ◌>>=◌, if◌then◌else◌,
}
use zk_api.Felt.{Felt252, felt_eq}
use zk_api.Core.{Poseidon, felt_to_field, field_to_felt, domain, hash_fields}

pub record CurvePointWire : Type 0 where
  pub x : Felt252
  pub y : Felt252

-- The derived `PartialEq`.
unfoldable pub wire_eq : CurvePointWire → CurvePointWire → Bool
wire_eq a b = felt_eq a.x b.x && felt_eq a.y b.y

pub record SchnorrSignature : Type 0 where
  pub r_x : Felt252
  pub r_y : Felt252
  pub s : Felt252

-- The group as arkworks gives it. `blinding_generator` and `note_generator` are the two points
-- that `derive_generator` finds by hashing to the curve.
pub record BabyJubJub (Fr Sc Pt : Type 0) : Type 0 where
  pub generator : Pt
  pub blinding_generator : Pt
  pub note_generator : Pt
  pub add : Pt → Pt → Pt
  pub neg : Pt → Pt
  pub mul_bigint : ℕ → Pt → Pt
  pub affine_x : Pt → Fr
  pub affine_y : Pt → Fr
  pub is_on_curve : Fr → Fr → Bool
  pub is_in_correct_subgroup : Fr → Fr → Bool
  pub into_group : Fr → Fr → Pt
  pub point_eq : Pt → Pt → Bool
  pub field_into_bigint : Fr → ℕ
  pub scalar_from_u128 : ℕ → Sc
  pub scalar_from_be_bytes_mod_order : List ℕ → Sc
  pub scalar_into_bigint : Sc → ℕ
  pub scalar_to_bytes_be : Sc → List ℕ
  pub scalar_add : Sc → Sc → Sc
  pub scalar_mul : Sc → Sc → Sc
  pub scalar_is_zero : Sc → Bool
  pub scalar_one : Sc
  pub challenge_from_hash : Fr → Sc

pub data CurveError : Type 0 where
  invalid_point : CurveError

pub record StateSignature (Sc Pt : Type 0) : Type 0 where
  pub r : Pt
  pub s : Sc

pub record StateSigningKey (Sc Pt : Type 0) : Type 0 where
  pub secret : Sc
  pub public : Pt

module _ {Fr Sc Pt : Type 0} (p : Poseidon Fr) (c : BabyJubJub Fr Sc Pt) where
  unfoldable pub scalar : Felt252 → Sc
  scalar v = c.scalar_from_be_bytes_mod_order v.bytes

  unfoldable pub scalar_to_felt : Sc → Felt252
  scalar_to_felt v =
      let raw = c.scalar_to_bytes_be v in record { bytes = replicate (32 - length raw) 0 ++ raw }

  unfoldable pub point_from_wire : CurvePointWire → Result CurveError Pt
  point_from_wire w =
      let x = felt_to_field p w.x in
      let y = felt_to_field p w.y in
      if not (c.is_on_curve x y && c.is_in_correct_subgroup x y)
      then err invalid_point
      else ok (c.into_group x y)

  unfoldable pub point_to_wire : Pt → CurvePointWire
  point_to_wire q = record {
    x = field_to_felt p (c.affine_x q);
    y = field_to_felt p (c.affine_y q);
  }

  -- groth16.rs: C = balance*G + blinding*H + note_leaf*J.
  unfoldable pub commitment_point : ℕ → Sc → Fr → Pt
  commitment_point balance blinding note_leaf =
      c.add
        (c.add (c.mul_bigint (c.scalar_into_bigint (c.scalar_from_u128 balance)) c.generator)
          (c.mul_bigint (c.scalar_into_bigint blinding) c.blinding_generator))
        (c.mul_bigint (c.field_into_bigint note_leaf) c.note_generator)

  unfoldable pub rerandomize_commitment : Pt → Sc → Pt
  rerandomize_commitment commitment rerandomization =
      c.add commitment (c.mul_bigint (c.scalar_into_bigint rerandomization) c.blinding_generator)

  unfoldable pub balance_commitment : ℕ → Felt252 → Felt252 → CurvePointWire
  unfolding point_to_wire commitment_point scalar
  balance_commitment balance blinding note_leaf =
      point_to_wire (commitment_point balance (scalar blinding) (felt_to_field p note_leaf))

  unfoldable pub rerandomize : CurvePointWire → Felt252 → Result CurveError CurvePointWire
  unfolding point_from_wire point_to_wire rerandomize_commitment scalar
  rerandomize commitment rerandomization = do
    point ← point_from_wire commitment
    ok (point_to_wire (rerandomize_commitment point (scalar rerandomization)))

  unfoldable pub add_blindings : Felt252 → Felt252 → Felt252
  unfolding scalar scalar_to_felt
  add_blindings left right = scalar_to_felt (c.scalar_add (scalar left) (scalar right))

  -- The arithmetic of `server_update`: `-` on points adds the negation.
  unfoldable pub updated_point : Pt → ℕ → Sc → Pt
  updated_point anonymous charge blind_delta =
      c.add
        (c.add anonymous
          (c.neg (c.mul_bigint (c.scalar_into_bigint (c.scalar_from_u128 charge)) c.generator)))
        (c.mul_bigint (c.scalar_into_bigint blind_delta) c.blinding_generator)

  unfoldable pub server_update : CurvePointWire → ℕ → Felt252 → Result CurveError CurvePointWire
  unfolding point_from_wire point_to_wire updated_point scalar
  server_update anonymous charge blind_delta = do
    point ← point_from_wire anonymous
    ok (point_to_wire (updated_point point charge (scalar blind_delta)))

  unfoldable pub signature_challenge : Pt → Fr → Sc
  signature_challenge r message =
      c.challenge_from_hash (
        hash_fields p
          (domain p (codes "zkapi.v2.sig") ∷ c.affine_x r ∷ c.affine_y r ∷ message ∷ []))

  -- A zero secret is replaced by one.
  unfoldable pub from_secret : Sc → StateSigningKey Sc Pt
  from_secret secret0 =
      let secret = if c.scalar_is_zero secret0 then c.scalar_one else secret0 in
      record { secret = secret; public = c.mul_bigint (c.scalar_into_bigint secret) c.generator }

  -- The nonce is the random scalar that the source draws.
  unfoldable pub sign : StateSigningKey Sc Pt → Fr → Sc → StateSignature Sc Pt
  unfolding signature_challenge
  sign key message nonce =
      let r = c.mul_bigint (c.scalar_into_bigint nonce) c.generator in
      let challenge = signature_challenge r message in
      record { r = r; s = c.scalar_add nonce (c.scalar_mul challenge key.secret) }

  unfoldable pub verify_state_signature : Pt → Fr → StateSignature Sc Pt → Bool
  unfolding signature_challenge
  verify_state_signature public message signature =
      let challenge = signature_challenge signature.r message in
      let lhs = c.mul_bigint (c.scalar_into_bigint signature.s) c.generator in
      let rhs = c.add signature.r (c.mul_bigint (c.scalar_into_bigint challenge) public) in
      c.point_eq lhs rhs

  unfoldable pub signature_from_wire : SchnorrSignature → Result CurveError (StateSignature Sc Pt)
  unfolding point_from_wire scalar
  signature_from_wire signature = do
    r ← point_from_wire (record { x = signature.r_x; y = signature.r_y })
    ok (record { r = r; s = scalar signature.s })

  unfoldable pub signature_to_wire : StateSignature Sc Pt → SchnorrSignature
  unfolding point_to_wire scalar_to_felt
  signature_to_wire signature =
      let point = point_to_wire signature.r in
      record { r_x = point.x; r_y = point.y; s = scalar_to_felt signature.s }

  unfoldable pub verify_signature :
      CurvePointWire → Felt252 → SchnorrSignature → Result CurveError Bool
  unfolding point_from_wire signature_from_wire verify_state_signature
  verify_signature public_key message signature = do
    public ← point_from_wire public_key
    parsed ← signature_from_wire signature
    ok (verify_state_signature public (felt_to_field p message) parsed)
