-- ===== src/Pedersen.antt =====
-- rust/crates/zkapi-crypto/src/pedersen.rs: the balance commitments of the first protocol. The field
-- and the points of the Stark curve are `starknet_types_core`'s: they enter as `StarkCurve`.
pub mod Multiples
pub mod Openings
mod Tests
use zk_api.Prelude.{
  ℕ, ◌+◌, ◌%◌, List, [], ◌∷◌, Bool, true, false, Option, none, some, if◌then◌else◌,
}
use zk_api.Felt.{to_be_bytes}

-- `Felt::to_biguint`, `to_bits_le`, `from_bytes_be`, `From<u128>`; `ProjectivePoint::identity`, `+`,
-- `neg`, `from_affine`, `to_affine` with the two coordinates, `==`; and the points with the
-- coordinates of `G_BALANCE` and `H_BLIND`.
pub record StarkCurve (F P : Type 0) : Type 0 where
  pub to_biguint : F → ℕ
  pub to_bits_le : F → List Bool
  pub from_bytes_be : List ℕ → F
  pub from_u128 : ℕ → F
  pub identity : P
  pub add : P → P → P
  pub neg : P → P
  pub from_affine : F → F → Option P
  pub to_affine : P → Option (F × F)
  pub point_eq : P → P → Bool
  pub g_balance : P
  pub h_blind : P

abbrev pub curve_order : ℕ
curve_order = 0x0800000000000010ffffffffffffffffb781126dcae7b2321e66a241adc64d2f

module _ {F P : Type 0} (c : StarkCurve F P) where
  -- The bytes of a number below 2^256, padded on the left to 32.
  unfoldable pub biguint_to_felt : ℕ → F
  unfolding to_be_bytes
  biguint_to_felt value = c.from_bytes_be (to_be_bytes 32 value)

  unfoldable pub reduce_blinding : F → F
  unfolding biguint_to_felt
  reduce_blinding value = biguint_to_felt (c.to_biguint value % curve_order)

  unfoldable pub add_blinding : F → F → F
  unfolding biguint_to_felt
  add_blinding a b = biguint_to_felt ((c.to_biguint a + c.to_biguint b) % curve_order)

  -- The loop over the bits, the lowest first, with `result` and `temp`.
  unfoldable pub double_and_add : P → P → List Bool → P
  double_and_add result temp [] = result
  double_and_add result temp (bit ∷ bits) =
      double_and_add (if bit then c.add result temp else result) (c.add temp temp) bits

  unfoldable pub scalar_mul : P → F → P
  unfolding double_and_add
  scalar_mul point scalar = double_and_add c.identity point (c.to_bits_le scalar)

  unfoldable pub commit : ℕ → F → P
  unfolding scalar_mul
  commit balance blinding =
      c.add (scalar_mul c.g_balance (c.from_u128 balance)) (scalar_mul c.h_blind blinding)

  unfoldable pub rerandomize : P → F → P
  unfolding scalar_mul
  rerandomize point rho = c.add point (scalar_mul c.h_blind rho)

  unfoldable pub server_update : P → ℕ → F → P
  unfolding scalar_mul
  server_update anon_commitment charge blind_delta =
      c.add (c.add anon_commitment (c.neg (scalar_mul c.g_balance (c.from_u128 charge))))
        (scalar_mul c.h_blind blind_delta)

  unfoldable pub verify_opening : P → ℕ → F → Bool
  unfolding commit
  verify_opening point balance blinding = c.point_eq point (commit balance blinding)
