-- ===== src/Core.antt =====
-- rust/crates/zkapi-core/src/v2.rs, leaf.rs and nullifier.rs: the domain-separated hashes.
-- The BN254 scalar field and the Poseidon sponge are arkworks' (`ark_bn254`,
-- `ark_crypto_primitives`): they enter as the record `Poseidon`, with no law assumed here.
use zk_api.Prelude.{
  ℕ, ◌-◌, if◌then◌else◌, Bool, List, [], ◌∷◌, ◌++◌, map, length, replicate, Str, codes,
}
use zk_api.Felt.{Felt252, felt_zero, felt_one, from_u64, from_u128}

-- `Fr::from_be_bytes_mod_order`, `into_bigint().to_bytes_be()`, and absorbing a list of field
-- elements into a fresh `PoseidonSponge` and squeezing one.
pub record Poseidon (Fr : Type 0) : Type 0 where
  pub from_be_bytes_mod_order : List ℕ → Fr
  pub to_bytes_be : Fr → List ℕ
  pub absorb_squeeze : List Fr → Fr

module _ {Fr : Type 0} (p : Poseidon Fr) where
  unfoldable pub domain : Str → Fr
  domain label = p.from_be_bytes_mod_order label

  unfoldable pub felt_to_field : Felt252 → Fr
  felt_to_field v = p.from_be_bytes_mod_order v.bytes

  unfoldable pub field_to_felt : Fr → Felt252
  field_to_felt v =
      let raw = p.to_bytes_be v in record { bytes = replicate (32 - length raw) 0 ++ raw }

  unfoldable pub hash_fields : List Fr → Fr
  hash_fields inputs = p.absorb_squeeze inputs

  unfoldable pub hash_domain : Str → List Felt252 → Felt252
  unfolding domain felt_to_field field_to_felt hash_fields
  hash_domain label inputs = field_to_felt (hash_fields (domain label ∷ map felt_to_field inputs))

  unfoldable pub registration_commitment : Felt252 → Felt252
  registration_commitment secret = hash_domain (codes "zkapi.v2.reg") (secret ∷ felt_zero ∷ [])

  unfoldable pub note_leaf : ℕ → Felt252 → ℕ → ℕ → Felt252
  note_leaf note_id registration deposit_amount expiry =
      hash_domain (codes "zkapi.v2.leaf")
        (from_u64 note_id ∷ registration ∷ from_u128 deposit_amount ∷ from_u64 expiry ∷ [])

  unfoldable pub merkle_node : Felt252 → Felt252 → Felt252
  merkle_node left right = hash_domain (codes "zkapi.v2.node") (left ∷ right ∷ [])

  unfoldable pub nullifier : Felt252 → Felt252 → Felt252
  nullifier secret anchor = hash_domain (codes "zkapi.v2.null") (secret ∷ anchor ∷ [])

  unfoldable pub compute_genesis_nullifier : Felt252 → Felt252
  compute_genesis_nullifier secret = nullifier secret felt_one

  unfoldable pub authorization_tag : Felt252 → Felt252 → Felt252
  authorization_tag null request_context =
      hash_domain (codes "zkapi.v2.auth") (null ∷ request_context ∷ [])

  unfoldable pub state_message : ℕ → ℕ → Felt252 → Felt252 → Felt252 → Felt252 → Felt252
  state_message protocol_version chain_id contract_address commitment_x commitment_y anchor =
      hash_domain (codes "zkapi.v2.state") (
        from_u64 protocol_version
        ∷ from_u64 chain_id
        ∷ contract_address
        ∷ commitment_x
        ∷ commitment_y
        ∷ anchor
        ∷ [])

  unfoldable pub clearance_message : ℕ → ℕ → Felt252 → Felt252 → Felt252
  clearance_message protocol_version chain_id contract_address withdrawal_nullifier =
      hash_domain (codes "zkapi.v2.clear") (
        from_u64 protocol_version
        ∷ from_u64 chain_id
        ∷ contract_address
        ∷ withdrawal_nullifier
        ∷ [])

  unfoldable pub withdrawal_tag : Felt252 → Felt252 → ℕ → Bool → Felt252
  withdrawal_tag null destination final_balance has_clearance =
      hash_domain (codes "zkapi.v2.withdraw") (
        null
        ∷ destination
        ∷ from_u128 final_balance
        ∷ from_u64 (if has_clearance then 1 else 0)
        ∷ [])

  unfoldable pub next_anchor : Felt252 → Felt252 → Felt252 → Felt252 → Felt252
  next_anchor server_randomness request_nullifier commitment_x commitment_y =
      hash_domain (codes "zkapi.v2.anchor")
        (server_randomness ∷ request_nullifier ∷ commitment_x ∷ commitment_y ∷ [])

  unfoldable pub blind_delta : Felt252 → Felt252 → Felt252
  blind_delta server_randomness request_nullifier =
      hash_domain (codes "zkapi.v2.blind") (server_randomness ∷ request_nullifier ∷ [])
