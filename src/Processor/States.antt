-- ===== src/Processor/States.antt =====
-- rust/crates/zkapi-server/src/processor.rs: the next state of a charged request and its signature.
use zk_api.Prelude.{ℕ, true, false, Option, none, some, codes, Result, err, ok}
use zk_api.Felt.{Felt252, felt_zero, from_u64}
use zk_api.Server.{internal}
use zk_api.Signature.{XmssSignature}
use zk_api.Stark.{
  StarkField, domain_felt, felt_to_field, field_to_felt, poseidon_hash, compute_state_message,
  compute_next_anchor, compute_blind_delta,
}
use zk_api.Pedersen.{StarkCurve, server_update}
use zk_api.Signer.{sign_next_state}
use zk_api.Processor.{Fault, fails, panics, ServerConfig, ApiRequest, Env, RequestProcessor}

-- The state that the closure given to the signer builds for a leaf.
pub record NextState : Type 0 where
  pub next_cx : Felt252
  pub next_cy : Felt252
  pub next_anchor : Felt252
  pub blind_delta_felt : Felt252
  pub message : Felt252

abbrev pub message_of : Option NextState → Felt252
message_of none = felt_zero
message_of (some n) = n.message

module _ {F P : Type 0} (k : StarkField F) (c : StarkCurve F P) where
  unfoldable pub generate_server_rng : Felt252 → Felt252
  unfolding poseidon_hash domain_felt
  generate_server_rng nullifier =
      poseidon_hash k (domain_felt (codes "zkapi.anchor")) nullifier (from_u64 1)

  unfoldable pub generate_server_rng2 : Felt252 → Felt252
  unfolding poseidon_hash domain_felt
  generate_server_rng2 nullifier =
      poseidon_hash k (domain_felt (codes "zkapi.blind")) nullifier (from_u64 2)

  -- The body of the closure; `none` is the panic of `to_affine` on the identity.
  unfoldable pub next_state : ServerConfig → Felt252 → P → ℕ → ℕ → Option NextState
  unfolding generate_server_rng generate_server_rng2 felt_to_field field_to_felt
  next_state config nullifier anon_point charge leaf_index =
      let blind = compute_blind_delta k (generate_server_rng2 nullifier) nullifier leaf_index in
      elim (c.to_affine (server_update c anon_point charge (felt_to_field k blind))) [
        | none ↦ none
        | some (x, y) ↦
            let cx = field_to_felt k x in
            let cy = field_to_felt k y in
            let anchor =
              compute_next_anchor k (generate_server_rng nullifier) nullifier cx cy leaf_index in
            let message =
              compute_state_message k config.protocol_version config.chain_id
                config.contract_address cx cy anchor in
            some (record {
              next_cx = cx;
              next_cy = cy;
              next_anchor = anchor;
              blind_delta_felt = blind;
              message = message;
            })
      ]

  -- Steps 14 to 16: the signer calls the closure with the leaf that it has reserved. A panic there
  -- burns the leaf of a durable signer and poisons the lock.
  unfoldable pub sign_request :
      Env
      → ApiRequest
      → P
      → ℕ
      → RequestProcessor F
      → Result Fault (XmssSignature × NextState) × RequestProcessor F
  sign_request env r anon_point charge w = elim w.poisoned [
    | true ↦ (err (fails (internal (codes "signer operation lock poisoned"))), w)
    | false ↦
        let state = next_state w.config r.public_inputs.request_nullifier anon_point charge in
        let (signed, signer1, table1) =
          sign_next_state k env.signer_served (λ leaf. message_of (state leaf)) w.signer w.table in
        elim signed [
          | err e ↦ (err (fails e), record w { signer = signer1; table = table1 })
          | ok (sig, leaf, m) ↦ elim (state leaf) [
            | none ↦ (err panics, record w { table = table1; poisoned = true })
            | some next ↦ (ok (sig, next), record w { signer = signer1; table = table1 })
          ]
        ]
  ]
