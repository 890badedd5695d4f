-- ===== src/Signer/Clearance.antt =====
-- rust/crates/zkapi-server/src/signer.rs: the clearance signatures that a signer gives out are verified.
use zk_api.Prelude.{
  ℕ, ◌<◌, ◌^◌, ◌≡◌, sym, Bool, true, ok, arith, Bool-cases, Result-cases, inl, inr,
}
use zk_api.Felt.{Felt252}
use zk_api.Stark.{StarkField}
use zk_api.Signature.{XmssSignature}
use zk_api.Xmss.{verify, root_felt, sign_reserved, sign_with_index}
use zk_api.Xmss.Signing.{IsGenerated}
use zk_api.Xmss.Verifying.{verify_for_height-signature_at}
use zk_api.Signer.{
  ServerSigner, sign_tree, sign_clearance, clear_root, sign_durable, sign_in_memory,
}
use zk_api.Signer.Table.{clear, SignerStateStore}
use zk_api.Signer.Accepted.{IsSignedAt, sign_durable-IsSignedAt, sign_in_memory-IsSignedAt}

module _ {F : Type 0} (k : StarkField F) where
  sign_clearance-IsSignedAt :
      (reachable : Bool) (message : Felt252) (s : ServerSigner F) (table : SignerStateStore)
      (sig : XmssSignature) (leaf : ℕ)
      → (sign_clearance k reachable message s table).0 ≡ ok (sig, leaf)
      → (m : Felt252) × IsSignedAt k s.clear_keypair s.clear_epoch (λ _. message) sig leaf m
  unfolding sign_clearance sign_tree
  sign_clearance-IsSignedAt reachable message s table sig leaf h =
      let build : ℕ → Felt252 = λ _. message in
      elim (Bool-cases s.durable_state) [
        | inl durable ↦
            elim (Result-cases
              ((sign_durable k reachable clear s.clear_epoch build s.clear_keypair table).0)) [
                | inr (e, failed) ↦ absurd (ground arith)
                | inl ((sig0, leaf0, m), done) ↦ (
                  m,
                  sign_durable-IsSignedAt k reachable clear s.clear_epoch build s.clear_keypair
                      table sig leaf m (ground arith),
                )
              ]
        | inr memory ↦
            elim (Result-cases ((sign_in_memory k s.clear_epoch build s.clear_keypair).0)) [
              | inr (e, failed) ↦ absurd (ground arith)
              | inl ((sig0, leaf0, m), done) ↦ (
                m,
                sign_in_memory-IsSignedAt k s.clear_epoch build s.clear_keypair sig leaf m
                    (ground arith),
              )
            ]
      ]

  -- A clearance keypair that was generated, up to its cursor, with a height below 32 gives out only
  -- clearance signatures that are verified under the clearance root.
  pub sign_clearance-verify :
      (round : (x : F) → k.from_bytes_be (k.to_bytes_be x) ≡ x) (seed : F) (height : ℕ)
      (reachable : Bool) (message : Felt252) (s : ServerSigner F) (table : SignerStateStore)
      (sig : XmssSignature) (leaf : ℕ)
      → IsGenerated k seed height s.clear_keypair
      → height < 32
      → (sign_clearance k reachable message s table).0 ≡ ok (sig, leaf)
      → verify k (clear_root k s) message sig ≡ true
  unfolding clear_root
  sign_clearance-verify round seed height reachable message s table sig leaf g small h =
      let (m, at) = sign_clearance-IsSignedAt reachable message s table sig leaf h in
      let lt : leaf < 2 ^ height = rw (sym g.rounds) at.within in
      rw at.signed (
        (verify_for_height-signature_at k round seed s.clear_keypair height leaf s.clear_epoch
          message g small lt).1)

  -- A clearance moves at most the cursor of its keypair, and so leaves the root.
  pub clear_root-sign_clearance :
      (seed : F) (height : ℕ) (reachable : Bool) (message : Felt252) (s : ServerSigner F)
      (table : SignerStateStore)
      → IsGenerated k seed height s.clear_keypair
      → clear_root k ((sign_clearance k reachable message s table).1) ≡ clear_root k s
  unfolding clear_root root_felt sign_clearance sign_tree sign_durable sign_in_memory sign_reserved
      sign_with_index
  clear_root-sign_clearance seed height reachable message s table g = ground arith
