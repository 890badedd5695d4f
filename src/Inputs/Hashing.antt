-- ===== src/Inputs/Hashing.antt =====
-- rust/crates/zkapi-types/src/inputs.rs: which digest `hash_bytes_to_felt` takes, and the agreement
-- of the two ways to hash a proof's public outputs.
use zk_api.Prelude.{
  codes, length, ℕ, zero, suc, ◌+◌, ◌<◌, ◌^◌, ◌≡◌, refl, ap, ◌∙◌, subst, List, Str, some, ok, err,
  arith,
}
use zk_api.Felt.{from_u64, to_u64, Felt252, FeltError, try_from_bytes_be}
use zk_api.Felt.Bytes.{to_u64-from_u64}
use zk_api.Inputs.{
  hash_felts_to_felt, digest, hash_from, hash_bytes_to_felt, RequestPublicInputs,
  WithdrawalPublicInputs, request_cairo_outputs, withdrawal_cairo_outputs,
  request_public_output_hash, withdrawal_public_output_hash, public_output_hash_from_cairo_outputs,
  request_public_output_hash_from_outputs, withdrawal_public_output_hash_from_outputs, first_u64,
}

-- The digest at this counter is not a canonical field element.
abbrev pub Rejected : (List ℕ → List ℕ) → Str → List ℕ → ℕ → Type 0
Rejected keccak domain payload counter =
    (e : FeltError) × (try_from_bytes_be (digest keccak domain payload counter) ≡ err e)

module _ (keccak : List ℕ → List ℕ) where
  hash_from-first :
      (k left counter : ℕ) (domain : Str) (payload : List ℕ) (f : Felt252)
      → k < left
      → ((i : ℕ) → i < k → Rejected keccak domain payload (counter + i))
      → try_from_bytes_be (digest keccak domain payload (counter + k)) ≡ ok f
      → hash_from keccak left domain payload counter ≡ some f
  unfolding hash_from
  hash_from-first k zero counter domain payload f lt rejected accepted = absurd (omega arith)
  hash_from-first zero (suc left) counter domain payload f lt rejected accepted =
      rw
        (
          hash_from,
          subst (λ (n : ℕ). try_from_bytes_be (digest keccak domain payload n) ≡ ok f)
              (let z : counter + 0 ≡ counter = omega arith in z) accepted,
        )
        refl
  hash_from-first (suc k) (suc left) counter domain payload f lt rejected accepted =
      let first = rejected 0 (omega arith) in
      rw
        (
          hash_from,
          ap (λ (n : ℕ). try_from_bytes_be (digest keccak domain payload n))
                (let z : counter ≡ counter + 0 = omega arith in z)
              ∙ first.1,
        )
        (hash_from-first k left (counter + 1) domain payload f (omega arith)
          (λ i h.
            subst (λ (n : ℕ). Rejected keccak domain payload n)
              (let z : counter + suc i ≡ counter + 1 + i = omega arith in z)
              (rejected (suc i) (omega arith)))
          (subst (λ (n : ℕ). try_from_bytes_be (digest keccak domain payload n) ≡ ok f)
            (let z : counter + suc k ≡ counter + 1 + k = omega arith in z) accepted))

  -- When the digest at a 32-bit counter is a canonical field element and the digests at all
  -- smaller counters are not, `hash_bytes_to_felt` returns that field element.
  pub hash_bytes_to_felt-first :
      (k : ℕ) (domain : Str) (payload : List ℕ) (f : Felt252)
      → k < 2 ^ 32
      → ((i : ℕ) → i < k → Rejected keccak domain payload i)
      → try_from_bytes_be (digest keccak domain payload k) ≡ ok f
      → hash_bytes_to_felt keccak domain payload ≡ some f
  unfolding hash_bytes_to_felt
  hash_bytes_to_felt-first k domain payload f lt rejected accepted =
      hash_from-first k (2 ^ 32) 0 domain payload f lt
        (λ i h.
          subst (λ (n : ℕ). Rejected keccak domain payload n) (let z : i ≡ 0 + i = omega arith in z)
            (rejected i h))
        (subst (λ (n : ℕ). try_from_bytes_be (digest keccak domain payload n) ≡ ok f)
          (let z : k ≡ 0 + k = omega arith in z) accepted)

  hash_request_outputs :
      (outputs : List Felt252)
      → length outputs ≡ 12
      → first_u64 keccak outputs ≡ some 1
      → public_output_hash_from_cairo_outputs keccak outputs
        ≡ hash_felts_to_felt keccak (codes "zkapi.req.outputs.v1") outputs
  unfolding public_output_hash_from_cairo_outputs request_public_output_hash_from_outputs
  hash_request_outputs outputs n first =
      rw (public_output_hash_from_cairo_outputs, first, request_public_output_hash_from_outputs, n)
        (rw first refl)

  hash_withdrawal_outputs :
      (outputs : List Felt252)
      → length outputs ≡ 15
      → first_u64 keccak outputs ≡ some 2
      → public_output_hash_from_cairo_outputs keccak outputs
        ≡ hash_felts_to_felt keccak (codes "zkapi.wd.outputs.v1") outputs
  unfolding public_output_hash_from_cairo_outputs withdrawal_public_output_hash_from_outputs
  hash_withdrawal_outputs outputs n first =
      rw
        (
          public_output_hash_from_cairo_outputs, first, withdrawal_public_output_hash_from_outputs,
          n,
        )
        (rw first refl)

  -- For a request statement of type 1, and a withdrawal statement of type 2, hashing the program's
  -- outputs with the statement type read back from them gives the hash of the statement.
  pub public_output_hash_from_cairo_outputs_lem :
      (r : RequestPublicInputs) (w : WithdrawalPublicInputs)
      → r.statement_type ≡ 1
      → w.statement_type ≡ 2
      → (public_output_hash_from_cairo_outputs keccak (request_cairo_outputs r)
          ≡ request_public_output_hash keccak r)
        × (public_output_hash_from_cairo_outputs keccak (withdrawal_cairo_outputs w)
            ≡ withdrawal_public_output_hash keccak w)
  unfolding request_public_output_hash withdrawal_public_output_hash first_u64 request_cairo_outputs
      withdrawal_cairo_outputs
  public_output_hash_from_cairo_outputs_lem r w one two = (
    hash_request_outputs (request_cairo_outputs r) refl
        (ap (λ (t : ℕ). to_u64 (from_u64 t)) one ∙ to_u64-from_u64 1 (omega arith)),
    hash_withdrawal_outputs (withdrawal_cairo_outputs w) refl
        (ap (λ (t : ℕ). to_u64 (from_u64 t)) two ∙ to_u64-from_u64 2 (omega arith)),
  )
