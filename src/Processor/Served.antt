-- ===== src/Processor/Served.antt =====
-- rust/crates/zkapi-server/src/processor.rs: what a request that is answered has been through.
use zk_api.Prelude.{
  ℕ, ◌≤◌, ◌≡◌, List, ◌∷◌, Option, none, some, ok, ltb, arith, Result-cases, Option-cases,
  Bool-cases, inl, inr,
}
use zk_api.Felt.{Felt252}
use zk_api.Inputs.{canonical_response_hash}
use zk_api.Server.Store.{NullifierStore, lookup_by_nullifier, reserve, finalize}
use zk_api.Signature.{XmssSignature}
use zk_api.Stark.{StarkField, felt_to_field}
use zk_api.Pedersen.{StarkCurve}
use zk_api.Processor.{ApiRequest, RequestResponse, ProviderResponse, Backend, Env, RequestProcessor}
use zk_api.Processor.Checks.{check_request, charge_cap}
use zk_api.Processor.States.{NextState, sign_request}
use zk_api.Processor.Handlers.{
  admit, transcript_of, response_of, finalize_charge, charge_request, serve, process_request,
}

module _ {F P : Type 0} (b : Backend) (k : StarkField F) (c : StarkCurve F P) where
  sign_request-store :
      (env : Env) (r : ApiRequest) (anon : P) (charge : ℕ) (w : RequestProcessor F)
      → (sign_request k c env r anon charge w).1.store ≡ w.store
  unfolding sign_request
  sign_request-store env r anon charge w = ground arith

  -- The parts of an answered charge: the point, the signature with its state, and the transcript
  -- that was stored.
  pub record IsCharged (env : Env) (r : ApiRequest) (proof_bytes : List ℕ)
      (answer : ProviderResponse) (response_hash : Felt252) (w : RequestProcessor F)
      (response : RequestResponse) (after : NullifierStore) : Type 0 where
    pub anon : P
    pub sig : XmssSignature
    pub next : NextState
    pub signed : RequestProcessor F
    pub point :
        c.from_affine
          (felt_to_field k r.public_inputs.anon_commitment_x)
          (felt_to_field k r.public_inputs.anon_commitment_y)
        ≡ some anon
    pub signs : sign_request k c env r anon answer.charge_applied w ≡ (ok (sig, next), signed)
    pub answers : response ≡ response_of b k c r answer response_hash sig next signed
    pub stores :
        finalize b.json env.finalize_served env.finalized_at r.public_inputs.request_nullifier
          (transcript_of b k c env r proof_bytes answer response_hash sig next signed)
          signed.store
        ≡ (ok tt, after)
    pub kept : signed.store ≡ w.store

  -- The end of a charge, once it has been signed.
  finalize_charge-ok :
      (env : Env) (r : ApiRequest) (proof_bytes : List ℕ) (answer : ProviderResponse)
      (response_hash : Felt252) (sig : XmssSignature) (next : NextState) (w1 : RequestProcessor F)
      (response : RequestResponse)
      → (finalize_charge b k c env r proof_bytes answer response_hash sig next w1).0 ≡ ok response
      → (response ≡ response_of b k c r answer response_hash sig next w1)
        × (finalize b.json env.finalize_served env.finalized_at r.public_inputs.request_nullifier
              (transcript_of b k c env r proof_bytes answer response_hash sig next w1)
              w1.store
            ≡ (
              ok tt,
              (finalize_charge b k c env r proof_bytes answer response_hash sig next w1).1.store,
            ))
  unfolding finalize_charge
  finalize_charge-ok env r proof_bytes answer response_hash sig next w1 response h =
      elim (Result-cases (
        (finalize b.json env.finalize_served env.finalized_at r.public_inputs.request_nullifier
          (transcript_of b k c env r proof_bytes answer response_hash sig next w1) w1.store).0)) [
            | inr (problem, failed) ↦ absurd (ground arith)
            | inl (u, done) ↦ (ground arith, ground arith)
          ]

  charge_request-IsCharged :
      (env : Env) (r : ApiRequest) (proof_bytes : List ℕ) (answer : ProviderResponse)
      (response_hash : Felt252) (w : RequestProcessor F) (response : RequestResponse)
      → (charge_request b k c env r proof_bytes answer response_hash w).0 ≡ ok response
      → IsCharged env r proof_bytes answer response_hash w response
          ((charge_request b k c env r proof_bytes answer response_hash w).1.store)
  unfolding charge_request
  charge_request-IsCharged env r proof_bytes answer response_hash w response h =
      elim (Option-cases (
        c.from_affine (felt_to_field k r.public_inputs.anon_commitment_x)
          (felt_to_field k r.public_inputs.anon_commitment_y))) [
            | inl e ↦ absurd (ground arith)
            | inr (p, e) ↦
                elim (Result-cases ((sign_request k c env r p answer.charge_applied w).0)) [
                  | inr (problem, failed) ↦ absurd (ground arith)
                  | inl ((s, n), done) ↦
                      let w1 = (sign_request k c env r p answer.charge_applied w).1 in
                      let same : charge_request b k c env r proof_bytes answer response_hash w
                          ≡ finalize_charge b k c env r proof_bytes answer response_hash s n w1 =
                        ground arith in
                      let end =
                        finalize_charge-ok env r proof_bytes answer response_hash s n w1 response
                          (rw (← same) h) in
                      record {
                        anon = p;
                        sig = s;
                        next = n;
                        signed = w1;
                        point = e;
                        signs = (λ i. (done i, w1));
                        answers = end.0;
                        stores = rw same (end.1);
                        kept = sign_request-store env r p answer.charge_applied w;
                      }
                ]
          ]

  -- A request that is answered for the first time, and the store after it: its nullifier was
  -- reserved, the provider answered within the cap, and the charge was made.
  pub record IsServed (env : Env) (r : ApiRequest) (w : RequestProcessor F)
      (response : RequestResponse) (after : NullifierStore) : Type 0 where
    pub proof_bytes : List ℕ
    pub answer : ProviderResponse
    pub response_hash : Felt252
    pub store1 : NullifierStore
    pub checked : check_request b k env.now r w ≡ ok proof_bytes
    pub reserves :
        reserve env.reserve_served env.now r.public_inputs.request_nullifier r.client_request_id
          r.payload_hash w.store
        ≡ (ok tt, store1)
    pub executes : env.execute r.client_request_id r.payload r.payload_hash ≡ ok answer
    pub hashes : canonical_response_hash b.keccak answer.payload ≡ some response_hash
    pub within : answer.charge_applied ≤ charge_cap w.config
    pub charged :
        IsCharged env r proof_bytes answer response_hash
          (record w { store = store1; provider_calls = r.client_request_id ∷ w.provider_calls })
          response
          after

  admit_fresh :
      (env : Env) (r : ApiRequest) (store : NullifierStore) (x : Option RequestResponse)
      → lookup_by_nullifier b.json r.public_inputs.request_nullifier store ≡ none
      → (admit b env r store).0 ≡ ok x
      → (x ≡ none)
        × (reserve env.reserve_served env.now r.public_inputs.request_nullifier r.client_request_id
              r.payload_hash store
            ≡ (ok tt, (admit b env r store).1))
  unfolding admit
  admit_fresh env r store x absent h =
      elim (Result-cases (
        (reserve env.reserve_served env.now r.public_inputs.request_nullifier r.client_request_id
          r.payload_hash store).0)) [
            | inr (problem, failed) ↦ absurd (ground arith)
            | inl (u, done) ↦ (ground arith, ground arith)
          ]

  serve-IsServed :
      (env : Env) (r : ApiRequest) (proof_bytes : List ℕ) (w : RequestProcessor F)
      (response : RequestResponse)
      → (serve b k c env r proof_bytes w).0 ≡ ok response
      → (answer : ProviderResponse) × (response_hash : Felt252) × (env.execute r.client_request_id
            r.payload r.payload_hash
          ≡ ok answer)
        × (canonical_response_hash b.keccak answer.payload ≡ some response_hash)
        × (answer.charge_applied ≤ charge_cap w.config)
        × IsCharged env r proof_bytes answer response_hash
            (record w { provider_calls = r.client_request_id ∷ w.provider_calls })
            response
            ((serve b k c env r proof_bytes w).1.store)
  unfolding serve
  serve-IsServed env r proof_bytes w response h =
      let w1 = record w { provider_calls = r.client_request_id ∷ w.provider_calls } in
      elim (Result-cases (env.execute r.client_request_id r.payload r.payload_hash)) [
        | inr (problem, failed) ↦ absurd (ground arith)
        | inl (answer, executed) ↦
            elim (Option-cases (canonical_response_hash b.keccak answer.payload)) [
              | inl e ↦ absurd (ground arith)
              | inr (rh, hashed) ↦
                  elim (Bool-cases (ltb (charge_cap w.config) answer.charge_applied)) [
                    | inl over ↦ absurd (ground arith)
                    | inr under ↦
                        let same : serve b k c env r proof_bytes w
                            ≡ charge_request b k c env r proof_bytes answer rh w1 =
                          ground arith in
                        (
                          answer,
                          rh,
                          executed,
                          hashed,
                          ground arith,
                          rw same (
                              charge_request-IsCharged env r proof_bytes answer rh w1 response
                                (rw (← same) h)),
                        )
                  ]
            ]
      ]

  pub process_request-IsServed :
      (env : Env) (r : ApiRequest) (w : RequestProcessor F) (response : RequestResponse)
      → lookup_by_nullifier b.json r.public_inputs.request_nullifier w.store ≡ none
      → (process_request b k c env r w).0 ≡ ok response
      → IsServed env r w response ((process_request b k c env r w).1.store)
  unfolding process_request
  process_request-IsServed env r w response absent h =
      elim (Result-cases (check_request b k env.now r w)) [
        | inr (problem, failed) ↦ absurd (ground arith)
        | inl (bytes, checked) ↦ elim (Result-cases ((admit b env r w.store).0)) [
          | inr (problem, refused) ↦ absurd (ground arith)
          | inl (x, admitted) ↦
              let fresh = admit_fresh env r w.store x absent admitted in
              let w1 = record w { store = (admit b env r w.store).1 } in
              let none_yet = fresh.0 in
              let same : process_request b k c env r w ≡ serve b k c env r bytes w1 =
                ground arith in
              let (answer, rh, executed, hashed, within, charged) =
                serve-IsServed env r bytes w1 response (rw (← same) h) in
              record {
                proof_bytes = bytes;
                answer = answer;
                response_hash = rh;
                store1 = (admit b env r w.store).1;
                checked = checked;
                reserves = fresh.1;
                executes = executed;
                hashes = hashed;
                within = within;
                charged = rw same charged;
              }
        ]
      ]
