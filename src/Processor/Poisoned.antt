-- ===== src/Processor/Poisoned.antt =====
-- rust/crates/zkapi-server/src/processor.rs: a next commitment without affine coordinates. The closure
-- panics while it holds the signer's lock, and nothing is signed from then on.
use zk_api.Prelude.{
  Result, ℕ, ◌≤◌, ◌≡◌, ◌≢◌, refl, ◌∙◌, true, false, List, ◌∷◌, none, some, err, ok, arith,
  Result-cases, Option-cases, inl, inr,
}
use zk_api.Felt.{Felt252}
use zk_api.Inputs.{canonical_response_hash}
use zk_api.Server.Store.{lookup_by_nullifier}
use zk_api.Signature.{XmssSignature}
use zk_api.Stark.{StarkField, felt_to_field}
use zk_api.Pedersen.{StarkCurve}
use zk_api.Signer.{sign_next_state}
use zk_api.Signer.Table.{SignerStateStore}
use zk_api.Processor.{
  NullifierStore, Fault, panics, ApiRequest, RequestResponse, ClearanceResponse, ProviderResponse,
  Backend, Env, RequestProcessor, update_root,
}
use zk_api.Processor.Checks.{check_request, charge_cap}
use zk_api.Processor.States.{message_of, sign_request, next_state}
use zk_api.Processor.Served.{process_request-IsServed}
use zk_api.Processor.Handlers.{admit, charge_request, serve, process_request, process_clearance}

module _ {F P : Type 0} (b : Backend) (k : StarkField F) (c : StarkCurve F P) where
  -- Calls on the processor, one after another.
  pub data Calls (w : RequestProcessor F) : RequestProcessor F → Type 0 where
    no_calls : Calls w w
    requests :
        (w1 : RequestProcessor F) (env : Env) (r : ApiRequest)
        → Calls w w1
        → Calls w ((process_request b k c env r w1).1)
    clears :
        (w1 : RequestProcessor F) (env : Env) (n : Felt252)
        → Calls w w1
        → Calls w ((process_clearance b k c env n w1).1)
    moves_root :
        (w1 : RequestProcessor F) (root : Felt252) → Calls w w1 → Calls w (update_root root w1)

  -- What a poisoned lock leaves alone.
  pub record IsStuck (w w1 : RequestProcessor F) : Type 0 where
    pub locked : w1.poisoned ≡ true
    pub signer : w1.signer ≡ w.signer
    pub table : w1.table ≡ w.table

  charge_request-IsStuck :
      (env : Env) (r : ApiRequest) (bytes : List ℕ) (answer : ProviderResponse) (rh : Felt252)
      (w : RequestProcessor F)
      → w.poisoned ≡ true
      → IsStuck w ((charge_request b k c env r bytes answer rh w).1)
  unfolding charge_request sign_request
  charge_request-IsStuck env r bytes answer rh w locked = ground arith

  serve-IsStuck :
      (env : Env) (r : ApiRequest) (bytes : List ℕ) (w : RequestProcessor F)
      → w.poisoned ≡ true
      → IsStuck w ((serve b k c env r bytes w).1)
  unfolding serve
  serve-IsStuck env r bytes w locked =
      let w1 = record w { provider_calls = r.client_request_id ∷ w.provider_calls } in
      elim (Result-cases (env.execute r.client_request_id r.payload r.payload_hash)) [
        | inr (problem, failed) ↦ ground arith
        | inl (answer, executed) ↦
            elim (Option-cases (canonical_response_hash b.keccak answer.payload)) [
              | inl e ↦ ground arith
              | inr (rh, hashed) ↦
                  let stuck = charge_request-IsStuck env r bytes answer rh w1 locked in ground arith
            ]
      ]

  process_request-IsStuck :
      (env : Env) (r : ApiRequest) (w : RequestProcessor F)
      → w.poisoned ≡ true
      → IsStuck w ((process_request b k c env r w).1)
  unfolding process_request
  process_request-IsStuck env r w locked =
      let w1 = record w { store = (admit b env r w.store).1 } in
      elim (Result-cases (check_request b k env.now r w)) [
        | inr (problem, failed) ↦ ground arith
        | inl (bytes, checked) ↦ let stuck = serve-IsStuck env r bytes w1 locked in ground arith
      ]

  process_clearance-IsStuck :
      (env : Env) (n : Felt252) (w : RequestProcessor F)
      → w.poisoned ≡ true
      → IsStuck w ((process_clearance b k c env n w).1)
  unfolding process_clearance
  process_clearance-IsStuck env n w locked = ground arith

  Calls-IsStuck : {w w1 : RequestProcessor F} → Calls w w1 → w.poisoned ≡ true → IsStuck w w1
  unfolding update_root
  Calls-IsStuck no_calls locked = record { locked = locked; signer = refl; table = refl }
  Calls-IsStuck (requests w1 env r past) locked =
      let before = Calls-IsStuck past locked in
      let stuck = process_request-IsStuck env r w1 before.locked in
      record {
        locked = stuck.locked;
        signer = stuck.signer ∙ before.signer;
        table = stuck.table ∙ before.table;
      }
  Calls-IsStuck (clears w1 env n past) locked =
      let before = Calls-IsStuck past locked in
      let stuck = process_clearance-IsStuck env n w1 before.locked in
      record {
        locked = stuck.locked;
        signer = stuck.signer ∙ before.signer;
        table = stuck.table ∙ before.table;
      }
  Calls-IsStuck (moves_root w1 root past) locked =
      let before = Calls-IsStuck past locked in
      record { locked = before.locked; signer = before.signer; table = before.table }

  clearance_refused :
      (env : Env) (n : Felt252) (w : RequestProcessor F) (response : ClearanceResponse)
      → w.poisoned ≡ true
      → (process_clearance b k c env n w).0 ≢ ok response
  unfolding process_clearance
  clearance_refused env n w response locked h = ground arith

  request_refused :
      (env : Env) (r : ApiRequest) (w : RequestProcessor F) (response : RequestResponse)
      → w.poisoned ≡ true
      → lookup_by_nullifier b.json r.public_inputs.request_nullifier w.store ≡ none
      → (process_request b k c env r w).0 ≢ ok response
  unfolding sign_request
  request_refused env r w response locked absent h =
      let s = process_request-IsServed b k c env r w response absent h in
      let signs = s.charged.signs in ground arith

  sign_request-panics :
      (env : Env) (r : ApiRequest) (anon : P) (charge leaf : ℕ) (m : Felt252) (sig : XmssSignature)
      (w : RequestProcessor F)
      → w.poisoned ≡ false
      → let state = next_state k c w.config r.public_inputs.request_nullifier anon charge in
        (sign_next_state k env.signer_served (λ l. message_of (state l)) w.signer w.table).0
          ≡ ok (sig, leaf, m)
        → next_state k c w.config r.public_inputs.request_nullifier anon charge leaf ≡ none
        → let state = next_state k c w.config r.public_inputs.request_nullifier anon charge in
          sign_request k c env r anon charge w ≡ (
            err panics,
            record w {
              table =
                  (sign_next_state k env.signer_served
                    (λ l. message_of (state l))
                    w.signer
                    w.table).2;
              poisoned = true;
            },
          )
  unfolding sign_request
  sign_request-panics env r anon charge leaf m sig w free call at = ground arith

  -- What the call that panics leaves.
  pub record IsPanicked (w : RequestProcessor F) (store1 : NullifierStore)
      (table1 : SignerStateStore) (call : Result Fault RequestResponse × RequestProcessor F)
      : Type 0 where
    pub panicked : call.0 ≡ err panics
    pub locked : call.1.poisoned ≡ true
    pub signer : call.1.signer ≡ w.signer
    pub burnt : call.1.table ≡ table1
    pub store : call.1.store ≡ store1

  pub process_request-IsPanicked :
      (env : Env) (r : ApiRequest) (w : RequestProcessor F) (bytes : List ℕ)
      (answer : ProviderResponse) (rh m : Felt252) (anon : P) (leaf : ℕ) (sig : XmssSignature)
      → check_request b k env.now r w ≡ ok bytes
      → (admit b env r w.store).0 ≡ ok none
      → env.execute r.client_request_id r.payload r.payload_hash ≡ ok answer
      → canonical_response_hash b.keccak answer.payload ≡ some rh
      → answer.charge_applied ≤ charge_cap w.config
      → c.from_affine
          (felt_to_field k r.public_inputs.anon_commitment_x)
          (felt_to_field k r.public_inputs.anon_commitment_y)
        ≡ some anon
      → w.poisoned ≡ false
      → let state =
          next_state k c w.config r.public_inputs.request_nullifier anon answer.charge_applied in
        (sign_next_state k env.signer_served (λ l. message_of (state l)) w.signer w.table).0
          ≡ ok (sig, leaf, m)
        → next_state k c w.config r.public_inputs.request_nullifier anon answer.charge_applied leaf
          ≡ none
        → IsPanicked w
            ((admit b env r w.store).1)
            ((sign_next_state k env.signer_served (λ l. message_of (state l)) w.signer w.table).2)
            (process_request b k c env r w)
  unfolding process_request serve charge_request
  process_request-IsPanicked env r w bytes answer rh m anon leaf sig checked admitted executed
        hashed within point free call at =
      let w1 = record w {
        store = (admit b env r w.store).1;
        provider_calls = r.client_request_id ∷ w.provider_calls;
      } in
      let panic = sign_request-panics env r anon answer.charge_applied leaf m sig w1 free call at in
      record {
        panicked = ground arith;
        locked = ground arith;
        signer = ground arith;
        burnt = ground arith;
        store = ground arith;
      }

  -- Let a request pass the checks and be admitted, the provider answer it within the cap, and the
  -- signer have a leaf for it, while the updated commitment at that leaf is the point without
  -- affine coordinates. Then the call panics, and after any further calls the signer is as
  -- it was before and its table as the reservation of that leaf has left it; no clearance is
  -- answered, and no request whose nullifier is new.
  pub process_request-poisons :
      (env env2 : Env) (r r2 : ApiRequest) (n2 : Felt252) (w w2 : RequestProcessor F)
      (bytes : List ℕ) (answer : ProviderResponse) (rh m : Felt252) (anon : P) (leaf : ℕ)
      (sig : XmssSignature) (response2 : RequestResponse) (cleared2 : ClearanceResponse)
      → check_request b k env.now r w ≡ ok bytes
      → (admit b env r w.store).0 ≡ ok none
      → env.execute r.client_request_id r.payload r.payload_hash ≡ ok answer
      → canonical_response_hash b.keccak answer.payload ≡ some rh
      → answer.charge_applied ≤ charge_cap w.config
      → c.from_affine
          (felt_to_field k r.public_inputs.anon_commitment_x)
          (felt_to_field k r.public_inputs.anon_commitment_y)
        ≡ some anon
      → w.poisoned ≡ false
      → let state =
          next_state k c w.config r.public_inputs.request_nullifier anon answer.charge_applied in
        (sign_next_state k env.signer_served (λ l. message_of (state l)) w.signer w.table).0
          ≡ ok (sig, leaf, m)
        → next_state k c w.config r.public_inputs.request_nullifier anon answer.charge_applied leaf
          ≡ none
        → Calls ((process_request b k c env r w).1) w2
        → lookup_by_nullifier b.json r2.public_inputs.request_nullifier w2.store ≡ none
        → ((process_request b k c env r w).0 ≡ err panics)
          × (w2.signer ≡ w.signer)
          × (w2.table
              ≡ (sign_next_state k env.signer_served
                  (λ l. message_of (state l))
                  w.signer
                  w.table).2)
          × ((process_clearance b k c env2 n2 w2).0 ≢ ok cleared2)
          × ((process_request b k c env2 r2 w2).0 ≢ ok response2)
  process_request-poisons env env2 r r2 n2 w w2 bytes answer rh m anon leaf sig response2 cleared2
        checked admitted executed hashed within point free call at past absent2 =
      let panic =
        process_request-IsPanicked env r w bytes answer rh m anon leaf sig checked admitted executed
          hashed within point free call at in
      let stuck = Calls-IsStuck past panic.locked in
      (
        panic.panicked,
        stuck.signer ∙ panic.signer,
        stuck.table ∙ panic.burnt,
        clearance_refused env2 n2 w2 cleared2 stuck.locked,
        request_refused env2 r2 w2 response2 stuck.locked absent2,
      )
