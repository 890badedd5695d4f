-- ===== src/Processor/Clearance.antt =====
-- rust/crates/zkapi-server/src/processor.rs: a nullifier that has been cleared.
use zk_api.Prelude.{
  ℕ, ◌<◌, ◌≡◌, ◌≢◌, refl, Bool, true, false, none, some, err, ok, bytes_eq, bytes_eq_refl, arith,
  Result-cases, Option-cases, Bool-cases, inl, inr,
}
use zk_api.Felt.{Felt252, to_hex}
use zk_api.Server.{TranscriptRecord, nullifier_used, clearance_reserved}
use zk_api.Server.Store.{
  NullifierStore, SignatureJson, has_key, new_row, row_to_record, lookup_by_nullifier,
  reserve_clearance, status_to_str, str_to_status,
}
use zk_api.Server.Lifecycle.{History, lookup_by_nullifier-History}
use zk_api.Server.Transcript.{select_key-last}
use zk_api.Stark.{StarkField, compute_clearance_message}
use zk_api.Xmss.{verify}
use zk_api.Xmss.Signing.{IsGenerated}
use zk_api.Pedersen.{StarkCurve}
use zk_api.Signer.{sign_clearance, clear_root}
use zk_api.Signer.Clearance.{sign_clearance-verify, clear_root-sign_clearance}
use zk_api.Processor.{
  fails, ApiRequest, RequestResponse, ClearanceResponse, Backend, Env, RequestProcessor,
}
use zk_api.Processor.Handlers.{admit, same_request, process_request, process_clearance}

module _ (json : SignatureJson) where
  -- The record of a nullifier after its clearance.
  reserve_clearance-lookup :
      (served : Bool) (now : ℕ) (n : Felt252) (s after : NullifierStore)
      → reserve_clearance served now n s ≡ (ok tt, after)
      → (t : TranscriptRecord) × (lookup_by_nullifier json n after ≡ some t)
        × (t.status ≡ clearance_reserved)
        × (t.client_request_id ≡ none)
  unfolding reserve_clearance lookup_by_nullifier row_to_record new_row status_to_str str_to_status
      bytes_eq
  reserve_clearance-lookup false now n s after h = absurd (ground arith)
  reserve_clearance-lookup true now n s after h =
      let row = new_row (to_hex n) (status_to_str clearance_reserved) none none now in
      elim (Bool-cases (has_key (to_hex n) s)) [
        | inl used ↦ absurd (ground arith)
        | inr fresh ↦
            let found = select_key-last json (to_hex n) s row fresh (bytes_eq_refl (to_hex n)) in
            (row_to_record json row, ground arith, refl, refl)
      ]

module _ {F P : Type 0} (b : Backend) (k : StarkField F) (c : StarkCurve F P) where
  process_clearance-ok :
      (env : Env) (n : Felt252) (w : RequestProcessor F) (response : ClearanceResponse)
      → (process_clearance b k c env n w).0 ≡ ok response
      → let message =
          compute_clearance_message k w.config.protocol_version w.config.chain_id
            w.config.contract_address n in
        let call = sign_clearance k env.signer_served message w.signer w.table in
        (leaf : ℕ) × (call.0 ≡ ok (response.clear_sig, leaf))
        × (response.clear_sig_root ≡ clear_root k (call.1))
        × (reserve_clearance env.reserve_served env.now n w.store
            ≡ (ok tt, (process_clearance b k c env n w).1.store))
  unfolding process_clearance
  process_clearance-ok env n w response h =
      let message =
        compute_clearance_message k w.config.protocol_version w.config.chain_id
          w.config.contract_address n in
      let call = sign_clearance k env.signer_served message w.signer w.table in
      elim (Option-cases (lookup_by_nullifier b.json n w.store)) [
        | inr (t, found) ↦ absurd (ground arith)
        | inl absent ↦ elim (Bool-cases w.poisoned) [
          | inl locked ↦ absurd (ground arith)
          | inr free ↦ elim (Result-cases (call.0)) [
            | inr (e, failed) ↦ absurd (ground arith)
            | inl ((sig, leaf), signed) ↦
                elim (Result-cases ((reserve_clearance env.reserve_served env.now n w.store).0)) [
                  | inr (e, failed) ↦ absurd (ground arith)
                  | inl (u, done) ↦ (leaf, ground arith, ground arith, ground arith)
                ]
          ]
        ]
      ]

  -- Let a clearance be answered by a processor whose clearance keypair is one generated with a height
  -- below 32, up to its cursor. Then its signature on the clearance message of the nullifier is
  -- verified under the root that the answer names; and after any further statements on the table,
  -- clearing the nullifier again answers `NullifierUsed` and changes nothing, and no request that
  -- spends it is answered.
  pub process_clearance-once :
      (round : (x : F) → k.from_bytes_be (k.to_bytes_be x) ≡ x) (seed : F) (height : ℕ)
      (env env2 : Env) (n : Felt252) (w w2 : RequestProcessor F) (response : ClearanceResponse)
      (r2 : ApiRequest) (response2 : RequestResponse)
      → IsGenerated k seed height w.signer.clear_keypair
      → height < 32
      → (process_clearance b k c env n w).0 ≡ ok response
      → History b.json ((process_clearance b k c env n w).1.store) w2.store
      → r2.public_inputs.request_nullifier ≡ n
      → (verify k response.clear_sig_root
            (compute_clearance_message k w.config.protocol_version w.config.chain_id
              w.config.contract_address n)
            response.clear_sig
          ≡ true)
        × (process_clearance b k c env2 n w2 ≡ (err (fails nullifier_used), w2))
        × ((process_request b k c env2 r2 w2).0 ≢ ok response2)
  unfolding process_request process_clearance admit same_request
  process_clearance-once round seed height env env2 n w w2 response r2 response2 g small h past
        spends =
      let message =
        compute_clearance_message k w.config.protocol_version w.config.chain_id
          w.config.contract_address n in
      let (leaf, signed, root, stores) = process_clearance-ok env n w response h in
      let (t, found, cleared, anonymous) = reserve_clearance-lookup b.json _ _ n _ _ stores in
      let later = lookup_by_nullifier-History b.json n _ w2.store t found (λ e. cc) past in
      (
        rw
            (
              root,
              clear_root-sign_clearance k seed height env.signer_served message w.signer w.table g,
            )
            (sign_clearance-verify k round seed height env.signer_served message w.signer w.table
              response.clear_sig leaf g small signed),
        ground arith,
        λ e. ground arith,
      )
