-- ===== src/Processor/Checks.antt =====
-- rust/crates/zkapi-server/src/processor.rs: the checks of a request before it touches any state.
use zk_api.Prelude.{
  ℕ, Bool, true, false, List, [], ◌∷◌, Option, none, some, codes, ltb, leb, ◌==◌, if◌then◌else◌,
  Result, ok, ensure, ok_or, map_err, ◌>>=◌, ◌>>◌,
}
use zk_api.Felt.{Felt252, felt_eq, is_zero, to_hex}
use zk_api.Inputs.{canonical_payload_hash, request_public_output_hash, statement_type_request}
use zk_api.Wallet.{ProofBackendWire, stwo_cairo, groth16_bn254}
use zk_api.Server.{
  ServerError, invalid_proof, stale_root, note_expired, invalid_request, protocol_mismatch,
}
use zk_api.Stark.{StarkField}
use zk_api.Signer.{ServerSigner, state_root}
use zk_api.Processor.{
  Fault, fails, panics, EpochRoots, ServerConfig, ApiRequest, Backend, RequestProcessor,
}

unfoldable pub lookup_state_root : List EpochRoots → ℕ → Option Felt252
lookup_state_root [] epoch = none
lookup_state_root (entry ∷ roots) epoch =
    let rest = lookup_state_root roots epoch in
    if entry.epoch == epoch then some entry.state_root else rest

abbrev pub is_root : Option Felt252 → Felt252 → Bool
is_root none root = false
is_root (some trusted) root = felt_eq trusted root

abbrev pub is_stwo : ProofBackendWire → Bool
is_stwo stwo_cairo = true
is_stwo groth16_bn254 = false

unfoldable pub charge_cap : ServerConfig → ℕ
charge_cap config =
    if config.policy_enabled then config.policy_charge_cap else config.request_charge_cap

module _ {F : Type 0} (b : Backend) (k : StarkField F) where
  unfoldable pub validate_state_sig_root :
      ServerConfig → ServerSigner F → ℕ → Felt252 → Result ServerError (Unit {0})
  unfolding lookup_state_root
  validate_state_sig_root config signer epoch root =
      if epoch == 0
      then ensure (is_zero root) (invalid_request (codes "genesis state_sig_root must be zero"))
      else if felt_eq root (state_root k signer)
      then ok tt
      else ensure (is_root (lookup_state_root config.trusted_epoch_roots epoch) root)
          (invalid_request (codes "state_sig_root is not trusted for state_sig_epoch"))

  -- The hash of the public inputs panics when its counters run out.
  unfoldable pub verify_request_proof_artifact : ApiRequest → Result Fault (List ℕ)
  verify_request_proof_artifact r = do
    ensure (is_stwo r.proof.backend) (fails (invalid_proof (codes "unsupported proof backend")))
    expected ← map_err (λ e. panics) (request_public_output_hash b.keccak r.public_inputs)
    ensure (felt_eq r.proof.public_output_hash expected) (
        fails
          (invalid_proof (codes "proof public_output_hash does not match request public inputs")))
    proof_bytes ←
        ok_or (b.decode_base64 r.proof.proof) (fails (invalid_proof (codes "invalid base64 proof")))
    ensure (b.verify_artifact r.proof.public_output_hash proof_bytes)
        (fails (invalid_proof (codes "invalid proof artifact")))
    ok proof_bytes

  -- The steps up to the ninth; the result is the bytes of the proof.
  unfoldable pub check_request : ℕ → ApiRequest → RequestProcessor F → Result Fault (List ℕ)
  unfolding charge_cap validate_state_sig_root verify_request_proof_artifact
  check_request now r w = do
    actual ← ok_or (canonical_payload_hash b.keccak r.payload) panics
    ensure (felt_eq r.payload_hash actual)
        (fails (invalid_request (codes "payload_hash does not match actual payload bytes")))
    ensure (r.public_inputs.protocol_version == w.config.protocol_version)
        (fails (protocol_mismatch (codes "protocol_version")))
    ensure (r.public_inputs.chain_id == w.config.chain_id)
        (fails (protocol_mismatch (codes "chain_id")))
    ensure (felt_eq r.public_inputs.contract_address w.config.contract_address)
        (fails (protocol_mismatch (codes "contract_address mismatch")))
    ensure (felt_eq r.public_inputs.active_root w.current_root)
        (fails (stale_root (to_hex w.current_root)))
    ensure (ltb now r.public_inputs.expiry_ts) (fails note_expired)
    ensure (leb (charge_cap w.config) r.public_inputs.solvency_bound)
        (fails (invalid_request (codes "solvency_bound is less than request_charge_cap")))
    ensure (r.public_inputs.statement_type == statement_type_request)
        (fails (invalid_request (codes "unexpected statement_type")))
    map_err fails (
        validate_state_sig_root w.config w.signer r.public_inputs.state_sig_epoch
          r.public_inputs.state_sig_root)
    verify_request_proof_artifact r
