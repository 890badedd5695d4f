-- ===== src/Lib.antt =====
-- The Rust crates of zkAPI: prepaid notes in an on-chain vault whose holder makes API requests
-- anonymously. A deposit is a leaf of a Merkle tree that the indexer mirrors; the wallet holds the
-- note, proves each request against a commitment to its balance, and keeps a journal of the one
-- request in flight; the server admits each nullifier once, charges, updates the commitment and
-- signs the next state.
--
-- The parts, by file:
--   * Felt: rust/crates/zkapi-types/src/felt.rs. An array of 32 bytes is a list of numbers; `Felt252`
--     and the functions keep the source's names. Felt/Bytes and Felt/Hex are about the numbers that
--     the bytes spell and the hexadecimal texts.
--   * Core: rust/crates/zkapi-core/src/v2.rs (with leaf.rs and nullifier.rs), the hashes by domain,
--     one definition for each function, over the record `Poseidon`.
--   * Merkle: rust/crates/zkapi-core/src/merkle.rs. `MerkleTree` has the source's fields, a map is a
--     partial function, and `set_leaf`, `get_siblings` and `compute_root` run the loops of the source
--     over the 32 levels by recursion on the levels that are left.
--   * Indexer: rust/crates/zkapi-indexer/src/tree_mirror.rs and events.rs. Indexer/Slots gives the
--     abstract view, a slot for each note, that the mirror implements.
--   * Curve: rust/crates/zkapi-proof/src/compact.rs and groth16.rs, the balance commitments and the
--     Schnorr signatures over the record `BabyJubJub`; `CurveLaws` in Curve/Commitments is what the
--     code relies on of the group, and Curve/Toy a group of eight elements that satisfies it.
--   * Inputs: rust/crates/zkapi-types/src/inputs.rs, the public statements of the proofs and the
--     hashes of bytes into field elements. `to_field_elements` and `to_cairo_outputs` are
--     `request_field_elements`, `withdrawal_field_elements` and the two `_cairo_outputs`.
--   * Wallet: rust/crates/zkapi-client/src/wallet_v2.rs, note_state.rs, journal.rs, config.rs and
--     error.rs, with the messages of rust/crates/zkapi-types/src/wire.rs. A wallet is its
--     configuration, its note in memory and what its two files hold; every operation returns its
--     result with the wallet it leaves, also on errors. Wallet/Request, Wallet/Response and
--     Wallet/Close have the operations; Wallet/Run has the step relation of their runs.
--   * Server: rust/crates/zkapi-server/src/error.rs and nullifier_store.rs. The table is the list of
--     its rows, and Server/Lifecycle has the relation of its write statements.
--   * Wots: rust/crates/zkapi-crypto/src/wots.rs, the one-time signatures of the first protocol.
--   * Stark: rust/crates/zkapi-types/src/domain.rs, rust/crates/zkapi-core/src/poseidon.rs and
--     commitment.rs, the hashes and messages of the first protocol over the record `StarkField`.
--   * Signature and Xmss: rust/crates/zkapi-types/src/signature.rs and
--     rust/crates/zkapi-crypto/src/xmss.rs. A keypair has the source's fields, its cursor a number;
--     the levels of the tree are lists. Xmss/Signing has the relation of its uses.
--   * Signer: rust/crates/zkapi-server/src/signer.rs. The table of leaf counters is outside the signer
--     and is passed to each call; Signer/Signatures has the relation of its histories, in which any
--     signers share it, fail, stop and start again.
--   * Pedersen: rust/crates/zkapi-crypto/src/pedersen.rs, over the record `StarkCurve`; `StarkLaws` in
--     Pedersen/Multiples is what the code relies on of the curve.
--   * Processor: rust/crates/zkapi-server/src/processor.rs, with config.rs and provider.rs. A
--     `RequestProcessor` holds the source's fields, the rows of both databases and whether the lock of
--     the signer is poisoned; a call takes what the world answers during it (`Env`). The steps of
--     `process_request` are `check_request` (Processor/Checks), `admit`, `serve`, `charge_request` and
--     `finalize_charge` (Processor/Handlers) and `sign_request` (Processor/States).
--   * Watcher: rust/crates/zkapi-server/src/watcher.rs, the challenges from archived transcripts.
--   * Circuit: rust/crates/zkapi-proof/src/groth16.rs, the request and withdrawal circuits.
--     `generate_constraints` is `request_constraints` and `withdrawal_constraints`, which evaluate the
--     constraints at the allocated values; Circuit/Native has the functions outside the circuits, and
--     Circuit/Wire the statements that compact.rs reads from the wire.
--   * Prelude: the library names, Boolean tests, lists, bits and results that the parts share.
--
-- How they interact: Wallet calls Core, Curve and Inputs; Indexer stands on Merkle with the node
-- hash of Core.
-- Processor reserves and finalizes nullifiers in Server's table, updates commitments with Pedersen and
-- signs with Signer, which stands on Xmss and Wots; Watcher reads the table that Processor has left.
-- Circuit uses the commitments and signatures of Curve. The wallet speaks the second protocol
-- (`/v2`) and the server of these crates the first (`/v1`), so no theorem puts the two together.
--
-- Bounds and fuel: machine integers are natural numbers, and where a width matters it is a
-- hypothesis or written out (`% 2 ^ 64`). `hash_from` counts the 2^32 counters of its loop, and `none`
-- is the panic when they are used up. `decimal` has 20 digits, enough for a 64-bit length.
--
-- Parameters: Keccak-256, the Poseidon sponges, the elliptic curve, serde_json's texts,
-- base64, the API provider, the prover and the verifier of proofs, randomness, the clock, HTTP replies
-- and whether a write to disk succeeds. The proving code of compact.rs enters the wallet as the
-- function that gives a proof or a message.
--
-- Not modelled: the Groth16 setup, prover and proof encoding, the development mode of the request
-- processor, the retired wallet of wallet.rs, the browser bindings, the command line, the routes,
-- the contracts and the Cairo programs. Names of files inside the `archive` directory and
-- of temporary files are left out, and so is locking, but for the lock of the signer that a panic
-- poisons: each operation runs alone.
pub mod Prelude
pub mod Felt
pub mod Core
pub mod Merkle
pub mod Indexer
pub mod Curve
pub mod Inputs
pub mod Wallet
pub mod Server
pub mod Wots
pub mod Stark
pub mod Signature
pub mod Xmss
pub mod Signer
pub mod Pedersen
pub mod Processor
pub mod Watcher
pub mod Circuit
