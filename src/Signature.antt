-- ===== src/Signature.antt =====
-- rust/crates/zkapi-types/src/signature.rs: the form of an XMSS signature and its structural check,
-- for heights below 32, where `1u32 << expected_height` is 2 ^ expected_height.
use zk_api.Prelude.{ℕ, ◌^◌, List, Result, length, ltb, ◌==◌, ensure, ◌>>◌}
use zk_api.Felt.{Felt252}
use zk_api.Wots.{wots_len}

pub record XmssSignature : Type 0 where
  pub epoch : ℕ
  pub leaf_index : ℕ
  pub wots_sig : List Felt252
  pub auth_path : List Felt252

abbrev pub xmss_tree_height : ℕ
xmss_tree_height = 20

-- The messages of `validate_for_height`, with the numbers that they print.
pub data StructureError : Type 0 where
  wots_length : ℕ → StructureError
  path_length : ℕ → ℕ → StructureError
  height_too_large : StructureError
  leaf_too_large : ℕ → ℕ → StructureError

unfoldable pub validate_for_height : XmssSignature → ℕ → Result StructureError (Unit {0})
validate_for_height sig expected = do
  ensure (length sig.wots_sig == wots_len) (wots_length (length sig.wots_sig))
  ensure (length sig.auth_path == expected) (path_length expected (length sig.auth_path))
  ensure (ltb expected 32) height_too_large
  ensure (ltb sig.leaf_index (2 ^ expected)) (leaf_too_large sig.leaf_index (2 ^ expected))

unfoldable pub validate : XmssSignature → Result StructureError (Unit {0})
unfolding validate_for_height
validate sig = validate_for_height sig xmss_tree_height
