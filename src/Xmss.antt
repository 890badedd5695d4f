-- ===== src/Xmss.antt =====
-- rust/crates/zkapi-crypto/src/xmss.rs: a Merkle tree over one-time public keys, its signatures and their verification. Heights are those
-- below 32, where `1u32 << height` is 2 ^ height. The two locks make each call one step of a
-- sequence: a call takes the keypair and returns it with the cursor as the call leaves it.
pub mod Paths
pub mod Signing
pub mod Verifying
pub mod Toy
mod Tests
use zk_api.Prelude.{
  ℕ, zero, suc, ◌+◌, ◌/◌, ◌%◌, ◌-◌, ◌^◌, bit_and, bit_xor, List, [], ◌∷◌, map, Str, codes, get_or,
  if◌then◌else◌, Bool, true, false, Option, none, some, Result, err, ok, length, ltb, leb, ◌==◌,
  ensure, ◌>>◌, ◌>>=◌,
}
use zk_api.Felt.{Felt252, felt_eq}
use zk_api.Signature.{XmssSignature, validate_for_height, xmss_tree_height}
use zk_api.Stark.{StarkField, felt_to_field, field_to_felt, domain_felt}
use zk_api.Wots.{wots_len, wots_keygen, wots_pk_to_leaf, wots_sign, wots_verify}

-- `count` numbers from `i` on.
unfoldable pub range_from : ℕ → ℕ → List ℕ
range_from i zero = []
range_from i (suc count) = i ∷ range_from (i + 1) count

pub record XmssKeypair (F : Type 0) : Type 0 where
  pub secret_keys : List (List F)
  pub tree : List (List F)
  pub root : F
  pub next_index : ℕ
  pub height : ℕ

module _ {F : Type 0} (k : StarkField F) where
  unfoldable pub xmss_node_hash : F → F → F
  unfolding felt_to_field domain_felt
  xmss_node_hash left right =
      k.poseidon_hash_many
        (felt_to_field k (domain_felt (codes "zkapi.xmss.node")) ∷ left ∷ right ∷ [])

  unfoldable pub xmss_hash_message : Felt252 → F
  unfolding felt_to_field domain_felt
  xmss_hash_message message =
      k.poseidon_hash_many
        (felt_to_field k (domain_felt (codes "zkapi.xmss.msg")) ∷ felt_to_field k message ∷ [])

  -- `FieldElement::ZERO`.
  abbrev pub field_zero : F
  field_zero = k.from_u64 0

  -- Element `j` of the secret key of leaf `i`.
  unfoldable pub secret_element : F → ℕ → ℕ → F
  unfolding felt_to_field domain_felt
  secret_element seed i j = k.poseidon_hash_many (
      felt_to_field k (domain_felt (codes "zkapi.xmss.sk"))
      ∷ seed
      ∷ k.from_u64 i
      ∷ k.from_u64 j
      ∷ [])

  unfoldable pub secret_key : F → ℕ → List F
  unfolding secret_element range_from
  secret_key seed i = map (secret_element seed i) (range_from 0 wots_len)

  -- One level from the level below it: the pairs of neighbours.
  unfoldable pub next_level : List F → List F
  next_level (left ∷ right ∷ rest) = xmss_node_hash left right ∷ next_level rest
  next_level _ = []

  -- The levels from `prev` up, over `height` steps.
  unfoldable pub levels_from : ℕ → List F → List (List F)
  unfolding next_level
  levels_from zero prev = prev ∷ []
  levels_from (suc height) prev = prev ∷ levels_from height (next_level prev)

  unfoldable pub node : List (List F) → ℕ → ℕ → F
  node tree level i = get_or (get_or tree level []) i field_zero

  unfoldable pub generate_with_height : F → ℕ → XmssKeypair F
  unfolding secret_key range_from levels_from node
  generate_with_height seed height =
      let secret_keys = map (secret_key seed) (range_from 0 (2 ^ height)) in
      let leaves = map (λ sk. wots_pk_to_leaf k (wots_keygen k sk)) secret_keys in
      let tree = levels_from height leaves in
      record {
        secret_keys = secret_keys;
        tree = tree;
        root = node tree height 0;
        next_index = 0;
        height = height;
      }

  unfoldable pub generate : F → XmssKeypair F
  unfolding generate_with_height
  generate seed = generate_with_height seed xmss_tree_height

  unfoldable pub root_felt : XmssKeypair F → Felt252
  unfolding field_to_felt
  root_felt kp = field_to_felt k kp.root

  -- The loop over the levels that collects the siblings, with the number of levels left.
  unfoldable pub path_from : List (List F) → ℕ → ℕ → ℕ → List Felt252
  unfolding node field_to_felt
  path_from tree zero level node_idx = []
  path_from tree (suc rounds) level node_idx =
      field_to_felt k (node tree level (bit_xor node_idx 1))
      ∷ path_from tree rounds (suc level) (node_idx / 2)

  -- The signature at a leaf, as both signing calls build it.
  unfoldable pub signature_at : XmssKeypair F → ℕ → Felt252 → XmssSignature
  unfolding xmss_hash_message path_from field_to_felt
  signature_at kp idx message = record {
    epoch = 0;
    leaf_index = idx;
    wots_sig =
        map (field_to_felt k)
          (wots_sign k (get_or kp.secret_keys idx []) (xmss_hash_message message));
    auth_path = path_from kp.tree kp.height 0 idx;
  }

  unfoldable pub sign_with_index :
      (ℕ → Felt252) → XmssKeypair F → Option (XmssSignature × ℕ × Felt252) × XmssKeypair F
  unfolding signature_at
  sign_with_index build_message kp =
      let idx = kp.next_index in
      if leb (2 ^ kp.height) idx then (none, kp) else (
        some (signature_at kp idx (build_message idx), idx, build_message idx),
        record kp { next_index = idx + 1 },
      )

  abbrev without_message : Option (XmssSignature × ℕ × Felt252) → Option (XmssSignature × ℕ)
  without_message none = none
  without_message (some (sig, index, message)) = some (sig, index)

  unfoldable pub sign : Felt252 → XmssKeypair F → Option (XmssSignature × ℕ) × XmssKeypair F
  unfolding sign_with_index
  sign message kp =
      let signed = sign_with_index (λ _. message) kp in (without_message (signed.0), signed.1)

  unfoldable pub sign_reserved : ℕ → Felt252 → XmssKeypair F → Option XmssSignature × XmssKeypair F
  unfolding signature_at
  sign_reserved index message kp = if leb (2 ^ kp.height) index then (none, kp) else (
    some (signature_at kp index message),
    record kp { next_index = if ltb kp.next_index (index + 1) then index + 1 else kp.next_index },
  )

  -- The verifier's loop over the authentication path.
  unfoldable pub climb : ℕ → F → List Felt252 → F
  unfolding felt_to_field
  climb idx current [] = current
  climb idx current (s ∷ path) =
      climb (idx / 2)
        (if bit_and idx 1 == 0
          then xmss_node_hash current (felt_to_field k s)
          else xmss_node_hash (felt_to_field k s) current)
        path

  unfoldable pub verify_inner : Felt252 → Felt252 → XmssSignature → Bool
  unfolding climb felt_to_field field_to_felt xmss_hash_message
  verify_inner root message sig =
      let recovered_pk =
        wots_verify k (map (felt_to_field k) sig.wots_sig) (xmss_hash_message message) in
      felt_eq
        (field_to_felt k (climb sig.leaf_index (wots_pk_to_leaf k recovered_pk) sig.auth_path)) root

  unfoldable pub verify_for_height : Felt252 → Felt252 → XmssSignature → ℕ → Bool
  unfolding verify_inner validate_for_height
  verify_for_height root message sig height = elim (validate_for_height sig height) [
    | err e ↦ false
    | ok _ ↦ verify_inner root message sig
  ]

  unfoldable pub verify : Felt252 → Felt252 → XmssSignature → Bool
  unfolding verify_inner validate_for_height
  verify root message sig = elim (validate_for_height sig (length sig.auth_path)) [
    | err e ↦ false
    | ok _ ↦ verify_inner root message sig
  ]

module _ {F : Type 0} (kp : XmssKeypair F) where
  unfoldable pub capacity : ℕ
  capacity = 2 ^ kp.height

  unfoldable pub remaining : ℕ
  unfolding capacity
  remaining = capacity - kp.next_index

  unfoldable pub is_exhausted : Bool
  unfolding remaining
  is_exhausted = remaining == 0
