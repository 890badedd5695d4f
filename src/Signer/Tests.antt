-- ===== src/Signer/Tests.antt =====
-- The signers at concrete inputs, over a small stand-in for the Stark field.
use zk_api.Prelude.{
  bytes_eq, some, ℕ, [], ◌∷◌, ◌≡◌, ◌<◌, ◌^◌, refl, true, ok, arith, bytes_eq_refl, Str,
}
use zk_api.Felt.{from_u64, to_hex}
use zk_api.Signature.{XmssSignature}
use zk_api.Xmss.{generate_with_height, signature_at, capacity, sign_reserved, verify}
use zk_api.Xmss.Signing.{IsGenerated}
use zk_api.Xmss.Toy.{small_field, small_round}
use zk_api.Signer.{
  ServerSigner, with_height, with_height_durable, open_store, sign_next_state, sign_durable,
  sign_tree, state_root,
}
use zk_api.Signer.Table.{
  SignerStateStore, state, as_str, ensure_tree, reserve_leaf, select_tree, update_leaf,
  leaf_in_range,
}
use zk_api.Signer.Signatures.{History, created, opens, signs_state}
use zk_api.Signer.Once.{leaves-AreDescending, AreDescending}
use zk_api.Signer.Accepted.{sign_next_state-ok, sign_next_state-verify}

abbrev signer : ServerSigner ℕ
signer = record (with_height small_field 42 43 1 1) { durable_state = true }

abbrev table0 : SignerStateStore
table0 = (with_height_durable small_field true 42 43 1 1 []).1

abbrev table1 : SignerStateStore
table1 = (sign_next_state small_field true from_u64 signer table0).2

abbrev state_signature : ℕ → XmssSignature
state_signature leaf = record (signature_at small_field signer.state_keypair leaf (from_u64 leaf)) {
  epoch = 1;
}

abbrev root_text : Str
root_text = to_hex (state_root small_field signer)

first_leaf :
    (sign_next_state small_field true from_u64 signer table0).0
    ≡ ok (state_signature 0, 0, from_u64 0)
unfolding with_height with_height_durable open_store ensure_tree state_root generate_with_height
    bytes_eq
first_leaf =
    sign_next_state-ok small_field from_u64 signer table0
      (record {
        tree_kind = as_str state;
        epoch = 1;
        root = to_hex (state_root small_field signer);
        next_leaf = 0;
      })
      refl refl refl refl (omega arith) (omega arith)

table1_row :
    select_tree (as_str state) table1
    ≡ some (record {
      tree_kind = as_str state;
      epoch = 1;
      root = to_hex (state_root small_field signer);
      next_leaf = 1;
    })
unfolding with_height with_height_durable open_store ensure_tree state_root generate_with_height
    bytes_eq sign_next_state sign_tree sign_durable sign_reserved reserve_leaf leaf_in_range
    update_leaf capacity
table1_row = ground (arith, bytes_eq_refl root_text)

second_leaf :
    (sign_next_state small_field true from_u64 signer table1).0
    ≡ ok (state_signature 1, 1, from_u64 1)
unfolding with_height with_height_durable open_store ensure_tree state_root generate_with_height
second_leaf =
    sign_next_state-ok small_field from_u64 signer table1
      (record {
        tree_kind = as_str state;
        epoch = 1;
        root = to_hex (state_root small_field signer);
        next_leaf = 1;
      })
      refl table1_row refl refl (omega arith) (omega arith)

opened : History small_field [] [] table0
opened = opens [] [] [] true 42 43 1 1 created

signed_twice :
    History small_field
      (1 ∷ 0 ∷ [])
      []
      ((sign_next_state small_field true from_u64 signer table1).2)
unfolding with_height signature_at
signed_twice =
    signs_state (0 ∷ []) [] table1 true from_u64 signer (state_signature 1) 1 (from_u64 1)
      (signs_state [] [] table0 true from_u64 signer (state_signature 0) 0 (from_u64 0) opened refl
        first_leaf)
      refl second_leaf

leaves-AreDescending_example : AreDescending (1 ∷ 0 ∷ []) × AreDescending []
leaves-AreDescending_example = leaves-AreDescending small_field (1 ∷ 0 ∷ []) [] signed_twice

fresh_keypair : IsGenerated small_field 42 1 signer.state_keypair
unfolding with_height generate_with_height
fresh_keypair = record { secrets = refl; levels = refl; top = refl; rounds = refl }

sign_next_state-verify_example :
    (from_u64 1 ≡ from_u64 1)
    × (1 < 2 ^ 1)
    × ((state_signature 1).leaf_index ≡ 1)
    × ((state_signature 1).epoch ≡ signer.state_epoch)
    × (verify small_field (state_root small_field signer) (from_u64 1) (state_signature 1) ≡ true)
    × IsGenerated small_field 42 1
        ((sign_next_state small_field true from_u64 signer table1).1.state_keypair)
sign_next_state-verify_example =
    sign_next_state-verify small_field small_round 42 1 true from_u64 signer table1
      (state_signature 1) 1 (from_u64 1) fresh_keypair (omega arith) second_leaf
