-- ===== src/Merkle/Tests.antt =====
-- The tree at concrete inputs, with a small node hash.
use zk_api.Prelude.{bytes_eq, ◌≡◌, refl, true, ◌≢◌, ◌+◌, ◌*◌, ◌%◌, ◌^◌, replicate, arith, ap}
use zk_api.Felt.{felt_eq, Felt252, from_u64, felt_zero, to_u64, to_be_bytes, from_be_bytes}
use zk_api.Merkle.{
  MerkleTree, merkle_depth, root, get_leaf, get_siblings, set_leaf, new, verify_membership,
  compute_root, fold_path,
}
use zk_api.Merkle.Consistent.{set_leaf-IsConsistent, new-IsConsistent}
use zk_api.Merkle.Paths.{verify_membership-get_siblings}
use zk_api.Felt.Bytes.{to_u64-from_u64}
use zk_api.Merkle.Binding.{Collision, verify_membership-Collision}

abbrev sum_node : Felt252 → Felt252 → Felt252
unfolding from_be_bytes from_u64 to_be_bytes
sum_node a b = from_u64 ((3 * from_be_bytes 0 a.bytes + 5 * from_be_bytes 0 b.bytes + 1) % 2 ^ 61)

abbrev zero_node : Felt252 → Felt252 → Felt252
zero_node a b = felt_zero

abbrev one_leaf : MerkleTree
one_leaf = set_leaf sum_node (new sum_node) 5 (from_u64 17)

verify_membership-get_siblings_example :
    verify_membership sum_node (root one_leaf) 5 (get_leaf one_leaf 5) (get_siblings one_leaf 5)
    ≡ true
verify_membership-get_siblings_example =
    verify_membership-get_siblings sum_node one_leaf 5
      (set_leaf-IsConsistent sum_node (new sum_node) 5 (from_u64 17) (new-IsConsistent sum_node))
      (omega arith)

one_is_not_two : from_u64 1 ≢ from_u64 2
one_is_not_two e =
    let one = to_u64-from_u64 1 (omega arith) in
    let two = to_u64-from_u64 2 (omega arith) in let k = ap to_u64 e in ground arith

verify_membership-Collision_example : Collision zero_node
unfolding felt_eq bytes_eq
verify_membership-Collision_example =
    verify_membership-Collision zero_node felt_zero 3 (from_u64 1) (from_u64 2)
      (replicate merkle_depth felt_zero) (replicate merkle_depth felt_zero) refl refl accepted_one
      accepted_two one_is_not_two
  where
    accepted_one :
        verify_membership zero_node felt_zero 3 (from_u64 1) (replicate merkle_depth felt_zero)
        ≡ true
    accepted_one = unfold verify_membership compute_root fold_path in refl

    accepted_two :
        verify_membership zero_node felt_zero 3 (from_u64 2) (replicate merkle_depth felt_zero)
        ≡ true
    accepted_two = unfold verify_membership compute_root fold_path in refl
