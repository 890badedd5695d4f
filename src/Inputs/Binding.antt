-- ===== src/Inputs/Binding.antt =====
-- rust/crates/zkapi-types/src/inputs.rs: the field elements of a statement determine it.
use zk_api.Prelude.{ℕ, ◌<◌, ◌^◌, ◌≡◌, ap, ◌∙◌, sym, refl, Bool, true, false, some, List, arith}
use zk_api.Felt.{from_u64, from_u128, to_u64, to_u128}
use zk_api.Felt.Bytes.{to_u64-from_u64, to_u128-from_u128}
use zk_api.Inputs.{
  RequestPublicInputsV2, WithdrawalPublicInputsV2, request_field_elements,
  withdrawal_field_elements, destination_field, bool_as_u64,
}

some_injective : (a b : ℕ) → some a ≡ some b → a ≡ b
some_injective a b e = cc

from_u64_injective : (a b : ℕ) → a < 2 ^ 64 → b < 2 ^ 64 → from_u64 a ≡ from_u64 b → a ≡ b
from_u64_injective a b ha hb e =
    some_injective a b (sym (to_u64-from_u64 a ha) ∙ ap to_u64 e ∙ to_u64-from_u64 b hb)

from_u128_injective : (a b : ℕ) → a < 2 ^ 128 → b < 2 ^ 128 → from_u128 a ≡ from_u128 b → a ≡ b
from_u128_injective a b ha hb e =
    some_injective a b (sym (to_u128-from_u128 a ha) ∙ ap to_u128 e ∙ to_u128-from_u128 b hb)

bool_injective : (a b : Bool) → from_u64 (bool_as_u64 a) ≡ from_u64 (bool_as_u64 b) → a ≡ b
bool_injective true true e = refl
bool_injective false false e = refl
bool_injective true false e =
    absurd (let z : 1 ≡ 0 = from_u64_injective 1 0 (omega arith) (omega arith) e in omega arith)
bool_injective false true e =
    absurd (let z : 0 ≡ 1 = from_u64_injective 0 1 (omega arith) (omega arith) e in omega arith)

destination_injective : (a b : List ℕ) → destination_field a ≡ destination_field b → a ≡ b
unfolding destination_field
destination_injective a b e = cc

-- The machine widths of a request statement's fields.
abbrev pub RequestInRange : RequestPublicInputsV2 → Type 0
RequestInRange i =
    (i.protocol_version < 2 ^ 16)
    × (i.chain_id < 2 ^ 64)
    × (i.request_time < 2 ^ 64)
    × (i.solvency_bound < 2 ^ 128)

-- The machine widths of a withdrawal statement's fields.
abbrev pub WithdrawalInRange : WithdrawalPublicInputsV2 → Type 0
WithdrawalInRange i =
    (i.protocol_version < 2 ^ 16)
    × (i.chain_id < 2 ^ 64)
    × (i.note_id < 2 ^ 32)
    × (i.final_balance < 2 ^ 128)

-- Two request statements within their machine widths that give the verifier the same field
-- elements are the same statement.
pub request_field_elements-injective :
    (a b : RequestPublicInputsV2)
    → RequestInRange a
    → RequestInRange b
    → request_field_elements a ≡ request_field_elements b
    → a ≡ b
unfolding request_field_elements
request_field_elements-injective a b (av, ac, at, ab) (bv, bc, bt, bb) e =
    let v =
      from_u64_injective a.protocol_version b.protocol_version (omega arith) (omega arith) cc in
    let c = from_u64_injective a.chain_id b.chain_id ac bc cc in
    let t = from_u64_injective a.request_time b.request_time at bt cc in
    let s = from_u128_injective a.solvency_bound b.solvency_bound ab bb cc in cc

-- Two withdrawal statements within their machine widths that give the verifier the same field
-- elements are the same statement, the destination included.
pub withdrawal_field_elements-injective :
    (a b : WithdrawalPublicInputsV2)
    → WithdrawalInRange a
    → WithdrawalInRange b
    → withdrawal_field_elements a ≡ withdrawal_field_elements b
    → a ≡ b
unfolding withdrawal_field_elements
withdrawal_field_elements-injective a b (av, ac, an, af) (bv, bc, bn, bf) e =
    let v =
      from_u64_injective a.protocol_version b.protocol_version (omega arith) (omega arith) cc in
    let c = from_u64_injective a.chain_id b.chain_id ac bc cc in
    let n = from_u64_injective a.note_id b.note_id (omega arith) (omega arith) cc in
    let f = from_u128_injective a.final_balance b.final_balance af bf cc in
    let d = destination_injective a.destination b.destination cc in
    let h = bool_injective a.has_clearance b.has_clearance cc in cc
