-- ===== src/Pedersen/Openings.antt =====
-- rust/crates/zkapi-crypto/src/pedersen.rs: what a commitment opens to, along a request.
use zk_api.Prelude.{ℕ, ◌+◌, ◌-◌, ◌%◌, ◌^◌, ◌≤◌, ◌<◌, ◌≡◌, sym, ap, ap₂, ◌∙◌, true, arith}
use zk_api.Felt.{to_be_bytes}
use zk_api.Felt.Bytes.{length-to_be_bytes, from-to_be_bytes}
use zk_api.Pedersen.{
  StarkCurve, curve_order, biguint_to_felt, reduce_blinding, add_blinding, scalar_mul, commit,
  rerandomize, server_update, verify_opening,
}
use zk_api.Pedersen.Multiples.{
  StarkLaws, multiple, times, times-add, times-mod, scalar_mul-times, add_identity,
}

module _ {F P : Type 0} (c : StarkCurve F P) (laws : StarkLaws c) where
  to_biguint-biguint_to_felt : (v : ℕ) → v < curve_order → c.to_biguint (biguint_to_felt c v) ≡ v
  unfolding biguint_to_felt
  to_biguint-biguint_to_felt v lt =
      let read = from-to_be_bytes 32 v (omega arith) in
      laws.bytes (to_be_bytes 32 v) (length-to_be_bytes 32 v) (rw read lt) ∙ read

  to_biguint-add_blinding :
      (a b : F)
      → c.to_biguint (add_blinding c a b) ≡ (c.to_biguint a + c.to_biguint b) % curve_order
  unfolding add_blinding
  to_biguint-add_blinding a b = to_biguint-biguint_to_felt _ (omega arith)

  -- The sum of two blindings on the blinding generator.
  add_blinding_h :
      (a b : F)
      → scalar_mul c c.h_blind (add_blinding c a b)
        ≡ c.add (scalar_mul c c.h_blind a) (scalar_mul c c.h_blind b)
  add_blinding_h a b =
      scalar_mul-times c laws c.h_blind (add_blinding c a b)
      ∙ ap (λ (n : ℕ). multiple c laws n c.h_blind) (to_biguint-add_blinding a b)
      ∙ times-mod c laws (c.to_biguint a + c.to_biguint b) c.h_blind laws.order_h
      ∙ times-add c laws (c.to_biguint a) (c.to_biguint b) c.h_blind
      ∙ sym (ap₂ c.add (scalar_mul-times c laws c.h_blind a) (scalar_mul-times c laws c.h_blind b))

  -- An amount on the balance generator.
  amount_g :
      (n : ℕ)
      → n < 2 ^ 128
      → scalar_mul c c.g_balance (c.from_u128 n) ≡ multiple c laws n c.g_balance
  amount_g n lt =
      scalar_mul-times c laws c.g_balance (c.from_u128 n)
      ∙ ap (λ (m : ℕ). multiple c laws m c.g_balance) (laws.u128 n lt)

  pub rerandomize-commit :
      (balance : ℕ) (blinding rho : F)
      → rerandomize c (commit c balance blinding) rho
        ≡ commit c balance (add_blinding c blinding rho)
  unfolding rerandomize commit
  rerandomize-commit balance blinding rho =
      laws.add_assoc _ _ _
      ∙ ap (c.add (scalar_mul c c.g_balance (c.from_u128 balance)))
          (sym (add_blinding_h blinding rho))

  -- Taking `y` out of a sum again.
  cancel : (x y r : P) → c.add (c.add (c.add x y) r) (c.neg y) ≡ c.add x r
  cancel x y r =
      ap (λ (p : P). c.add p (c.neg y)) (laws.add_assoc x y r ∙ ap (c.add x) (laws.add_comm y r))
      ∙ laws.add_assoc x (c.add r y) (c.neg y)
      ∙ ap (c.add x)
          (laws.add_assoc r y (c.neg y) ∙ ap (c.add r) (laws.add_neg y) ∙ add_identity c laws r)

  pub server_update-commit :
      (balance charge : ℕ) (blinding delta : F)
      → charge ≤ balance
      → balance < 2 ^ 128
      → server_update c (commit c balance blinding) charge delta
        ≡ commit c (balance - charge) (add_blinding c blinding delta)
  unfolding server_update commit
  server_update-commit balance charge blinding delta le lt =
      let split : multiple c laws balance c.g_balance
          ≡ c.add (multiple c laws (balance - charge) c.g_balance)
              (multiple c laws charge c.g_balance) =
        ap (λ (n : ℕ). multiple c laws n c.g_balance)
          (let e : balance ≡ balance - charge + charge = omega arith in e)
        ∙ times-add c laws (balance - charge) charge c.g_balance in
      let r = scalar_mul c c.h_blind blinding in
      let d = scalar_mul c c.h_blind delta in
      ap₂ (λ (p q : P). c.add (c.add (c.add p r) (c.neg q)) d) (amount_g balance lt ∙ split)
        (amount_g charge (omega arith))
      ∙ ap (λ (p : P). c.add p d) (cancel _ _ r)
      ∙ laws.add_assoc _ r d
      ∙ ap₂ c.add (sym (amount_g (balance - charge) (omega arith)))
          (sym (add_blinding_h blinding delta))

  -- Under the laws of the curve, let a commitment open to a `u128` balance. When the wallet
  -- rerandomizes it and the server takes off a charge within the balance, the result opens to the
  -- balance less the charge under the three blindings added with `add_blinding`.
  pub verify_opening-server_update :
      (balance charge : ℕ) (blinding rho delta : F)
      → charge ≤ balance
      → balance < 2 ^ 128
      → verify_opening c
          (server_update c (rerandomize c (commit c balance blinding) rho) charge delta)
          (balance - charge)
          (add_blinding c (add_blinding c blinding rho) delta)
        ≡ true
  unfolding verify_opening
  verify_opening-server_update balance charge blinding rho delta le lt = (laws.point_eq_iff _ _).1 (
      ap (λ (p : P). server_update c p charge delta) (rerandomize-commit balance blinding rho)
      ∙ server_update-commit balance charge (add_blinding c blinding rho) delta le lt)

  -- Reducing a blinding changes no commitment.
  pub commit-reduce_blinding :
      (balance : ℕ) (blinding : F)
      → commit c balance (reduce_blinding c blinding) ≡ commit c balance blinding
  unfolding commit reduce_blinding
  commit-reduce_blinding balance blinding =
      ap (c.add (scalar_mul c c.g_balance (c.from_u128 balance))) (
        scalar_mul-times c laws c.h_blind (biguint_to_felt c (c.to_biguint blinding % curve_order))
        ∙ ap (λ (n : ℕ). multiple c laws n c.h_blind)
            (to_biguint-biguint_to_felt (c.to_biguint blinding % curve_order) (omega arith))
        ∙ times-mod c laws (c.to_biguint blinding) c.h_blind laws.order_h
        ∙ sym (scalar_mul-times c laws c.h_blind blinding))

  -- A balance that is spent whole, under a blinding that the delta cancels, leaves the identity.
  pub server_update-identity :
      (balance : ℕ) (blinding delta : F)
      → balance < 2 ^ 128
      → (c.to_biguint blinding + c.to_biguint delta) % curve_order ≡ 0
      → server_update c (commit c balance blinding) balance delta ≡ c.identity
  unfolding commit times
  server_update-identity balance blinding delta lt h =
      server_update-commit balance balance blinding delta (omega arith) lt
      ∙ ap₂ c.add
          (amount_g (balance - balance) (omega arith)
            ∙ ap (λ (n : ℕ). multiple c laws n c.g_balance)
                (let e : balance - balance ≡ 0 = omega arith in e))
          (scalar_mul-times c laws c.h_blind (add_blinding c blinding delta)
            ∙ ap (λ (n : ℕ). multiple c laws n c.h_blind)
                (to_biguint-add_blinding blinding delta ∙ h))
      ∙ laws.identity_add c.identity
