-- ===== src/Wots/Checksum.antt =====
-- rust/crates/zkapi-crypto/src/wots.rs: what the checksum is for. A signature can be moved along its
-- chains only towards larger digits, and no message but the signed one has all its digits, those of
-- its checksum included, at least as large.
use zk_api.Prelude.{ℕ, ◌*◌, ◌<◌, ◌≤◌, ◌≡◌, refl, sym, ◌∙◌, ap₂, List, [], ◌∷◌, ◌++◌, length, arith}
use zk_api.Wots.{wots_len1, digits_from, checksum, checksum_digits, base_w_digits}
use zk_api.Wots.Chains.{AreDigits, a_digit, digits_from-AreDigits, length-digits_from}

-- Pointwise at most.
pub data ArePassed : List ℕ → List ℕ → Type 0 where
  both_end : ArePassed [] []
  passed : (d e : ℕ) (ds es : List ℕ) → d ≤ e → ArePassed ds es → ArePassed (d ∷ ds) (e ∷ es)

ArePassed-init :
    (ds es xs ys : List ℕ)
    → length ds ≡ length es
    → ArePassed (ds ++ xs) (es ++ ys)
    → ArePassed ds es
ArePassed-init [] [] xs ys n h = both_end
ArePassed-init [] (e ∷ es) xs ys n h = absurd (omega arith)
ArePassed-init (d ∷ ds) [] xs ys n h = absurd (omega arith)
ArePassed-init (d ∷ ds) (e ∷ es) xs ys n (passed _ _ _ _ le h) =
    passed d e ds es le (ArePassed-init ds es xs ys (omega arith) h)

ArePassed-tail :
    (ds es xs ys : List ℕ)
    → length ds ≡ length es
    → ArePassed (ds ++ xs) (es ++ ys)
    → ArePassed xs ys
ArePassed-tail [] [] xs ys n h = h
ArePassed-tail [] (e ∷ es) xs ys n h = absurd (omega arith)
ArePassed-tail (d ∷ ds) [] xs ys n h = absurd (omega arith)
ArePassed-tail (d ∷ ds) (e ∷ es) xs ys n (passed _ _ _ _ le h) =
    ArePassed-tail ds es xs ys (omega arith) h

checksum-le : (ds : List ℕ) → checksum ds ≤ 15 * length ds
unfolding checksum
checksum-le [] = omega arith
checksum-le (d ∷ ds) = omega (arith, checksum-le ds)

checksum-ArePassed : (ds es : List ℕ) → ArePassed ds es → checksum es ≤ checksum ds
unfolding checksum
checksum-ArePassed _ _ both_end = omega arith
checksum-ArePassed _ _ (passed d e ds es le h) = omega (arith, checksum-ArePassed ds es h)

ArePassed-equal :
    (ds es : List ℕ) → AreDigits es → ArePassed ds es → checksum ds ≤ checksum es → ds ≡ es
unfolding checksum
ArePassed-equal _ _ g both_end c = refl
ArePassed-equal _ _ (a_digit _ _ lt g) (passed d e ds es le h) c =
    ap₂ (λ (x : ℕ) (xs : List ℕ). x ∷ xs)
      (let m = checksum-ArePassed ds es h in let k : d ≡ e = omega arith in k)
      (ArePassed-equal ds es g h (let m = checksum-ArePassed ds es h in omega arith))

three :
    (a b c x y z : ℕ) → ArePassed (a ∷ b ∷ c ∷ []) (x ∷ y ∷ z ∷ []) → (a ≤ x) × (b ≤ y) × (c ≤ z)
three a b c x y z (passed _ _ _ _ p (passed _ _ _ _ q (passed _ _ _ _ r both_end))) = (p, q, r)

checksum_digits-ArePassed :
    (c d : ℕ) → c < 4096 → d < 4096 → ArePassed (checksum_digits 3 c) (checksum_digits 3 d) → c ≤ d
unfolding checksum_digits
checksum_digits-ArePassed c d hc hd h = let (p, q, r) = three _ _ _ _ _ _ h in omega arith

checksum_bound : (bytes : List ℕ) → checksum (digits_from bytes wots_len1 0) < 4096
checksum_bound bytes =
    omega (arith, checksum-le (digits_from bytes wots_len1 0), length-digits_from bytes wots_len1 0)

-- When every digit of one message, those of the checksum included, is at most the digit of another
-- message at the same place, the two messages have the same 62 digits.
pub base_w_digits-ArePassed :
    (bytes bytes' : List ℕ)
    → ArePassed (base_w_digits bytes) (base_w_digits bytes')
    → digits_from bytes wots_len1 0 ≡ digits_from bytes' wots_len1 0
unfolding base_w_digits
base_w_digits-ArePassed bytes bytes' h =
    let ds = digits_from bytes wots_len1 0 in
    let es = digits_from bytes' wots_len1 0 in
    let n = length-digits_from bytes wots_len1 0 in
    let m = length-digits_from bytes' wots_len1 0 in
    let same : length ds ≡ length es = n ∙ sym m in
    ArePassed-equal ds es (digits_from-AreDigits bytes' wots_len1 0)
      (ArePassed-init ds es _ _ same h)
      (checksum_digits-ArePassed (checksum ds) (checksum es) (checksum_bound bytes)
        (checksum_bound bytes') (ArePassed-tail ds es _ _ same h))
