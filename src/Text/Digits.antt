-- ===== src/Text/Digits.antt =====
-- A number that is printed in digits is read back.
use native.Mathlib.Nat.{mod-lt, div-add-mod, mul-zero}
use mathlib.Core.List.{append_assoc}
use native.Mathlib.Decide.{dec_lt}
use virtual_usb.Base.{
  ℕ, zero, suc, ◌+◌, ◌*◌, ◌/◌, ◌%◌, ◌^◌, ◌≤◌, ◌<◌, ◌≡◌, refl, ap, sym, subst, ◌∙◌, List, [], ◌∷◌,
  ◌++◌, some, ltb, lt→ltb, ltb-false, if◌then◌else◌, All, All-append, arith,
}
use virtual_usb.Text.{digit_value, digit, scan_digits, scan_number, padded, unpadded, decimal}

-- The text is the number's digits, and a scan goes on behind them.
pub record IsNumeral (base : ℕ) (xs : List ℕ) (n : ℕ) : Type 0 where
  pub digits : All (λ b. digit_value b < 16) xs
  pub scanned : (rest : List ℕ) → scan_number base (xs ++ rest) ≡ some (scan_digits base n rest)

digit_value-digit : (d : ℕ) → d < 16 → digit_value (digit d) ≡ d
digit_value-digit d h = ground arith

module _ {base : ℕ} (b : base ≤ 16) where
  digit-IsNumeral : (d : ℕ) → d < base → IsNumeral base (digit d ∷ []) d
  digit-IsNumeral d h = record {
    digits = (omega (arith, digit_value-digit d (omega arith)), tt);
    scanned = λ rest. rw (digit_value-digit d (omega arith), lt→ltb d base h) refl;
  }

  snoc-IsNumeral :
      (xs : List ℕ) (n d : ℕ)
      → IsNumeral base xs n
      → d < base
      → IsNumeral base (xs ++ (digit d ∷ [])) (base * n + d)
  snoc-IsNumeral xs n d k h = record {
    digits =
        All-append (λ b. digit_value b < 16) xs (digit d ∷ []) k.digits
          (omega (arith, digit_value-digit d (omega arith)), tt);
    scanned = λ rest.
        ap (scan_number base) (append_assoc xs (digit d ∷ []) rest)
        ∙ (k.scanned (digit d ∷ rest)
            ∙ rw (digit_value-digit d (omega arith), lt→ltb d base h) refl);
  }

-- The number has at most `w` digits.
abbrev pub Short : ℕ → ℕ → ℕ → Type 0
Short base zero n = n ≡ 0
Short base (suc w) n = Short base w (n / base)

module _ {base : ℕ} (b : base ≤ 16) (p : 0 < base) where
  pub padded-IsNumeral : (w n : ℕ) → Short base (suc w) n → IsNumeral base (padded base (suc w) n) n
  padded-IsNumeral zero n h =
      subst (λ k. IsNumeral base (digit k ∷ []) n) rest
        (digit-IsNumeral b n (omega (arith, rest, mod-lt n p)))
    where
      rest : n ≡ n % base
      rest = omega (arith, div-add-mod n base, ap (λ k. base * k) h, mul-zero base)
  padded-IsNumeral (suc w) n h =
      subst (IsNumeral base (padded base (suc (suc w)) n)) (div-add-mod n base) (
        snoc-IsNumeral b (padded base (suc w) (n / base)) (n / base) (n % base)
          (padded-IsNumeral w (n / base) h) (mod-lt n p))

below :
    (n : ℕ) → n < 10 → (front : List ℕ) → IsNumeral 10 (if ltb n 10 then digit n ∷ [] else front) n
below n h front =
    subst (λ b. IsNumeral 10 (if b then digit n ∷ [] else front) n) (sym (lt→ltb n 10 h))
      (digit-IsNumeral (omega arith) n h)

pub unpadded-IsNumeral : (w n : ℕ) → Short 10 (suc w) n → IsNumeral 10 (unpadded (suc w) n) n
unpadded-IsNumeral zero n h = below n (omega (arith, h)) ([] ++ (digit (n % 10) ∷ []))
unpadded-IsNumeral (suc w) n h = elim (dec_lt n 10) [
  | yes k ↦ below n k (unpadded (suc w) (n / 10) ++ (digit (n % 10) ∷ []))
  | no k ↦
      subst
        (λ b.
          IsNumeral 10
            (if b then digit n ∷ [] else unpadded (suc w) (n / 10) ++ (digit (n % 10) ∷ [])) n)
        (sym (ltb-false n 10 (omega arith)))
        (subst (IsNumeral 10 (unpadded (suc w) (n / 10) ++ (digit (n % 10) ∷ []))) (omega arith) (
          snoc-IsNumeral (omega arith) (unpadded (suc w) (n / 10)) (n / 10) (n % 10)
            (unpadded-IsNumeral w (n / 10) h) (omega arith)))
]

-- Every 32-bit number.
pub decimal-IsNumeral : (n : ℕ) → n < 2 ^ 32 → IsNumeral 10 (decimal n) n
decimal-IsNumeral n h = unpadded-IsNumeral 9 n (omega (arith, h))
