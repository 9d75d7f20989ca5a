-- ===== src/Text/Fields.antt =====
-- The conversions on a text whose fields are a number or a word, each behind spaces.
use virtual_usb.Base.{
  ℕ, zero, suc, ◌^◌, ◌≤◌, ◌<◌, ◌≡◌, refl, ap, ◌∙◌, List, [], ◌∷◌, ◌++◌, Bool, true, false, some,
  none, if◌then◌else◌, All, arith, length, ◌≢◌, ◌==◌, ==_false,
}
use virtual_usb.Text.{
  digit_value, scan_number, scan_digits, scan_int, scan_word, word, is_space, skip_space,
  scan_signed, positive, nonempty, drop_prefix,
}
use virtual_usb.Text.Digits.{IsNumeral}

-- Where a text is at its end, or goes on with a space.
abbrev pub Ends : List ℕ → Type 0
Ends [] = Unit
Ends (b ∷ s) = is_space b ≡ true

digit_not_space : (b : ℕ) → digit_value b < 16 → is_space b ≡ false
digit_not_space b h = ground arith

scan_digits-Ends :
    (base n : ℕ) (rest : List ℕ) → base ≤ 16 → Ends rest → scan_digits base n rest ≡ (n, rest)
scan_digits-Ends base n [] h e = refl
scan_digits-Ends base n (b ∷ s) h e = ground arith

-- A numeral is no space, no sign and no prefix `0x`.
signed_one :
    (base b : ℕ)
    → digit_value b < 16
    → scan_signed base (skip_space (b ∷ [])) ≡ positive (scan_number base (b ∷ []))
signed_one base b h = ground arith

no_prefix : (b c : ℕ) (s : List ℕ) → c ≢ 120 → c ≢ 88 → drop_prefix (b ∷ c ∷ s) ≡ b ∷ c ∷ s
no_prefix b c s x y = ground arith

either : (t : Bool) (xs ys : List ℕ) → xs ≡ ys → (if t then xs else ys) ≡ ys
either true xs ys e = e
either false xs ys e = refl

signed_more :
    (base b c : ℕ) (s : List ℕ)
    → digit_value b < 16
    → c ≢ 120
    → c ≢ 88
    → scan_signed base (skip_space (b ∷ c ∷ s)) ≡ positive (scan_number base (b ∷ c ∷ s))
signed_more base b c s h x y =
    rw (digit_not_space b h, ==_false b 45 (λ e. ground arith), ==_false b 43 (λ e. ground arith))
      (ap (λ t. positive (scan_number base t))
        (either (base == 16) (drop_prefix (b ∷ c ∷ s)) (b ∷ c ∷ s) (no_prefix b c s x y)))

no_number : {p : ℕ × List ℕ} → none ≡ some p → ⊥
no_number e = cc

signed_numeral :
    (base : ℕ) (xs : List ℕ) (n : ℕ) (rest : List ℕ)
    → IsNumeral base xs n
    → Ends rest
    → scan_signed base (skip_space (xs ++ rest)) ≡ positive (scan_number base (xs ++ rest))
signed_numeral base [] n rest k e = absurd (no_number (k.scanned []))
signed_numeral base (b ∷ []) n [] k e = signed_one base b k.digits.0
signed_numeral base (b ∷ []) n (c ∷ rest) k e =
    signed_more base b c rest k.digits.0 (λ x. ground arith) (λ x. ground arith)
signed_numeral base (b ∷ c ∷ s) n rest k e =
    signed_more base b c (s ++ rest) k.digits.0 (λ x. ground arith) (λ x. ground arith)

pub scan_int-numeral :
    (base : ℕ) (xs : List ℕ) (n : ℕ) (rest : List ℕ)
    → base ≤ 16
    → n < 2 ^ 32
    → IsNumeral base xs n
    → Ends rest
    → scan_int base (b' ' ∷ (xs ++ rest)) ≡ some (n, rest)
unfolding scan_int
scan_int-numeral base xs n rest h l k e =
    signed_numeral base xs n rest k e
    ∙ (ap positive (k.scanned rest ∙ ap some (scan_digits-Ends base n rest h e))
        ∙ ap (λ m. some (m, rest)) (omega (arith, l)))

abbrev pub IsWord : List ℕ → Type 0
IsWord w = All (λ b. is_space b ≡ false) w

skip_word :
    (b : ℕ) (w rest : List ℕ) → is_space b ≡ false → skip_space (b ∷ (w ++ rest)) ≡ b ∷ (w ++ rest)
skip_word b w rest h = rw h refl

word_lem :
    (n : ℕ) (w rest : List ℕ) → length w ≤ n → Ends rest → IsWord w → word n (w ++ rest) ≡ (w, rest)
word_lem zero [] rest h e k = refl
word_lem (suc n) [] [] h e k = refl
word_lem (suc n) [] (b ∷ rest) h e k = rw e refl
word_lem zero (b ∷ w) rest h e k = absurd (omega arith)
word_lem (suc n) (b ∷ w) rest h e k = rw (k.0, word_lem n w rest (omega arith) e k.1) refl

-- A word that is short enough and that a space follows.
pub scan_word_lem :
    (n b : ℕ) (w rest : List ℕ)
    → length (b ∷ w) ≤ n
    → Ends rest
    → IsWord (b ∷ w)
    → scan_word n ((b ∷ w) ++ rest) ≡ some (b ∷ w, rest)
unfolding scan_word
scan_word_lem n b w rest h e k =
    ap (λ s. nonempty (word n s)) (skip_word b w rest k.0)
    ∙ ap nonempty (word_lem n (b ∷ w) rest h e k)
