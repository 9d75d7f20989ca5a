-- ===== src/Text.antt =====
-- The conversions of `sscanf`, `strtoul` and `snprintf` that USBIPLib.cpp uses, on texts as lists of
-- bytes without the zero at the end. An `int` or `unsigned` is its 32-bit pattern; a number that does
-- not fit is taken modulo 2^32, as glibc does.
mod Tests
pub mod Digits
pub mod Fields
use Prim.Native.Char.{code}
use Prim.Native.String.{String}
use virtual_usb.Base.{
  ℕ, suc, zero, ◌+◌, ◌-◌, ◌*◌, ◌/◌, ◌%◌, ◌^◌, List, [], ◌∷◌, ◌++◌, Bool, true, false, not, Option,
  some, none, ◌&&◌, ◌||◌, ltb, leb, ◌==◌, if◌then◌else◌, take,
}

-- A scan goes on when the last conversion has succeeded.
infixl 10 ◌>>=◌
abbrev pub ◌>>=◌ : {A B : Type 0} → Option A → (A → Option B) → Option B
none >>= f = none
some a >>= f = f a

abbrev pub codes : String → List ℕ
codes String.[] = []
codes (String.◌∷◌ c s) = code c ∷ codes s

-- Two texts, as `strcmp` tells them apart.
abbrev pub same : List ℕ → List ℕ → Bool
same [] [] = true
same [] (c ∷ t) = false
same (b ∷ s) [] = false
same (b ∷ s) (c ∷ t) = (b == c) && same s t

-- What follows the first `stop` in a text: `strchr`, and one step on.
abbrev pub after : ℕ → List ℕ → Option (List ℕ)
after stop [] = none
after stop (b ∷ s) = if b == stop then some s else after stop s

abbrev pub is_space : ℕ → Bool
is_space b = (b == 32) || (leb 9 b && leb b 13)

abbrev pub skip_space : List ℕ → List ℕ
skip_space [] = []
skip_space (b ∷ s) = if is_space b then skip_space s else b ∷ s

-- The value of a digit, and 16 for a byte that is none.
abbrev pub digit_value : ℕ → ℕ
digit_value b =
    if leb b'0' b && leb b b'9'
    then b - b'0'
    else if leb b'a' b && leb b b'f'
    then b - 87
    else if leb b'A' b && leb b b'F'
    then b - 55
    else 16

-- The digits that follow a number that has been read as far as `n`.
abbrev pub scan_digits : ℕ → ℕ → List ℕ → ℕ × List ℕ
scan_digits base n [] = (n, [])
scan_digits base n (b ∷ s) =
    let go_on = scan_digits base (base * n + digit_value b) s in
    if ltb (digit_value b) base then go_on else (n, b ∷ s)

-- One digit or more.
abbrev pub scan_number : ℕ → List ℕ → Option (ℕ × List ℕ)
scan_number base [] = none
scan_number base (b ∷ s) =
    if ltb (digit_value b) base then some (scan_digits base (digit_value b) s) else none

-- `%x` passes over `0x`.
abbrev drop_prefix : List ℕ → List ℕ
drop_prefix (b ∷ c ∷ s) = if (b == b'0') && ((c == b'x') || (c == b'X')) then s else b ∷ c ∷ s
drop_prefix s = s

abbrev pub scan_prefixed : ℕ → List ℕ → Option (ℕ × List ℕ)
scan_prefixed base s = scan_number base (if base == 16 then drop_prefix s else s)

abbrev pub negative : Option (ℕ × List ℕ) → Option (ℕ × List ℕ)
negative none = none
negative (some (n, s)) = some ((2 ^ 32 - n % 2 ^ 32) % 2 ^ 32, s)

abbrev pub positive : Option (ℕ × List ℕ) → Option (ℕ × List ℕ)
positive none = none
positive (some (n, s)) = some (n % 2 ^ 32, s)

-- A number with its sign.
abbrev pub scan_signed : ℕ → List ℕ → Option (ℕ × List ℕ)
scan_signed base [] = none
scan_signed base (b ∷ s) =
    if b == b'-'
    then negative (scan_prefixed base s)
    else if b == b'+'
    then positive (scan_prefixed base s)
    else positive (scan_prefixed base (b ∷ s))

-- `%d` and `%u` (base 10), and `%x` (base 16).
unfoldable pub scan_int : ℕ → List ℕ → Option (ℕ × List ℕ)
scan_int base s = scan_signed base (skip_space s)

abbrev pub word : ℕ → List ℕ → List ℕ × List ℕ
word zero s = ([], s)
word (suc n) [] = ([], [])
word (suc n) (b ∷ s) = let (w, rest) = word n s in if is_space b then ([], b ∷ s) else (b ∷ w, rest)

abbrev pub nonempty : List ℕ × List ℕ → Option (List ℕ × List ℕ)
nonempty ([], s) = none
nonempty (b ∷ w, s) = some (b ∷ w, s)

-- `%<n>s`
unfoldable pub scan_word : ℕ → List ℕ → Option (List ℕ × List ℕ)
scan_word n s = nonempty (word n (skip_space s))

abbrev pub digit : ℕ → ℕ
digit d = if ltb d 10 then b'0' + d else 87 + d

-- `%0<w>u` and `%0<w>x`, for a number of at most `w` digits.
abbrev pub padded : ℕ → ℕ → ℕ → List ℕ
padded base zero n = []
padded base (suc w) n = padded base w (n / base) ++ (digit (n % base) ∷ [])

-- `%u`, for a number of at most `fuel` digits.
abbrev pub unpadded : ℕ → ℕ → List ℕ
unpadded zero n = []
unpadded (suc fuel) n =
    let front = unpadded fuel (n / 10) in
    if ltb n 10 then digit n ∷ [] else front ++ (digit (n % 10) ∷ [])

-- `%u` of a 32-bit number, which has at most ten digits.
abbrev pub decimal : ℕ → List ℕ
decimal n = unpadded 10 n

-- `%d` of a 32-bit pattern.
abbrev pub decimal_int : ℕ → List ℕ
decimal_int n = if ltb n (2 ^ 31) then decimal n else b'-' ∷ decimal (2 ^ 32 - n)
