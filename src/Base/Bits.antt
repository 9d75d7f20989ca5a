-- ===== src/Base/Bits.antt =====
-- Laws of `&` and `|` at variables: a mask, a shifted mask, and the `|` of disjoint fields. They
-- turn the masks and shifts of the source into division and remainder, which `omega` reads.
use Prim.Native.Nat.{
  ℕ, zero, suc, ◌+◌, ◌-◌, ◌*◌, ◌/◌, ◌%◌, ◌^◌, ◌≤◌, ◌<◌, min, max, bit_and, bit_or, digits,
  bit_and-bitwise, bit_or-bitwise,
}
use mathlib.Core.Path.{◌≡◌, refl, ap, sym, ◌∙◌}
use native.Mathlib.Nat.{
  pow-suc, mul_comm, div-div-eq-div-mul, one-le-pow, mod-one, mod-lt, mod-eq_of_lt, div-add-mod',
  mul-add-mod_self_right,
}
use native.Mathlib.Omega.{arith}

module _ (last : ℕ → ℕ) (digit : ℕ → ℕ → ℕ) where
  -- The recursion on digits has fuel: one unit more changes nothing, once the first number is met,
  one_more :
      (fuel x y : ℕ) → x ≤ fuel → digits last digit (suc fuel) x y ≡ digits last digit fuel x y
  one_more (suc fuel) (suc x) y h = omega (arith, one_more fuel (suc x / 2) (y / 2) (omega arith))
  one_more zero (suc x) y h = absurd (omega arith)
  one_more (suc fuel) zero y h = refl
  one_more zero zero y h = refl

  -- nor do several,
  more :
      (extra fuel x y : ℕ)
      → x ≤ fuel
      → digits last digit (extra + fuel) x y ≡ digits last digit fuel x y
  more zero fuel x y h = ap (λ n. digits last digit n x y) (omega arith)
  more (suc extra) fuel x y h =
      ap (λ n. digits last digit n x y)
        (let e : suc extra + fuel ≡ suc (extra + fuel) = omega arith in e)
      ∙ one_more (extra + fuel) x y (omega arith)
      ∙ more extra fuel x y h

  -- so the fuel that is left after one digit is as good as new fuel.
  refuel :
      (a y : ℕ) → digits last digit a (suc a / 2) y ≡ digits last digit (suc a / 2) (suc a / 2) y
  refuel a y =
      let half = suc a / 2 in
      ap (λ n. digits last digit n half y) (let e : a ≡ a - half + half = omega arith in e)
      ∙ more (a - half) half half y (omega arith)

pub bit_and_step : (a b : ℕ) → bit_and a b ≡ bit_and (a / 2) (b / 2) * 2 + min (a % 2) (b % 2)
bit_and_step zero b = omega (arith, bit_and-bitwise 0 b, bit_and-bitwise 0 (b / 2))
bit_and_step (suc a) b = omega (
  arith,
  bit_and-bitwise (suc a) b,
  bit_and-bitwise (suc a / 2) (b / 2),
  refuel (λ _. zero) min a (b / 2),
)

pub bit_or_step : (a b : ℕ) → bit_or a b ≡ bit_or (a / 2) (b / 2) * 2 + max (a % 2) (b % 2)
bit_or_step zero b = omega (arith, bit_or-bitwise 0 b, bit_or-bitwise 0 (b / 2))
bit_or_step (suc a) b = omega (
  arith,
  bit_or-bitwise (suc a) b,
  bit_or-bitwise (suc a / 2) (b / 2),
  refuel (λ y. y) max a (b / 2),
)

and-zero_fuel : (n a : ℕ) → a ≤ n → bit_and a 0 ≡ 0
and-zero_fuel n zero h = refl
and-zero_fuel zero (suc a) h = absurd (omega arith)
and-zero_fuel (suc n) (suc a) h =
    omega (arith, bit_and_step (suc a) 0, and-zero_fuel n (suc a / 2) (omega arith))

or-zero_fuel : (n a : ℕ) → a ≤ n → bit_or a 0 ≡ a
or-zero_fuel n zero h = refl
or-zero_fuel zero (suc a) h = absurd (omega arith)
or-zero_fuel (suc n) (suc a) h =
    omega (arith, bit_or_step (suc a) 0, or-zero_fuel n (suc a / 2) (omega arith))

pub bit_and-zero : (a : ℕ) → bit_and a 0 ≡ 0
bit_and-zero a = and-zero_fuel a a (omega arith)

pub bit_or-zero : (a : ℕ) → bit_or a 0 ≡ a
bit_or-zero a = or-zero_fuel a a (omega arith)

pub zero-bit_or : (a : ℕ) → bit_or 0 a ≡ a
zero-bit_or a = bit_or-bitwise 0 a

-- One digit of each recursion below; `p` is the power of two that is left.
mod_double : (a p : ℕ) → 1 ≤ p → a % (p * 2) ≡ a / 2 % p * 2 + a % 2
mod_double a p h = ground (
  arith,
  div-add-mod' (a / 2) p,
  mod-lt (a / 2) h,
  mul-add-mod_self_right (a / 2 / p) (p * 2) (a / 2 % p * 2 + a % 2),
  mod-eq_of_lt {n = a / 2 % p * 2 + a % 2} {m = p * 2} (omega (arith, mod-lt (a / 2) h)),
)

mask_double : (a p : ℕ) → 1 ≤ p → bit_and a (p * 2 - 1) ≡ bit_and (a / 2) (p - 1) * 2 + a % 2
mask_double a p h = ground (arith, bit_and_step a (p * 2 - 1))

shifted_double : (a m p : ℕ) → bit_and a (m * (p * 2)) ≡ bit_and (a / 2) (m * p) * 2
shifted_double a m p = ground (arith, bit_and_step a (m * (p * 2)))

or_double : (a b p : ℕ) → bit_or b (a * (p * 2)) ≡ bit_or (b / 2) (a * p) * 2 + b % 2
or_double a b p = ground (arith, bit_or_step b (a * (p * 2)))

-- `a & (2^k - 1)`
pub bit_and_mask : (k a : ℕ) → bit_and a (2 ^ k - 1) ≡ a % 2 ^ k
bit_and_mask zero a = bit_and-zero a ∙ sym (mod-one a)
bit_and_mask (suc k) a =
    let pos = one-le-pow k 2 (omega arith) in
    rw pow-suc
      (omega (arith, mask_double a (2 ^ k) pos, bit_and_mask k (a / 2), mod_double a (2 ^ k) pos))

-- `a & (m << k)`
pub bit_and_shifted : (k a m : ℕ) → bit_and a (m * 2 ^ k) ≡ bit_and (a / 2 ^ k) m * 2 ^ k
bit_and_shifted zero a m = ground arith
bit_and_shifted (suc k) a m =
    rw (pow-suc, mul_comm (2 ^ k) 2, ← div-div-eq-div-mul a 2 (2 ^ k), mul_comm 2 (2 ^ k))
      (omega (arith, shifted_double a m (2 ^ k), bit_and_shifted k (a / 2) m))

-- `b | (a << k)`, where b has at most k bits
pub bit_or_disjoint : (k a b : ℕ) → b < 2 ^ k → bit_or b (a * 2 ^ k) ≡ a * 2 ^ k + b
bit_or_disjoint zero a b h = ground (arith, zero-bit_or a)
bit_or_disjoint (suc k) a b h =
    rw pow-suc (
      omega
        (arith, or_double a b (2 ^ k), bit_or_disjoint k a (b / 2) (omega (arith, pow-suc 2 k))))
