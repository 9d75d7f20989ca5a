-- ===== src/Endian/Swap.antt =====
-- The swaps of Endian.h by division and remainder, and that each conversion undoes the other.
use virtual_usb.Base.{
  ℕ, ◌+◌, ◌*◌, ◌/◌, ◌%◌, ◌^◌, ◌<◌, ◌≡◌, refl, bit_and, bit_or, ap, ◌∙◌, Bool, true, false, arith,
}
use virtual_usb.Base.Bits.{bit_and_mask, bit_and_shifted, bit_or_disjoint}
use virtual_usb.Endian.{swap16, swap32, lfh_u16, hfl_u16, lfh_u32, hfl_u32, bfh_u32, hfb_u32}

-- The byte of a word at a bit position that is a multiple of 8.
and_byte : (k x : ℕ) → bit_and x (255 * 2 ^ k) ≡ x / 2 ^ k % 256 * 2 ^ k
and_byte k x = bit_and_shifted k x 255 ∙ ap (λ b. b * 2 ^ k) (bit_and_mask 8 (x / 2 ^ k))

-- Two fields side by side, the second `k` bits up.
or_fields : (k b q : ℕ) → b < 2 ^ k → bit_or b (q * 2 ^ k) ≡ b + q * 2 ^ k
or_fields k b q h = omega (arith, bit_or_disjoint k q b h)

pub swap16_lem : (x : ℕ) → swap16 x ≡ x / 256 % 256 + x % 256 * 256
unfolding swap16
swap16_lem x =
    ground (arith, and_byte 8 x, and_byte 0 x, or_fields 8 (x / 256 % 256) (x % 256) (omega arith))

pub swap32_lem :
    (x : ℕ)
    → swap32 x
      ≡ x / 2 ^ 24 % 256 + x / 2 ^ 16 % 256 * 2 ^ 8 + x / 2 ^ 8 % 256 * 2 ^ 16 + x % 256 * 2 ^ 24
unfolding swap32
swap32_lem x = ground (
  arith,
  and_byte 24 x,
  and_byte 16 x,
  and_byte 8 x,
  and_byte 0 x,
  or_fields 8 (x / 2 ^ 24 % 256) (x / 2 ^ 16 % 256) (omega arith),
  or_fields 16 (x / 2 ^ 24 % 256 + x / 2 ^ 16 % 256 * 2 ^ 8) (x / 2 ^ 8 % 256) (omega arith),
  or_fields 24 (x / 2 ^ 24 % 256 + x / 2 ^ 16 % 256 * 2 ^ 8 + x / 2 ^ 8 % 256 * 2 ^ 16) (x % 256)
      (omega arith),
)

pub swap16-swap16 : (x : ℕ) → x < 2 ^ 16 → swap16 (swap16 x) ≡ x
swap16-swap16 x h = omega (arith, swap16_lem x, swap16_lem (swap16 x))

pub swap32-swap32 : (x : ℕ) → x < 2 ^ 32 → swap32 (swap32 x) ≡ x
swap32-swap32 x h = omega (arith, swap32_lem x, swap32_lem (swap32 x))

pub hfb_u32-bfh_u32 : (little : Bool) (x : ℕ) → x < 2 ^ 32 → hfb_u32 little (bfh_u32 little x) ≡ x
unfolding hfb_u32 bfh_u32
hfb_u32-bfh_u32 true x h = swap32-swap32 x h
hfb_u32-bfh_u32 false x h = refl

-- On a host of either byte order, HFB and BFH of 32-bit words undo each other, in both orders, and
-- HFL undoes LFH on 32- and 16-bit words.
pub conversions_cancel :
    (little : Bool) (x y : ℕ)
    → x < 2 ^ 32
    → y < 2 ^ 16
    → (hfb_u32 little (bfh_u32 little x) ≡ x)
      × (bfh_u32 little (hfb_u32 little x) ≡ x)
      × (hfl_u32 little (lfh_u32 little x) ≡ x)
      × (hfl_u16 little (lfh_u16 little y) ≡ y)
unfolding hfb_u32 bfh_u32 hfl_u32 lfh_u32 hfl_u16 lfh_u16
conversions_cancel true x y h k = (swap32-swap32 x h, swap32-swap32 x h, refl, refl)
conversions_cancel false x y h k = (refl, refl, swap32-swap32 x h, swap16-swap16 y k)
