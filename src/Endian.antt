-- ===== src/Endian.antt =====
-- LIB/Toastbox/Endian.h: byte swaps, and the conversions between host, little and big endian. A
-- word is its bit pattern; the signed overloads act on the same patterns. `little` is the host:
-- what `LittleEndian()` returns.
mod Tests
pub mod Swap
pub mod Wire
use virtual_usb.Base.{
  ℕ, ◌+◌, ◌*◌, ◌/◌, ◌%◌, ◌^◌, bit_and, bit_or, Bool, List, [], ◌∷◌, if◌then◌else◌, get_or,
}

-- `Swap(uint16_t)`, and `Swap(int16_t)` on patterns: the return type keeps 16 bits.
pub swap16 : ℕ → ℕ
swap16 x = bit_or (bit_and x 0xff00 / 2 ^ 8) (bit_and x 0x00ff * 2 ^ 8) % 2 ^ 16

-- `Swap(uint32_t)`, and `Swap(int32_t)` on patterns.
pub swap32 : ℕ → ℕ
swap32 x =
    bit_or
      (bit_or (bit_or (bit_and x 0xff000000 / 2 ^ 24) (bit_and x 0x00ff0000 / 2 ^ 8))
        (bit_and x 0x0000ff00 * 2 ^ 8))
      (bit_and x 0x000000ff * 2 ^ 24)
    % 2 ^ 32

module _ (little : Bool) where
  -- Little endian to and from the host.
  unfoldable pub lfh_u16 : ℕ → ℕ
  lfh_u16 x = if little then x else swap16 x

  unfoldable pub hfl_u16 : ℕ → ℕ
  hfl_u16 x = if little then x else swap16 x

  unfoldable pub lfh_u32 : ℕ → ℕ
  lfh_u32 x = if little then x else swap32 x

  unfoldable pub hfl_u32 : ℕ → ℕ
  hfl_u32 x = if little then x else swap32 x

  -- Big endian to and from the host.
  unfoldable pub bfh_u32 : ℕ → ℕ
  bfh_u32 x = if little then swap32 x else x

  unfoldable pub hfb_u32 : ℕ → ℕ
  hfb_u32 x = if little then swap32 x else x

-- The bytes of a word, lowest address first, as a host of either kind stores them.
abbrev pub le_bytes16 : ℕ → List ℕ
le_bytes16 x = x % 256 ∷ x / 256 % 256 ∷ []

abbrev pub be_bytes16 : ℕ → List ℕ
be_bytes16 x = x / 256 % 256 ∷ x % 256 ∷ []

abbrev pub le_bytes32 : ℕ → List ℕ
le_bytes32 x = x % 256 ∷ x / 2 ^ 8 % 256 ∷ x / 2 ^ 16 % 256 ∷ x / 2 ^ 24 % 256 ∷ []

abbrev pub be_bytes32 : ℕ → List ℕ
be_bytes32 x = x / 2 ^ 24 % 256 ∷ x / 2 ^ 16 % 256 ∷ x / 2 ^ 8 % 256 ∷ x % 256 ∷ []

module _ (little : Bool) where
  -- A word in the host's memory, and read back from it.
  unfoldable pub store16 : ℕ → List ℕ
  store16 x = if little then le_bytes16 x else be_bytes16 x

  unfoldable pub store32 : ℕ → List ℕ
  store32 x = if little then le_bytes32 x else be_bytes32 x

  unfoldable pub load16 : List ℕ → ℕ
  load16 m = if little then get_or m 0 0 + get_or m 1 0 * 256 else get_or m 0 0 * 256 + get_or m 1 0

  unfoldable pub load32 : List ℕ → ℕ
  load32 m =
      if little
      then get_or m 0 0 + get_or m 1 0 * 2 ^ 8 + get_or m 2 0 * 2 ^ 16 + get_or m 3 0 * 2 ^ 24
      else get_or m 0 0 * 2 ^ 24 + get_or m 1 0 * 2 ^ 16 + get_or m 2 0 * 2 ^ 8 + get_or m 3 0
