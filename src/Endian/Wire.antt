-- ===== src/Endian/Wire.antt =====
-- Words in memory: what a conversion of Endian.h does to the bytes that a host stores.
use virtual_usb.Base.{
  ℕ, ◌+◌, ◌*◌, ◌/◌, ◌%◌, ◌^◌, ◌<◌, ◌≡◌, refl, Bool, true, false, arith, List, ◌++◌,
}
use virtual_usb.Endian.Swap.{swap16_lem, swap32_lem}
use virtual_usb.Endian.{
  swap16, swap32, lfh_u16, hfl_u16, lfh_u32, hfl_u32, bfh_u32, hfb_u32, le_bytes16, be_bytes16,
  le_bytes32, be_bytes32, store16, store32, load16, load32,
}

be_bytes32-swap32 : (x : ℕ) → be_bytes32 (swap32 x) ≡ le_bytes32 x
be_bytes32-swap32 x = ground (arith, swap32_lem x)

le_bytes32-swap32 : (x : ℕ) → le_bytes32 (swap32 x) ≡ be_bytes32 x
le_bytes32-swap32 x = ground (arith, swap32_lem x)

le_bytes16-swap16 : (x : ℕ) → be_bytes16 (swap16 x) ≡ le_bytes16 x
le_bytes16-swap16 x = ground (arith, swap16_lem x)

-- On a host of either byte order, a word converted by BFH lies in memory with its most significant
-- byte first, and 32- and 16-bit words converted by LFH with their least significant byte first.
pub store_wire :
    (little : Bool) (x y : ℕ)
    → (store32 little (bfh_u32 little x) ≡ be_bytes32 x)
      × (store32 little (lfh_u32 little x) ≡ le_bytes32 x)
      × (store16 little (lfh_u16 little y) ≡ le_bytes16 y)
unfolding store32 store16 bfh_u32 lfh_u32 lfh_u16
store_wire true x y = (le_bytes32-swap32 x, refl, refl)
store_wire false x y = (refl, be_bytes32-swap32 x, le_bytes16-swap16 y)

-- A host reads big-endian bytes by `HFB_U32` of the loaded word.
pub hfb_u32-load32 :
    (little : Bool) (x : ℕ) (m : List ℕ)
    → x < 2 ^ 32
    → hfb_u32 little (load32 little (be_bytes32 x ++ m)) ≡ x
unfolding load32 hfb_u32
hfb_u32-load32 true x m h = omega (
  arith,
  swap32_lem
      (x / 2 ^ 24 % 256 + x / 2 ^ 16 % 256 * 2 ^ 8 + x / 2 ^ 8 % 256 * 2 ^ 16 + x % 256 * 2 ^ 24),
)
hfb_u32-load32 false x m h = omega arith

pub hfl_u16-load16 :
    (little : Bool) (x : ℕ) (m : List ℕ)
    → x < 2 ^ 16
    → hfl_u16 little (load16 little (le_bytes16 x ++ m)) ≡ x
unfolding load16 hfl_u16
hfl_u16-load16 true x m h = omega arith
hfl_u16-load16 false x m h = omega (arith, swap16_lem (x % 256 * 256 + x / 256 % 256))

pub hfl_u32-load32 :
    (little : Bool) (x : ℕ) (m : List ℕ)
    → x < 2 ^ 32
    → hfl_u32 little (load32 little (le_bytes32 x ++ m)) ≡ x
unfolding load32 hfl_u32
hfl_u32-load32 true x m h = omega arith
hfl_u32-load32 false x m h = omega (
  arith,
  swap32_lem
      (x % 256 * 2 ^ 24 + x / 2 ^ 8 % 256 * 2 ^ 16 + x / 2 ^ 16 % 256 * 2 ^ 8 + x / 2 ^ 24 % 256),
)
