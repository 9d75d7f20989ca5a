-- ===== src/Endian/Tests.antt =====
-- The conversions at concrete words, on a host of either byte order.
use virtual_usb.Base.{◌≡◌, refl, true, false}
use virtual_usb.Endian.{hfl_u16, lfh_u32, bfh_u32, hfb_u32}

swapped_on_little : (bfh_u32 true 0x12345678 ≡ 0x78563412) × (lfh_u32 true 0x12345678 ≡ 0x12345678)
unfolding bfh_u32 virtual_usb.Endian.swap32 lfh_u32
swapped_on_little = (refl, refl)

swapped_on_big : (hfl_u16 false 0x1234 ≡ 0x3412) × (hfb_u32 false 0x12345678 ≡ 0x12345678)
unfolding hfl_u16 virtual_usb.Endian.swap16 hfb_u32
swapped_on_big = (refl, refl)
