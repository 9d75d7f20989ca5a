-- ===== src/Device/Client/Speed.antt =====
-- `_SpeedFromBCDUSB` on the versions as numbers.
use virtual_usb.Base.{true, refl, ℕ, ◌^◌, ◌≤◌, ◌<◌, ◌≡◌, sym, ◌∙◌, Bool, Option, some, arith}
use virtual_usb.Endian.{lfh_u16, hfl_u16}
use virtual_usb.Endian.Swap.{conversions_cancel}
use virtual_usb.Device.Client.{speed_from_bcd_usb}

-- The switch, on the version in host order.
abbrev speed_of : ℕ → Option ℕ
speed_of v = speed_from_bcd_usb true v

speed_lem :
    (little : Bool) (v : ℕ) → v < 2 ^ 16 → speed_from_bcd_usb little (lfh_u16 little v) ≡ speed_of v
unfolding speed_from_bcd_usb hfl_u16
speed_lem little v h = rw ((conversions_cancel little 0 v (omega arith) h).3) refl

speed_of_mono : (v w a b : ℕ) → v ≤ w → speed_of v ≡ some a → speed_of w ≡ some b → a ≤ b
unfolding speed_from_bcd_usb hfl_u16
speed_of_mono v w a b h p q = ground arith

-- On a host of either byte order, of two little-endian USB versions that _SpeedFromBCDUSB accepts,
-- the later one never gets the lower speed.
pub speed_mono :
    (little : Bool) (v w a b : ℕ)
    → v < 2 ^ 16
    → w < 2 ^ 16
    → v ≤ w
    → speed_from_bcd_usb little (lfh_u16 little v) ≡ some a
    → speed_from_bcd_usb little (lfh_u16 little w) ≡ some b
    → a ≤ b
speed_mono little v w a b hv hw h p q =
    speed_of_mono v w a b h (sym (speed_lem little v hv) ∙ p) (sym (speed_lem little w hw) ∙ q)
