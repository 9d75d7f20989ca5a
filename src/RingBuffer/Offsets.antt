-- ===== src/RingBuffer/Offsets.antt =====
-- Places of the ring: `wrap` is the place `k` items on, which the offsets of the code stand for.
use virtual_usb.Base.{ℕ, ◌+◌, ◌-◌, ◌≤◌, ◌<◌, ◌≡◌, true, false, ltb, if◌then◌else◌, length, arith}
use virtual_usb.RingBuffer.{Ring, len}

abbrev pub wrap : ℕ → ℕ → ℕ
wrap cap k = if ltb k cap then k else k - cap

-- The offsets lie in the buffer, which has `cap` items, and only a full ring that is not empty has
-- `_full` set.
pub record IsValid {ℓ} {A : Type ℓ} (cap : ℕ) (r : Ring A) : Type 0 where
  pub roff_in : r.roff < cap
  pub woff_in : r.woff < cap
  pub size : length r.buf ≡ cap
  pub flag : r.full ≡ true → r.roff ≡ r.woff

module _ {ℓ} {A : Type ℓ} {cap : ℕ} {r : Ring A} (v : IsValid cap r) where
  pub len-max : len cap r ≤ cap
  unfolding len
  len-max = ground (arith, v.roff_in, v.woff_in)

  pub wrap-len : wrap cap (r.roff + len cap r) ≡ r.woff
  unfolding len
  wrap-len = ground (arith, v.roff_in, v.woff_in)

  pub len_not_full : r.full ≡ false → len cap r < cap
  unfolding len
  len_not_full e = ground (arith, v.roff_in, v.woff_in)

  pub len_full : r.full ≡ true → len cap r ≡ cap
  unfolding len
  len_full e = ground (arith, v.flag e, v.roff_in, v.woff_in)
