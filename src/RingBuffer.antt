-- ===== src/RingBuffer.antt =====
-- LIB/Toastbox/RingBuffer.h: the ring buffer of `Cap` items. The buffer is a list, a copy from it or
-- to it is `slice` and `paste`, and `none` is `abort()`.
pub mod Queue
pub mod Offsets
pub mod Copies
pub mod Refine
pub mod Reading
pub mod Writing
pub mod Filling
pub mod Operations
pub mod Runs
mod Tests
use virtual_usb.Base.{
  ℕ, suc, zero, ◌+◌, ◌-◌, min, List, [], ◌∷◌, ◌++◌, Bool, true, false, not, Option, some, none, ltb,
  ◌&&◌, ◌==◌, if◌then◌else◌, length, take, drop,
}

pub record Ring {ℓ} (A : Type ℓ) : Type ℓ where
  pub roff : ℕ
  pub woff : ℕ
  pub full : Bool
  pub buf : List A

-- `if (off == Cap) off = 0`
abbrev pub round : ℕ → ℕ → ℕ
round cap off = if off == cap then 0 else off

module _ {ℓ} {A : Type ℓ} where
  -- `std::copy(buf+off, buf+off+n, data)`
  abbrev pub slice : ℕ → ℕ → List A → List A
  slice off n buf = take n (drop off buf)

  -- `std::copy(data, data+n, buf+off)`
  abbrev pub paste : ℕ → List A → List A → List A
  paste off items buf = take off buf ++ (items ++ drop (off + length items) buf)

  -- The buffer as it is made; what `_buf` holds then is not set.
  abbrev pub empty : List A → Ring A
  empty buf = record { roff = 0; woff = 0; full = false; buf = buf }

  module _ (cap : ℕ) where
    unfoldable pub len : Ring A → ℕ
    len r =
        if ltb r.roff r.woff
        then r.woff - r.roff
        else if ltb r.woff r.roff
        then (cap - r.roff) + r.woff
        else if r.full
        then cap
        else 0

    unfoldable pub space : Ring A → ℕ
    space r = cap - len r

    -- The second segment of `read`, of `rem` items, from the start of the buffer.
    unfoldable pub read_second : ℕ → Ring A → List A × Ring A
    read_second rem r =
        if rem == 0
        then ([], r)
        else let len2 = min rem r.woff in
          (slice 0 len2 r.buf, record r { roff = round cap (r.roff + len2) })

    -- The two segments of `read`, and its last test.
    unfoldable pub read_segments : ℕ → Ring A → List A × Ring A
    read_segments n r =
        let len1 = min n (cap - r.roff) in
        let (items, r') = read_second (n - len1) (record r { roff = round cap (r.roff + len1) }) in
        (slice r.roff len1 r.buf ++ items, record r' { full = if n == 0 then r'.full else false })

    unfoldable pub read : ℕ → Ring A → Option (List A × Ring A)
    read n r = if ltb (len r) n then none else some (read_segments n r)

    abbrev first : List A × Ring A → Option (A × Ring A)
    first ([], r) = none
    first (x ∷ xs, r) = some (x, r)

    abbrev pub first_read : Option (List A × Ring A) → Option (A × Ring A)
    first_read none = none
    first_read (some p) = first p

    -- `T read()`
    abbrev pub read_one : Ring A → Option (A × Ring A)
    read_one r = first_read (read 1 r)

    -- Where the oldest item is when `n` items have been written over the ones there.
    unfoldable pub make_room : ℕ → Ring A → Ring A
    make_room n r =
        let overflow = n - space r in
        if ltb (space r) n
        then record r {
          roff =
              if ltb overflow (cap - r.roff) then r.roff + overflow else overflow - (cap - r.roff);
        }
        else r

    -- The second segment of `write`, at the start of the buffer.
    unfoldable pub write_second : List A → Ring A → Ring A
    write_second items r =
        if length items == 0
        then r
        else let len2 = min (length items) r.roff in
          record r { woff = round cap (r.woff + len2); buf = paste 0 (take len2 items) r.buf }

    -- The two segments of `write`, and its last test.
    unfoldable pub write_segments : List A → Ring A → Ring A
    write_segments items r =
        let len1 = min (length items) (cap - r.woff) in
        let r' = write_second (drop len1 items) (record r {
          woff = round cap (r.woff + len1);
          buf = paste r.woff (take len1 items) r.buf;
        }) in
        record r' {
          full = if not (length items == 0) && (r'.woff == r'.roff) then true else r'.full;
        }

    -- `write<false>`
    unfoldable pub write : List A → Ring A → Option (Ring A)
    write items r = if ltb (space r) (length items) then none else some (write_segments items r)

    -- `write<true>`
    unfoldable pub write_over : List A → Ring A → Ring A
    write_over items r =
        let kept = if ltb cap (length items) then drop (length items - cap) items else items in
        write_segments kept (make_room (length kept) r)

    abbrev pub write_one : A → Ring A → Option (Ring A)
    write_one x r = write (x ∷ []) r

    abbrev pub write_over_one : A → Ring A → Ring A
    write_over_one x r = write_over (x ∷ []) r
