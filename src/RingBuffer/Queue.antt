-- ===== src/RingBuffer/Queue.antt =====
-- What a ring buffer of `cap` items promises: a list of at most `cap` items, oldest first.
use virtual_usb.Base.{
  ℕ, ◌+◌, ◌-◌, List, ◌++◌, Option, some, none, leb, if◌then◌else◌, length, take, drop,
}

module _ {ℓ} {A : Type ℓ} where
  unfoldable pub read : ℕ → List A → Option (List A × List A)
  read n q = if leb n (length q) then some (take n q, drop n q) else none

  module _ (cap : ℕ) where
    unfoldable pub write : List A → List A → Option (List A)
    write xs q = if leb (length q + length xs) cap then some (q ++ xs) else none

    -- The oldest items give way.
    unfoldable pub write_over : List A → List A → List A
    write_over xs q = drop (length (q ++ xs) - cap) (q ++ xs)
