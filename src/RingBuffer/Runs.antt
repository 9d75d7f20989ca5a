-- ===== src/RingBuffer/Runs.antt =====
-- Sequences of operations of the ring buffer, and of the queue.
mod Steps
pub mod Whole
use virtual_usb.Base.{
  ℕ, subst, ◌+◌, ◌-◌, ◌≤◌, ◌<◌, ◌≡◌, ◌≢◌, refl, ap, ap₂, sym, ◌∙◌, List, [], ◌∷◌, ◌++◌, length,
  take, drop, length-append, length-drop, drop_all, length-take, arith, ltb, if◌then◌else◌, Bool,
  true, false, ◌==◌, Option, some, none, leb-false, le→leb, lt→ltb, drop-append, leb,
}
use mathlib.Core.Option
use virtual_usb.RingBuffer.Queue
use virtual_usb.RingBuffer.{
  Ring, len, space, read, write, write_over, read_segments, write_segments, make_room,
}
use virtual_usb.RingBuffer.Offsets.{IsValid, len-max}
use virtual_usb.RingBuffer.Refine.{contents, length-contents}
use virtual_usb.RingBuffer.Reading.{Taken-IsValid, Taken-read, Taken-left, read_segments-Taken}
use virtual_usb.RingBuffer.Operations.{
  read_ok, read_aborts, write_ok, write_aborts, write_segments-IsValid, write_segments-contents,
  over-IsValid, over-contents, overflow,
}
use native.Mathlib.Decide.{dec_lt}

-- `read(data, n)`, `write(data, len)` and `writeOver(data, len)`
pub data Op (A : Type 0) : Type 0 where
  reads : ℕ → Op A
  writes : List A → Op A
  overwrites : List A → Op A

-- `abort()`, or what was read and the state after.
pub data Result (A S : Type 0) : Type 0 where
  aborts : Result A S
  gives : List A → S → Result A S

module _ {A : Type 0} where
  abbrev pub written : {S : Type 0} → Option S → Result A S
  written none = aborts
  written (some s) = gives [] s

  abbrev pub read_out : {S : Type 0} → Option (List A × S) → Result A S
  read_out none = aborts
  read_out (some p) = gives p.0 p.1

  module _ (cap : ℕ) where
    unfoldable pub ring_step : Op A → Ring A → Result A (Ring A)
    ring_step (reads n) r = read_out (read cap n r)
    ring_step (writes xs) r = written (write cap xs r)
    ring_step (overwrites xs) r = gives [] (write_over cap xs r)

    unfoldable pub queue_step : Op A → List A → Result A (List A)
    queue_step (reads n) q = read_out (Queue.read n q)
    queue_step (writes xs) q = written (Queue.write cap xs q)
    queue_step (overwrites xs) q = gives [] (Queue.write_over cap xs q)

  abbrev pub see : {S T : Type 0} → (S → T) → Result A S → Result A T
  see f aborts = aborts
  see f (gives xs s) = gives xs (f s)

  abbrev pub OnResult : {S : Type 0} → (S → Type 0) → Result A S → Type 0
  OnResult P aborts = Unit
  OnResult P (gives xs s) = P s

  -- What the operations read, up to the first that aborts, and the state at the end unless one does.
  module _ {S : Type 0} (step : Op A → S → Result A S) where
    abbrev pub then_run : Result A S → (S → List (List A) × Option S) → List (List A) × Option S
    then_run aborts go = ([], none)
    then_run (gives xs s) go = let (outs, end) = go s in (xs ∷ outs, end)

    abbrev pub run : List (Op A) → S → List (List A) × Option S
    run [] s = ([], some s)
    run (op ∷ ops) s = then_run (step op s) (run ops)
