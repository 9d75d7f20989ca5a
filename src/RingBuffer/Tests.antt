-- ===== src/RingBuffer/Tests.antt =====
-- Runs of the ring buffer, and the theorems about it at concrete rings.
use virtual_usb.Base.{ℕ, ◌+◌, ◌<◌, ◌≡◌, refl, List, [], ◌∷◌, true, false, some, none, arith, length}
use virtual_usb.RingBuffer.{
  Ring, len, space, read, read_one, write, write_one, write_over, write_over_one, empty,
  read_segments, write_segments, read_second, write_second, make_room,
}
use virtual_usb.RingBuffer.Queue
use virtual_usb.RingBuffer.Offsets.{IsValid}
use virtual_usb.RingBuffer.Refine.{contents}
use virtual_usb.RingBuffer.Runs.{Op, reads, writes, overwrites, run, ring_step, queue_step}
use virtual_usb.RingBuffer.Runs.Whole.{run_refines, run_bounds, as_queue, empty-IsValid}

-- Four places, of which the last and the first are taken.
abbrev wrapped : Ring ℕ
wrapped = record { roff = 3; woff = 1; full = false; buf = 11 ∷ 0 ∷ 0 ∷ 10 ∷ [] }

wrapped-IsValid : IsValid 4 wrapped
wrapped-IsValid = record {
  roff_in = omega arith;
  woff_in = omega arith;
  size = refl;
  flag = λ e. cc;
}

abbrev calls : List (Op ℕ)
calls = writes (12 ∷ 13 ∷ []) ∷ overwrites (14 ∷ 15 ∷ 16 ∷ []) ∷ reads 3 ∷ reads 0 ∷ []

run_refines_example :
    run (queue_step 4) calls (contents 4 wrapped) ≡ as_queue 4 (run (ring_step 4) calls wrapped)
run_refines_example = run_refines 4 calls wrapped wrapped-IsValid

run-calls :
    run (queue_step 4) calls (10 ∷ 11 ∷ [])
    ≡ ([] ∷ [] ∷ (13 ∷ 14 ∷ 15 ∷ []) ∷ [] ∷ [], some (16 ∷ []))
unfolding queue_step Queue.read Queue.write Queue.write_over
run-calls = refl

ring_run : run (ring_step 4) calls wrapped ≡ (
  [] ∷ [] ∷ (13 ∷ 14 ∷ 15 ∷ []) ∷ [] ∷ [],
  some (record { roff = 1; woff = 2; full = false; buf = 15 ∷ 16 ∷ 13 ∷ 14 ∷ [] }),
)
unfolding ring_step read write write_over read_segments write_segments read_second write_second
    make_room len space
ring_run = refl

abbrev fills : List (Op ℕ)
fills = overwrites (1 ∷ 2 ∷ 3 ∷ 4 ∷ 5 ∷ []) ∷ reads 1 ∷ writes (6 ∷ []) ∷ []

abbrev filled : Ring ℕ
filled = record { roff = 1; woff = 1; full = true; buf = 6 ∷ 3 ∷ 4 ∷ 5 ∷ [] }

run-fills : (run (ring_step 4) fills (empty (0 ∷ 0 ∷ 0 ∷ 0 ∷ []))).1 ≡ some filled
unfolding ring_step read write write_over read_segments write_segments read_second write_second
    make_room len space
run-fills = refl

run_bounds_example :
    (1 < 4)
    × (1 < 4)
    × (length filled.buf ≡ 4)
    × (len 4 filled + space 4 filled ≡ 4)
    × (length (contents 4 filled) ≡ len 4 filled)
run_bounds_example =
    run_bounds 4 fills (empty (0 ∷ 0 ∷ 0 ∷ 0 ∷ [])) filled
      (empty-IsValid 4 (0 ∷ 0 ∷ 0 ∷ 0 ∷ []) (omega arith) refl) run-fills

too_much : read 4 3 wrapped ≡ none
unfolding read len
too_much = refl

one_more : write_one 4 7 filled ≡ none
unfolding write len space
one_more = refl

oldest :
    read_one 4 filled
    ≡ some (3, record { roff = 2; woff = 1; full = false; buf = 6 ∷ 3 ∷ 4 ∷ 5 ∷ [] })
unfolding read read_segments read_second len
oldest = refl

over_one :
    write_over_one 4 7 filled ≡ record { roff = 2; woff = 2; full = true; buf = 6 ∷ 7 ∷ 4 ∷ 5 ∷ [] }
unfolding write_over write_segments write_second make_room len space
over_one = refl
