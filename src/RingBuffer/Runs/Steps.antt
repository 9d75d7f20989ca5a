-- ===== src/RingBuffer/Runs/Steps.antt =====
-- Each operation on a ring, seen as one on the queue of its items.
use virtual_usb.Base.{
  ℕ, subst, ◌+◌, ◌-◌, ◌≤◌, ◌≡◌, ap, ap₂, sym, ◌∙◌, List, [], ◌++◌, length, take, drop,
  length-append, length-drop, drop_all, arith, ltb, if◌then◌else◌, some, none, leb-false, le→leb,
  drop-append,
}
use virtual_usb.RingBuffer.Queue
use virtual_usb.RingBuffer.{Ring, len, space, read, write, write_over}
use virtual_usb.RingBuffer.Offsets.{IsValid, len-max}
use virtual_usb.RingBuffer.Refine.{contents, length-contents}
use virtual_usb.RingBuffer.Reading.{Taken-IsValid, Taken-read, Taken-left, read_segments-Taken}
use virtual_usb.RingBuffer.Operations.{
  read_ok, read_aborts, write_ok, write_aborts, write_segments-IsValid, write_segments-contents,
  over-IsValid, over-contents, overflow,
}
use native.Mathlib.Decide.{dec_lt}
use virtual_usb.RingBuffer.Runs.{
  Op, reads, writes, overwrites, gives, see, OnResult, written, read_out, ring_step, queue_step,
}

module _ {A : Type 0} where
  module _ {cap : ℕ} {r : Ring A} (v : IsValid cap r) where
    read_refines :
        (n : ℕ)
        → see (contents cap) (read_out (read cap n r)) ≡ read_out (Queue.read n (contents cap r))
    unfolding Queue.read
    read_refines n = elim (dec_lt (len cap r) n) [
      | yes h ↦
          ap (λ o. see (contents cap) (read_out o)) (read_aborts v n h)
          ∙ sym (
              ap
                (λ b.
                  read_out
                    (if b then some (take n (contents cap r), drop n (contents cap r)) else none))
                (leb-false n (length (contents cap r)) (omega (arith, length-contents v))))
      | no h ↦
          let l : n ≤ len cap r = omega arith in
          let t = read_segments-Taken v n l in
          ap (λ o. see (contents cap) (read_out o)) (read_ok v n l)
          ∙ (ap₂ gives (Taken-read v l t) (Taken-left v l t)
              ∙ sym (
                  ap
                    (λ b.
                      read_out (
                        if b
                        then some (take n (contents cap r), drop n (contents cap r))
                        else none))
                    (le→leb n (length (contents cap r)) (omega (arith, length-contents v)))))
    ]

    write_refines :
        (xs : List A)
        → see (contents cap) (written {A = A} (write cap xs r))
          ≡ written {A = A} (Queue.write cap xs (contents cap r))
    unfolding Queue.write space
    write_refines xs = elim (dec_lt (cap - len cap r) (length xs)) [
      | yes h ↦
          ap (λ o. see (contents cap) (written {A = A} o)) (write_aborts v xs h)
          ∙ sym (
              ap (λ b. written (if b then some (contents cap r ++ xs) else none))
                (leb-false (length (contents cap r) + length xs) cap
                  (omega (arith, length-contents v))))
      | no h ↦
          let l : length xs ≤ cap - len cap r = omega arith in
          ap (λ o. see (contents cap) (written {A = A} o)) (write_ok v xs l)
          ∙ (ap (gives []) (write_segments-contents v xs l)
              ∙ sym (
                  ap (λ b. written (if b then some (contents cap r ++ xs) else none))
                    (le→leb (length (contents cap r) + length xs) cap
                      (omega (arith, length-contents v, len-max v)))))
    ]

    -- What `write<true>` keeps of its items.
    abbrev kept : List A → List A
    kept xs = if ltb cap (length xs) then drop (length xs - cap) xs else xs

    length-kept : (xs : List A) → length (kept xs) ≤ cap
    length-kept xs = ground (arith, length-drop (length xs - cap) xs)

    kept_drop : (xs : List A) → kept xs ≡ drop (length xs - cap) xs
    kept_drop xs = elim (dec_lt cap (length xs)) [
      | yes h ↦ ground arith
      | no h ↦ ground (arith, ap (λ k. drop k xs) (let e : length xs - cap ≡ 0 = omega arith in e))
    ]

    over_left :
        (xs : List A)
        → drop (overflow v (length (kept xs))) (contents cap r)
          ≡ drop (length (contents cap r ++ xs) - cap) (contents cap r)
    unfolding space
    over_left xs = elim (dec_lt cap (length xs)) [
      | yes h ↦
          drop_all (overflow v (length (kept xs))) (contents cap r) (
            omega (
              arith,
              length-contents v,
              ap length (kept_drop xs),
              length-drop (length xs - cap) xs,
              len-max v,
            ))
          ∙ sym (
              drop_all (length (contents cap r ++ xs) - cap) (contents cap r)
                (omega (arith, length-contents v, len-max v, length-append (contents cap r) xs)))
      | no h ↦
          ap (λ k. drop k (contents cap r))
            (omega (
              arith,
              length-contents v,
              len-max v,
              length-append (contents cap r) xs,
              ap length (kept_drop xs),
              length-drop (length xs - cap) xs,
            ))
    ]

    over_refines :
        (xs : List A)
        → contents cap (write_over cap xs r) ≡ Queue.write_over cap xs (contents cap r)
    unfolding Queue.write_over write_over
    over_refines xs =
        over-contents v (kept xs) (length-kept xs)
        ∙ (ap₂ ◌++◌ (over_left xs) (
              kept_drop xs
              ∙ ap (λ k. drop k xs)
                  (omega (arith, length-append (contents cap r) xs, length-contents v, len-max v)))
            ∙ sym (drop-append (length (contents cap r ++ xs) - cap) (contents cap r) xs))

    -- No operation tells a valid ring from the queue of its items.
    pub step_refines :
        (op : Op A) → see (contents cap) (ring_step cap op r) ≡ queue_step cap op (contents cap r)
    unfolding ring_step queue_step
    step_refines (reads n) = read_refines n
    step_refines (writes xs) = write_refines xs
    step_refines (overwrites xs) = ap (gives []) (over_refines xs)

    pub step-IsValid : (op : Op A) → OnResult (IsValid cap) (ring_step cap op r)
    unfolding ring_step write_over space
    step-IsValid (reads n) = elim (dec_lt (len cap r) n) [
      | yes h ↦ subst (λ o. OnResult (IsValid cap) (read_out o)) (sym (read_aborts v n h)) tt
      | no h ↦
          let l : n ≤ len cap r = omega arith in
          subst (λ o. OnResult (IsValid cap) (read_out o)) (sym (read_ok v n l))
            (Taken-IsValid v l (read_segments-Taken v n l))
    ]
    step-IsValid (writes xs) = elim (dec_lt (space cap r) (length xs)) [
      | yes h ↦
          subst (λ o. OnResult (IsValid cap) (written {A = A} o)) (sym (write_aborts v xs h)) tt
      | no h ↦
          subst (λ o. OnResult (IsValid cap) (written {A = A} o))
            (sym (write_ok v xs (omega arith))) (write_segments-IsValid v xs (omega arith))
    ]
    step-IsValid (overwrites xs) = over-IsValid v (kept xs) (length-kept xs)
