-- ===== src/RingBuffer/Runs/Whole.antt =====
-- Whole sequences of operations.
use virtual_usb.Base.{
  ℕ, subst, ◌+◌, ◌<◌, ◌≡◌, refl, ap, sym, ◌∙◌, List, [], ◌∷◌, length, arith, Option, some, none,
}
use mathlib.Core.Option
use virtual_usb.RingBuffer.{empty, Ring, len, space}
use virtual_usb.RingBuffer.Offsets.{IsValid, len-max}
use virtual_usb.RingBuffer.Refine.{contents, length-contents}
use virtual_usb.RingBuffer.Runs.{
  Op, Result, aborts, gives, see, OnResult, ring_step, queue_step, run, then_run,
}
use virtual_usb.RingBuffer.Runs.Steps.{step_refines, step-IsValid}

module _ {A : Type 0} where
  -- The ring as it is made.
  pub empty-IsValid :
      (cap : ℕ) (buf : List A) → 0 < cap → length buf ≡ cap → IsValid cap (empty buf)
  empty-IsValid cap buf h e = record { roff_in = h; woff_in = h; size = e; flag = λ _. refl }

  module _ (cap : ℕ) where
    abbrev pub as_queue : List (List A) × Option (Ring A) → List (List A) × Option (List A)
    as_queue p = (p.0, Option.map (contents cap) p.1)

    then_run-see :
        (go : Ring A → List (List A) × Option (Ring A))
        (go' : List A → List (List A) × Option (List A))
        → ((r : Ring A) → IsValid cap r → go' (contents cap r) ≡ as_queue (go r))
        → (o : Result A (Ring A)) → OnResult (IsValid cap) o
        → then_run (queue_step cap) (see (contents cap) o) go'
          ≡ as_queue (then_run (ring_step cap) o go)
    then_run-see go go' h aborts v = refl
    then_run-see go go' h (gives xs s) v = ap (λ p. (xs ∷ p.0, p.1)) (h s v)

    -- From a valid ring of Cap items, any sequence of calls of read, write and writeOver reads the
    -- same items, stops at the same call if one aborts, and leaves the same items as the bounded
    -- queue of the items of the ring: a read of more than there is and a write of more than there
    -- is space for abort, and writeOver keeps the last Cap items of the queue and the new items
    -- together.
    pub run_refines :
        (ops : List (Op A)) (r : Ring A)
        → IsValid cap r
        → run (queue_step cap) ops (contents cap r) ≡ as_queue (run (ring_step cap) ops r)
    run_refines [] r v = refl
    run_refines (op ∷ ops) r v =
        ap (λ o. then_run (queue_step cap) o (run (queue_step cap) ops)) (sym (step_refines v op))
        ∙ then_run-see (run (ring_step cap) ops) (run (queue_step cap) ops) (run_refines ops)
            (ring_step cap op r) (step-IsValid v op)

    abbrev OnEnd : (Ring A → Type 0) → Option (Ring A) → Type 0
    OnEnd P none = Unit
    OnEnd P (some r) = P r

    then_run-OnEnd :
        (P : Ring A → Type 0) (go : Ring A → List (List A) × Option (Ring A))
        → ((r : Ring A) → IsValid cap r → OnEnd P (go r).1)
        → (o : Result A (Ring A)) → OnResult (IsValid cap) o
        → OnEnd P (then_run (ring_step cap) o go).1
    then_run-OnEnd P go h aborts v = tt
    then_run-OnEnd P go h (gives xs s) v = h s v

    run-IsValid :
        (ops : List (Op A)) (r : Ring A)
        → IsValid cap r
        → OnEnd (IsValid cap) (run (ring_step cap) ops r).1
    run-IsValid [] r v = v
    run-IsValid (op ∷ ops) r v =
        then_run-OnEnd (IsValid cap) (run (ring_step cap) ops) (run-IsValid ops)
          (ring_step cap op r) (step-IsValid v op)

    -- After any sequence of calls that does not abort, from a valid ring of Cap items, both offsets
    -- are below Cap, the buffer has Cap items, len and space add up to Cap, and len is the number
    -- of the items of the ring.
    pub run_bounds :
        (ops : List (Op A)) (r r' : Ring A)
        → IsValid cap r
        → (run (ring_step cap) ops r).1 ≡ some r'
        → (r'.roff < cap)
          × (r'.woff < cap)
          × (length r'.buf ≡ cap)
          × (len cap r' + space cap r' ≡ cap)
          × (length (contents cap r') ≡ len cap r')
    unfolding space
    run_bounds ops r r' v e =
        let v' : IsValid cap r' = subst (OnEnd (IsValid cap)) e (run-IsValid ops r v) in
        (v'.roff_in, v'.woff_in, v'.size, omega (arith, len-max v'), length-contents v')
