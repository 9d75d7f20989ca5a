-- ===== src/Device/Public/Errors.antt =====
-- The first error of a call stays: every later call ends with it.
use virtual_usb.Base.{
  ℕ, ◌/◌, ◌==◌, ◌≡◌, ◌≢◌, refl, ap, sym, subst, ◌∙◌, arith, Bool, true, false, List, [], ◌∷◌,
  Option, none, some, if◌then◌else◌, bit_and, bit_or, ==_false, ltb, Bool-cases, inl, inr,
}
use virtual_usb.Base.Bits.{bit_and_step, bit_or_step}
use virtual_usb.Usb.Endpoint
use virtual_usb.Device.State.{
  Cmd, Error, Info, Shared, Result, ok, throws, aborts, undefined, stopped, ◌>>◌,
}
use virtual_usb.Device.Transfer.{rethrow, write_item, write_body}
use virtual_usb.Device.Client.{read_loop, read_now}
use virtual_usb.Device.Reset.{reset_enter, reset_finish, reset_bit}
use virtual_usb.Device.Public.{reset, stop, after_throw, caught, read, write, err}
use virtual_usb.Device.Public.Keeps.{write_body-Keeps, read_now-state}

pub data Call : Type 0 where
  reads stops : Call
  writes : ℕ → Option (List ℕ) → ℕ → Call

abbrev pub thrown : {A : Type 0} → Result A → Option Error
thrown (throws e) = some e
thrown (ok a) = none
thrown aborts = none
thrown undefined = none

-- Reset, with the error.
abbrev pub IsReset : Error → Shared → Type 0
IsReset e s = ((bit_and s.state reset_bit == 0) ≡ false) × (s.err ≡ some e)

module _ (wakes : Shared → Shared) (info : Info) (little : Bool) where
  -- What a call ends with, if it throws, and for `stop` what it leaves.
  abbrev pub perform : Call → Shared → Option Error × Shared
  perform reads s = let o = read wakes info little s in (thrown o.0, o.1)
  perform (writes ep p len) s = let o = write wakes info little ep p len s in (thrown o.0, o.1)
  perform stops s = (some stopped, stop wakes s)

  abbrev pub performs : List Call → Shared → Shared
  performs [] s = s
  performs (call ∷ calls) s = performs calls (perform call s).1

some_inj : {x y : Error} → some x ≡ some y → x ≡ y
some_inj e = cc

-- The wait of `_reset` keeps the error, and the bit by which it is not done again.
abbrev pub Waits : (Shared → Shared) → Type 0
Waits wakes =
    (s : Shared)
    → ((wakes s).err ≡ s.err) × (bit_and (wakes s).state reset_bit ≡ bit_and s.state reset_bit)

set_reset : (x : ℕ) → (bit_and (bit_or x 8) 8 == 0) ≡ false
set_reset x =
    let nonzero : bit_and (bit_or x 8) 8 ≢ 0 = λ z. omega (
      arith,
      z,
      bit_or_step x 8,
      bit_or_step (x / 2) 4,
      bit_or_step (x / 2 / 2) 2,
      bit_or_step (x / 2 / 2 / 2) 1,
      bit_and_step (bit_or x 8) 8,
      bit_and_step (bit_or x 8 / 2) 4,
      bit_and_step (bit_or x 8 / 2 / 2) 2,
      bit_and_step (bit_or x 8 / 2 / 2 / 2) 1,
    ) in
    ==_false (bit_and (bit_or x 8) 8) 0 nonzero

module _ (wakes : Shared → Shared) (h : Waits wakes) where
  waited-IsReset :
      (b : Bool) (e : Error) (s : Shared)
      → IsReset e s
      → IsReset e (reset_finish (if b then wakes s else s))
  waited-IsReset false e s k = k
  waited-IsReset true e s k = (ap (λ n. n == 0) (h s).1 ∙ k.0, (h s).0 ∙ k.1)

  reset-IsReset :
      (e : Error) (s : Shared) → bit_and s.state reset_bit ≡ 0 → IsReset e (reset wakes e s)
  unfolding reset reset_enter
  reset-IsReset e s k = rw k (waited-IsReset _ e _ (set_reset s.state, refl))

  -- A reset device is left as it is.
  reset_again : (e e' : Error) (s : Shared) → IsReset e s → reset wakes e' s ≡ s
  unfolding reset reset_enter
  reset_again e e' s k = rw k.0 refl

  module _ (info : Info) (q : info.throw_on_err ≡ true) where
    -- The end of a call that has thrown `e`.
    abbrev Ended : {A : Type 0} → Result A × Shared → Type 0
    Ended o = (e : Error) → thrown o.0 ≡ some e → IsReset e o.1

    after_throw_lem :
        {A : Type 0} (a : A) (e : Error) (s : Shared)
        → IsReset e s
        → after_throw wakes info a s ≡ (throws e, s)
    after_throw_lem a e s k = rw (q, k.1) refl

    caught-Ended :
        {A : Type 0} (a : A) (o : Result A × Shared)
        → bit_and o.1.state reset_bit ≡ 0
        → Ended (caught wakes info a o)
    caught-Ended a (ok b, s) k e t = cc
    caught-Ended a (throws x, s) k e t =
        let p = after_throw_lem a x (reset wakes x s) (reset-IsReset x s k) in
        subst (λ y. IsReset y (reset wakes x s)) (some_inj (sym (ap (λ o. thrown o.0) p) ∙ t))
          (reset-IsReset x s k)
    caught-Ended a (aborts, s) k e t = cc
    caught-Ended a (undefined, s) k e t = cc

    module _ (little : Bool) where
      perform-IsReset :
          (call : Call) (s : Shared) (e : Error)
          → bit_and s.state reset_bit ≡ 0
          → (perform wakes info little call s).0 ≡ some e
          → IsReset e (perform wakes info little call s).1
      unfolding read write stop
      perform-IsReset reads s e b t =
          caught-Ended none (read_now little info s)
            (ap (λ n. bit_and n reset_bit) (read_now-state little info s) ∙ b) e t
      perform-IsReset (writes ep p len) s e b t =
          caught-Ended tt (write_body little ep p len s)
            (ap (λ l. bit_and l.0 reset_bit) (write_body-Keeps little ep p len s) ∙ b) e t
      perform-IsReset stops s e b t =
          subst (λ y. IsReset y (reset wakes stopped s)) (some_inj t) (reset-IsReset stopped s b)

      caught_again :
          {A : Type 0} (a : A) (e : Error) (s : Shared)
          → IsReset e s
          → caught wakes info a (throws e, s) ≡ (throws e, s)
      caught_again a e s k =
          ap (after_throw wakes info a) (reset_again e e s k) ∙ after_throw_lem a e s k

      read_loop_ends :
          (cmds : List Cmd) (e : Error) (s : Shared)
          → s.err ≡ some e
          → read_loop little info cmds s ≡ (throws e, s)
      unfolding read_loop
      read_loop_ends [] e s k = rw k refl
      read_loop_ends (cmd ∷ cmds) e s k = rw k refl

      read_ends : (e : Error) (s : Shared) → IsReset e s → read wakes info little s ≡ (throws e, s)
      unfolding read read_now
      read_ends e s k =
          ap (caught wakes info none) (read_loop_ends s.cmds e s k.1) ∙ caught_again none e s k

      attempt_stays :
          (idx : ℕ) (p : Option (List ℕ)) (len : ℕ) (e : Error) (s : Shared)
          → IsReset e s
          → (x : Option Error) → x ≡ some e
          → (caught wakes info tt ((rethrow x >> write_item little idx p len) s)).1 ≡ s
      attempt_stays idx p len e s k none h = cc
      attempt_stays idx p len e s k (some x) h = reset_again e x s k

      write_stays :
          (ep : ℕ) (p : Option (List ℕ)) (len : ℕ) (e : Error) (s : Shared)
          → IsReset e s
          → (write wakes info little ep p len s).1 ≡ s
      unfolding write write_body
      write_stays ep p len e s k =
          elim (Bool-cases (bit_and ep Endpoint.direction_mask == Endpoint.direction_in)) [
            | inr bad ↦ rw bad refl
            | inl dir ↦
                rw dir
                  (elim (Bool-cases (ltb (bit_and ep Endpoint.index_mask) Endpoint.max_count)) [
                    | inr bad ↦ rw bad refl
                    | inl small ↦
                        rw small
                          (attempt_stays (bit_and ep Endpoint.index_mask) p len e s k s.err k.1)
                  ])
          ]

      performs_stays :
          (calls : List Call) (e : Error) (s : Shared)
          → IsReset e s
          → performs wakes info little calls s ≡ s
      unfolding stop
      performs_stays [] e s k = refl
      performs_stays (reads ∷ calls) e s k =
          ap (λ o. performs wakes info little calls o.1) (read_ends e s k)
          ∙ performs_stays calls e s k
      performs_stays (writes ep p len ∷ calls) e s k =
          ap (performs wakes info little calls) (write_stays ep p len e s k)
          ∙ performs_stays calls e s k
      performs_stays (stops ∷ calls) e s k =
          ap (performs wakes info little calls) (reset_again e stopped s k)
          ∙ performs_stays calls e s k

      -- When errors are thrown to the client and the wait of _reset keeps the error and the reset
      -- bit, a read with a timeout of zero or a write that throws on a device that is not reset, or
      -- a stop, leaves its error as that of the device, stop leaving ErrStopped; after any further
      -- reads, writes and stops the state is the same, and a read throws that error again.
      pub error_stays :
          (call : Call) (calls : List Call) (s : Shared) (e : Error)
          → bit_and s.state reset_bit ≡ 0
          → (perform wakes info little call s).0 ≡ some e
          → let s' = (perform wakes info little call s).1 in
            (err s' ≡ some e)
            × (performs wakes info little calls s' ≡ s')
            × ((read wakes info little s').0 ≡ throws e)
      unfolding err
      error_stays call calls s e b t =
          let k = perform-IsReset call s e b t in
          (
            k.1,
            performs_stays calls e (perform wakes info little call s).1 k,
            ap (λ o. o.0) (read_ends e (perform wakes info little call s).1 k),
          )
