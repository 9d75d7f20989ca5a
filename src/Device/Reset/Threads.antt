-- ===== src/Device/Reset/Threads.antt =====
-- The read thread, the write thread and the client as they end the device.
use virtual_usb.Base.{
  ℕ, ◌/◌, ◌%◌, ◌≡◌, ◌≢◌, refl, ap, sym, subst, ◌∙◌, Bool, true, false, Option, arith, ==_false,
  bit_and,
}
use virtual_usb.Base.Bits.{bit_and_mask, bit_and_step, bit_or_step}
use virtual_usb.Device.State.{Error, Shared}
use virtual_usb.Device.Reset.{
  reset_enter, reset_waits, reset_finish, thread_exits, threads_start, read_running_bit,
  write_running_bit, reset_bit,
}

pub data Thread : Type 0 where
  reader writer client : Thread

-- Where a thread is: before a call of `_reset`, waiting in it, behind it, or at its end.
pub data Place : Type 0 where
  runs waits leaves gone : Place

pub record System : Type 0 where
  pub shared : Shared
  pub reader_at : Place
  pub writer_at : Place
  pub client_at : Place

abbrev pub place : Thread → System → Place
place reader t = t.reader_at
place writer t = t.writer_at
place client t = t.client_at

abbrev pub move : Thread → Place → Shared → System → System
move reader p s t = record t { shared = s; reader_at = p }
move writer p s t = record t { shared = s; writer_at = p }
move client p s t = record t { shared = s; client_at = p }

-- Where the first part of `_reset` leaves its caller.
abbrev pub after_enter : Bool → Place
after_enter true = waits
after_enter false = leaves

-- One critical section of one of them: a call of `_reset` with an error, the end of the wait, and
-- the end of a thread. The client may call `_reset` again.
pub data Step (t u : System) : Type 0 where
  enters :
      (who : Thread) (e : Error)
      → place who t ≡ runs
      → (let (goes_on, s) = reset_enter e t.shared in u ≡ move who (after_enter goes_on) s t)
      → Step t u
  finishes :
      (who : Thread)
      → place who t ≡ waits
      → reset_waits t.shared ≡ false
      → u ≡ move who leaves (reset_finish t.shared) t
      → Step t u
  reader_exits :
      t.reader_at ≡ leaves
      → u ≡ move reader gone (thread_exits read_running_bit t.shared) t
      → Step t u
  writer_exits :
      t.writer_at ≡ leaves
      → u ≡ move writer gone (thread_exits write_running_bit t.shared) t
      → Step t u
  returns : t.client_at ≡ leaves → u ≡ move client runs t.shared t → Step t u

pub data Steps (t : System) : System → Type 0 where
  rest : Steps t t
  step : {u v : System} → Steps t u → Step u v → Steps t v

-- The read thread waits in `_reset`, its own bit is set, and the socket is as it was.
pub record IsStuck (socket : Option ℕ) (t : System) : Type 0 where
  pub at : t.reader_at ≡ waits
  pub bit : t.shared.state / 2 % 2 ≡ 1
  pub kept : t.shared.socket ≡ socket

waits-bit : (s : Shared) → s.state / 2 % 2 ≡ 1 → reset_waits s ≡ true
unfolding reset_waits
waits-bit s h =
    let nonzero : bit_and s.state 6 ≢ 0 =
      λ z. omega (arith, z, h, bit_and_step s.state 6, bit_and_mask 2 (s.state / 2)) in
    rw (==_false (bit_and s.state 6) 0 nonzero) refl

enter-bit : (e : Error) (s : Shared) → (reset_enter e s).1.state / 2 % 2 ≡ s.state / 2 % 2
unfolding reset_enter
enter-bit e s = ground (arith, bit_or_step s.state 8, bit_or_step (s.state / 2) 4)

writer-bit : (s : Shared) → (thread_exits write_running_bit s).state / 2 % 2 ≡ s.state / 2 % 2
unfolding thread_exits
writer-bit s = omega (arith, bit_and_step s.state 251, bit_and_step (s.state / 2) 125)

no_runs : waits ≢ runs
no_runs e = cc

no_leaves : waits ≢ leaves
no_leaves e = cc

no_false : true ≢ false
no_false e = cc

enter-socket : (e : Error) (s : Shared) → (reset_enter e s).1.socket ≡ s.socket
unfolding reset_enter
enter-socket e s = ground arith

module _ {socket : Option ℕ} where
  -- The others may call `_reset`, and the write thread may end; nobody gets past the wait.
  Step-IsStuck : {t u : System} → Step t u → IsStuck socket t → IsStuck socket u
  unfolding thread_exits
  Step-IsStuck {t} (enters reader e a q) k = absurd (no_runs (sym k.at ∙ a))
  Step-IsStuck {t} (enters writer e a q) k = subst (IsStuck socket) (sym q) (record {
    at = k.at;
    bit = enter-bit e t.shared ∙ k.bit;
    kept = enter-socket e t.shared ∙ k.kept;
  })
  Step-IsStuck {t} (enters client e a q) k = subst (IsStuck socket) (sym q) (record {
    at = k.at;
    bit = enter-bit e t.shared ∙ k.bit;
    kept = enter-socket e t.shared ∙ k.kept;
  })
  Step-IsStuck {t} (finishes who a b q) k = absurd (no_false (sym (waits-bit t.shared k.bit) ∙ b))
  Step-IsStuck {t} (reader_exits a q) k = absurd (no_leaves (sym k.at ∙ a))
  Step-IsStuck {t} (writer_exits a q) k =
      subst (IsStuck socket) (sym q)
        (record { at = k.at; bit = writer-bit t.shared ∙ k.bit; kept = k.kept })
  Step-IsStuck {t} (returns a q) k =
      subst (IsStuck socket) (sym q) (record { at = k.at; bit = k.bit; kept = k.kept })

  Steps-IsStuck : {t u : System} → Steps t u → IsStuck socket t → IsStuck socket u
  Steps-IsStuck rest k = k
  Steps-IsStuck (step r s) k = Step-IsStuck s (Steps-IsStuck r k)

enters_first : (e : Error) (s : Shared) → bit_and s.state 8 ≡ 0 → (reset_enter e s).0 ≡ true
unfolding reset_enter
enters_first e s h = ground arith

-- When the read thread, whose bit is set, calls _reset before anyone else has, then after any
-- further steps of the write thread, the client and itself it still waits in _reset, and the field
-- of the socket is as it was.
pub reader_never_ends :
    (t : System) {v : System} (e : Error)
    → bit_and t.shared.state read_running_bit ≡ read_running_bit
    → bit_and t.shared.state reset_bit ≡ 0
    → (let (goes_on, s) = reset_enter e t.shared in Steps (move reader (after_enter goes_on) s t) v)
    → (v.reader_at ≡ waits) × (v.shared.socket ≡ t.shared.socket)
reader_never_ends t e b c r =
    let set : t.shared.state / 2 % 2 ≡ 1 =
      omega (arith, bit_and_step t.shared.state 2, bit_and_mask 1 (t.shared.state / 2)) in
    let k = Steps-IsStuck r (record {
      at = ap after_enter (enters_first e t.shared c);
      bit = enter-bit e t.shared ∙ set;
      kept = enter-socket e t.shared;
    }) in
    (k.at, k.kept)

-- The client ends the device while both threads run.
abbrev pub running : Shared → System
running s = record {
  shared = threads_start (record s { state = 0 });
  reader_at = runs;
  writer_at = runs;
  client_at = runs;
}
