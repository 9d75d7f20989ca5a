-- ===== src/Device/Reset/Stopping.antt =====
-- The end of the device by the client: what the two threads must do once `_reset` has shut the socket
-- down and set the error, until the wait of `_reset` is over.
use virtual_usb.Base.{
  ℕ, ◌≡◌, refl, ap, ap₂, sym, subst, ◌∙◌, Bool, true, false, ◌||◌, not, List, [], ◌∷◌, Option, some,
  none, bit_and, ◌==◌, if◌then◌else◌,
}
use virtual_usb.Device.State.{Error, Shared, recv_ended}
use virtual_usb.Device.Reset.{
  reset_enter, reset_waits, reset_finish, thread_exits, read_running_bit, write_running_bit,
}
use virtual_usb.Device.Reset.Threads.{
  reader, writer, client, Place, runs, waits, leaves, gone, System, move, after_enter, Step, enters,
  finishes, reader_exits, writer_exits, returns, Steps, rest, step,
}

-- The socket is one of those that are shut down.
abbrev pub is_shut : Option ℕ → List ℕ → Bool
is_shut none sockets = false
is_shut (some s) [] = false
is_shut (some s) (t ∷ sockets) = if s == t then true else is_shut (some s) sockets

-- The steps that cannot fail to come: `recv` returns 0 on a socket that is shut down, so the read
-- thread leaves its loop; the write thread looks at `_s.err` when it is woken; a thread that has
-- left its loop ends; and the wait of `_reset` ends when both have ended.
pub data Forced (t u : System) : Type 0 where
  end_of_stream :
      t.reader_at ≡ runs
      → is_shut t.shared.socket t.shared.shut_down ≡ true
      → (let (goes_on, s) = reset_enter recv_ended t.shared in
          u ≡ move reader (after_enter goes_on) s t)
      → Forced t u
  sees_error :
      (e : Error)
      → t.writer_at ≡ runs
      → t.shared.err ≡ some e
      → (let (goes_on, s) = reset_enter e t.shared in u ≡ move writer (after_enter goes_on) s t)
      → Forced t u
  reader_ends :
      t.reader_at ≡ leaves
      → u ≡ move reader gone (thread_exits read_running_bit t.shared) t
      → Forced t u
  writer_ends :
      t.writer_at ≡ leaves
      → u ≡ move writer gone (thread_exits write_running_bit t.shared) t
      → Forced t u
  wait_ends :
      t.client_at ≡ waits
      → reset_waits t.shared ≡ false
      → u ≡ move client leaves (reset_finish t.shared) t
      → Forced t u

-- A forced step is one that the system can make.
pub Forced-Step : {t u : System} → Forced t u → Step t u
Forced-Step (end_of_stream a b q) = enters reader recv_ended a q
Forced-Step (sees_error e a b q) = enters writer e a q
Forced-Step (reader_ends a q) = reader_exits a q
Forced-Step (writer_ends a q) = writer_exits a q
Forced-Step (wait_ends a b q) = finishes client a b q

abbrev pub held : Place → Bool
held runs = true
held waits = true
held leaves = true
held gone = false

abbrev pub IsFree : Place → Type 0
IsFree runs = Unit
IsFree waits = ⊥
IsFree leaves = Unit
IsFree gone = Unit

-- The bits of the state: started, reset, and those of the threads that have not ended.
abbrev pub bits : Bool → Bool → ℕ
bits true true = 15
bits true false = 11
bits false true = 13
bits false false = 9

-- Where the client is: in the wait, with the socket shut down; or past it, with all at its end.
abbrev pub AtClient : Place → System → Type 0
AtClient waits t = is_shut t.shared.socket t.shared.shut_down ≡ true
AtClient runs t =
    (t.reader_at ≡ gone)
    × (t.writer_at ≡ gone)
    × (t.shared.socket ≡ none)
    × (t.shared.usbip_socket ≡ none)
AtClient leaves t =
    (t.reader_at ≡ gone)
    × (t.writer_at ≡ gone)
    × (t.shared.socket ≡ none)
    × (t.shared.usbip_socket ≡ none)
AtClient gone t = ⊥

pub record IsStopping (e : Error) (t : System) : Type 0 where
  pub reader_free : IsFree t.reader_at
  pub writer_free : IsFree t.writer_at
  pub state : t.shared.state ≡ bits (held t.reader_at) (held t.writer_at)
  pub err : t.shared.err ≡ some e
  pub at : AtClient t.client_at t

bits-reset : (a b : Bool) → (bit_and (bits a b) 8 == 0) ≡ false
bits-reset true true = refl
bits-reset true false = refl
bits-reset false true = refl
bits-reset false false = refl

bits-waits : (a b : Bool) → not (bit_and (bits a b) 6 == 0) ≡ (a || b)
bits-waits true true = refl
bits-waits true false = refl
bits-waits false true = refl
bits-waits false false = refl

enters_again :
    (a b : Bool) (e : Error) (s : Shared) → s.state ≡ bits a b → reset_enter e s ≡ (false, s)
unfolding reset_enter
enters_again a b e s h = rw (ap (λ n. bit_and n 8 == 0) h ∙ bits-reset a b) refl

pub waits_lem : (a b : Bool) (s : Shared) → s.state ≡ bits a b → reset_waits s ≡ (a || b)
unfolding reset_waits
waits_lem a b s h = ap (λ n. not (bit_and n 6 == 0)) h ∙ bits-waits a b

exits_reader : (b : Bool) → bit_and (bits true b) 253 ≡ bits false b
exits_reader true = refl
exits_reader false = refl

exits_writer : (a : Bool) → bit_and (bits a true) 251 ≡ bits a false
exits_writer true = refl
exits_writer false = refl

not_held : (p : Place) → held p ≡ false → p ≡ gone
not_held runs e = cc
not_held waits e = cc
not_held leaves e = cc
not_held gone e = refl

or_false : (a b : Bool) → (a || b) ≡ false → (a ≡ false) × (b ≡ false)
or_false false b e = (refl, e)
or_false true b e = cc

no_gone : {p q : Place} → p ≡ q → held q ≡ true → p ≡ gone → ⊥
no_gone e h g = cc

-- A step of a thread that has not ended.
still_at :
    (p : Place) (t u : System)
    → ((t.reader_at ≡ gone) × (t.writer_at ≡ gone) → ⊥)
    → u.shared.socket ≡ t.shared.socket
    → u.shared.shut_down ≡ t.shared.shut_down
    → AtClient p t
    → AtClient p u
still_at waits t u n s d h = ap₂ is_shut s d ∙ h
still_at runs t u n s d h = absurd (n (h.0, h.1))
still_at leaves t u n s d h = absurd (n (h.0, h.1))
still_at gone t u n s d h = h

module _ {e : Error} where
  -- `_reset` is not done twice.
  pub enters_lem :
      (t : System) (e' : Error) → IsStopping e t → reset_enter e' t.shared ≡ (false, t.shared)
  enters_lem t e' k = enters_again (held t.reader_at) (held t.writer_at) e' t.shared k.state

  both_gone :
      (t : System)
      → IsStopping e t
      → reset_waits t.shared ≡ false
      → (t.reader_at ≡ gone) × (t.writer_at ≡ gone)
  both_gone t k b =
      let h =
        or_false (held t.reader_at) (held t.writer_at)
          (sym (waits_lem (held t.reader_at) (held t.writer_at) t.shared k.state) ∙ b) in
      (not_held t.reader_at h.0, not_held t.writer_at h.1)

  pub Step-IsStopping : {t u : System} → Step t u → IsStopping e t → IsStopping e u
  unfolding thread_exits
  Step-IsStopping {t} (enters reader e' a q) k =
      subst (IsStopping e)
        (sym (q ∙ ap (λ r. move reader (after_enter r.0) r.1 t) (enters_lem t e' k)))
        (record {
          reader_free = tt;
          writer_free = k.writer_free;
          state = k.state ∙ ap (λ p. bits (held p) (held t.writer_at)) a;
          err = k.err;
          at =
              still_at t.client_at t (move reader leaves t.shared t) (λ g. no_gone a refl g.0) refl
                refl k.at;
        })
  Step-IsStopping {t} (enters writer e' a q) k =
      subst (IsStopping e)
        (sym (q ∙ ap (λ r. move writer (after_enter r.0) r.1 t) (enters_lem t e' k)))
        (record {
          reader_free = k.reader_free;
          writer_free = tt;
          state = k.state ∙ ap (λ p. bits (held t.reader_at) (held p)) a;
          err = k.err;
          at =
              still_at t.client_at t (move writer leaves t.shared t) (λ g. no_gone a refl g.1) refl
                refl k.at;
        })
  Step-IsStopping {t} (enters client e' a q) k =
      subst (IsStopping e)
        (sym (q ∙ ap (λ r. move client (after_enter r.0) r.1 t) (enters_lem t e' k)))
        (record {
          reader_free = k.reader_free;
          writer_free = k.writer_free;
          state = k.state;
          err = k.err;
          at = subst (λ p. AtClient p t) a k.at;
        })
  Step-IsStopping {t} (finishes reader a b q) k = absurd (subst IsFree a k.reader_free)
  Step-IsStopping {t} (finishes writer a b q) k = absurd (subst IsFree a k.writer_free)
  Step-IsStopping {t} (finishes client a b q) k =
      let g = both_gone t k b in
      subst (IsStopping e) (sym q) (record {
        reader_free = k.reader_free;
        writer_free = k.writer_free;
        state = k.state;
        err = k.err;
        at = (g.0, g.1, refl, refl);
      })
  Step-IsStopping {t} (reader_exits a q) k = subst (IsStopping e) (sym q) (record {
    reader_free = tt;
    writer_free = k.writer_free;
    state =
        ap (λ n. bit_and n 253) (k.state ∙ ap (λ p. bits (held p) (held t.writer_at)) a)
        ∙ exits_reader (held t.writer_at);
    err = k.err;
    at =
        still_at t.client_at t (move reader gone (thread_exits read_running_bit t.shared) t)
          (λ g. no_gone a refl g.0) refl refl k.at;
  })
  Step-IsStopping {t} (writer_exits a q) k = subst (IsStopping e) (sym q) (record {
    reader_free = k.reader_free;
    writer_free = tt;
    state =
        ap (λ n. bit_and n 251) (k.state ∙ ap (λ p. bits (held t.reader_at) (held p)) a)
        ∙ exits_writer (held t.reader_at);
    err = k.err;
    at =
        still_at t.client_at t (move writer gone (thread_exits write_running_bit t.shared) t)
          (λ g. no_gone a refl g.1) refl refl k.at;
  })
  Step-IsStopping {t} (returns a q) k = subst (IsStopping e) (sym q) (record {
    reader_free = k.reader_free;
    writer_free = k.writer_free;
    state = k.state;
    err = k.err;
    at = subst (λ p. AtClient p t) a k.at;
  })

  pub Steps-IsStopping : {t u : System} → Steps t u → IsStopping e t → IsStopping e u
  Steps-IsStopping rest k = k
  Steps-IsStopping (step r s) k = Step-IsStopping s (Steps-IsStopping r k)
