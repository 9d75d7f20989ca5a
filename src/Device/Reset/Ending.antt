-- ===== src/Device/Reset/Ending.antt =====
-- The wait of `_reset` ends when the client is the first to call it.
use virtual_usb.Base.{
  ℕ, zero, suc, ◌+◌, ◌<◌, ◌≡◌, ◌≢◌, refl, ap, ap₂, sym, subst, ◌∙◌, true, ◌||◌, List, [], ◌∷◌, ◌++◌,
  Option, some, none, arith, ◌==◌, ==_iff, if◌then◌else◌, Bool-cases, inl, inr,
}
use virtual_usb.Device.State.{Error, Shared, recv_ended}
use virtual_usb.Device.Reset.{reset_enter, shut}
use virtual_usb.Device.Reset.Threads.{
  reader, writer, client, Place, runs, waits, leaves, gone, System, move, after_enter, Steps,
  running,
}
use virtual_usb.Device.Reset.Stopping.{
  is_shut, Forced, end_of_stream, sees_error, reader_ends, writer_ends, wait_ends, Forced-Step,
  IsStopping, IsFree, AtClient, held, waits_lem, enters_lem, Step-IsStopping, Steps-IsStopping,
}

-- The call of the client is over, with both threads at their end, the sockets closed and the error kept.
pub record IsOver (e : Error) (t : System) : Type 0 where
  pub back : t.client_at ≢ waits
  pub reader : t.reader_at ≡ gone
  pub writer : t.writer_at ≡ gone
  pub socket : t.shared.socket ≡ none
  pub usbip_socket : t.shared.usbip_socket ≡ none
  pub err : t.shared.err ≡ some e

-- However the forced steps are ordered, they are never stuck and come to the end.
pub data Inevitable (e : Error) : System → Type 0 where
  over : {t : System} → IsOver e t → Inevitable e t
  later :
      {t : System} (u : System)
      → Forced t u
      → ((v : System) → Forced t v → Inevitable e v)
      → Inevitable e t

-- The steps that are left.
abbrev weight : Place → ℕ
weight runs = 2
weight waits = 1
weight leaves = 1
weight gone = 0

abbrev client_weight : Place → ℕ
client_weight waits = 1
client_weight runs = 0
client_weight leaves = 0
client_weight gone = 0

abbrev rank : System → ℕ
rank t = weight t.reader_at + weight t.writer_at + client_weight t.client_at

no_waits : {p q : Place} → p ≡ q → (q ≡ waits → ⊥) → p ≢ waits
no_waits e h g = h (sym e ∙ g)

module _ {e : Error} where
  Forced-rank : {t u : System} → Forced t u → IsStopping e t → rank u < rank t
  Forced-rank {t} (end_of_stream a b q) k =
      let p = q ∙ ap (λ r. move reader (after_enter r.0) r.1 t) (enters_lem t recv_ended k) in
      omega (arith, ap rank p, ap weight a)
  Forced-rank {t} (sees_error e' a b q) k =
      let p = q ∙ ap (λ r. move writer (after_enter r.0) r.1 t) (enters_lem t e' k) in
      omega (arith, ap rank p, ap weight a)
  Forced-rank {t} (reader_ends a q) k = omega (arith, ap rank q, ap weight a)
  Forced-rank {t} (writer_ends a q) k = omega (arith, ap rank q, ap weight a)
  Forced-rank {t} (wait_ends a b q) k = omega (arith, ap rank q, ap client_weight a)

  progress :
      (t : System) (p q : Place)
      → IsStopping e t
      → t.client_at ≡ waits
      → t.reader_at ≡ p
      → t.writer_at ≡ q
      → (u : System) × Forced t u
  progress t runs q k c a b = (_, end_of_stream a (subst (λ x. AtClient x t) c k.at) refl)
  progress t waits q k c a b = absurd (subst IsFree a k.reader_free)
  progress t leaves q k c a b = (_, reader_ends a refl)
  progress t gone runs k c a b = (_, sees_error e b k.err refl)
  progress t gone waits k c a b = absurd (subst IsFree b k.writer_free)
  progress t gone leaves k c a b = (_, writer_ends b refl)
  progress t gone gone k c a b = (
    _,
    wait_ends c
        (waits_lem (held t.reader_at) (held t.writer_at) t.shared k.state
          ∙ ap₂ (λ x y. held x || held y) a b)
        refl,
  )

  Inevitable-place :
      (n : ℕ) (t : System) (p : Place)
      → t.client_at ≡ p
      → rank t < suc n
      → IsStopping e t
      → ((u : System) → rank u < n → IsStopping e u → Inevitable e u)
      → Inevitable e t
  Inevitable-place n t waits c r k f =
      let go = progress t t.reader_at t.writer_at k c refl refl in
      later go.0 go.1
        (λ v w. f v (let h = Forced-rank w k in omega arith) (Step-IsStopping (Forced-Step w) k))
  Inevitable-place n t runs c r k f =
      let h = subst (λ x. AtClient x t) c k.at in
      over (record {
        back = no_waits c (λ g. cc);
        reader = h.0;
        writer = h.1;
        socket = h.2;
        usbip_socket = h.3;
        err = k.err;
      })
  Inevitable-place n t leaves c r k f =
      let h = subst (λ x. AtClient x t) c k.at in
      over (record {
        back = no_waits c (λ g. cc);
        reader = h.0;
        writer = h.1;
        socket = h.2;
        usbip_socket = h.3;
        err = k.err;
      })
  Inevitable-place n t gone c r k f = absurd (subst (λ x. AtClient x t) c k.at)

  Inevitable-rank : (n : ℕ) (t : System) → rank t < n → IsStopping e t → Inevitable e t
  Inevitable-rank zero t r k = absurd (omega arith)
  Inevitable-rank (suc n) t r k = Inevitable-place n t t.client_at refl r k (Inevitable-rank n)

-- A socket that is shut down is among those that are.
is_shut-end : (s : ℕ) (sockets : List ℕ) → is_shut (some s) (sockets ++ (s ∷ [])) ≡ true
is_shut-end s [] = rw ((==_iff s s).1 refl) refl
is_shut-end s (t ∷ sockets) = elim (Bool-cases (s == t)) [
  | inl h ↦ rw h refl
  | inr h ↦ rw h (is_shut-end s sockets)
]

is_shut-append :
    (s : ℕ) (sockets more : List ℕ)
    → is_shut (some s) sockets ≡ true
    → is_shut (some s) (sockets ++ more) ≡ true
is_shut-append s [] more h = cc
is_shut-append s (t ∷ sockets) more h = elim (Bool-cases (s == t)) [
  | inl b ↦ rw b refl
  | inr b ↦ rw b (
      is_shut-append s sockets more
        (ap (λ x. if x then true else is_shut (some s) sockets) (sym b) ∙ h))
]

is_shut-shut :
    (s : ℕ) (o : Option ℕ) (sockets : List ℕ)
    → is_shut (some s) (shut o (shut (some s) sockets)) ≡ true
is_shut-shut s none sockets = is_shut-end s sockets
is_shut-shut s (some t) sockets =
    is_shut-append s (sockets ++ (s ∷ [])) (t ∷ []) (is_shut-end s sockets)

-- The client has called `_reset` while both threads run.
abbrev pub stop_entered : Shared → Error → System
stop_entered s e =
    let (goes_on, s') = reset_enter e (running s).shared in
    move client (after_enter goes_on) s' (running s)

stop_entered-IsStopping :
    (s : Shared) (e : Error) (socket : ℕ) → s.socket ≡ some socket → IsStopping e (stop_entered s e)
unfolding reset_enter
stop_entered-IsStopping s e socket h = record {
  reader_free = tt;
  writer_free = tt;
  state = refl;
  err = refl;
  at =
      subst (λ o. is_shut o (shut s.usbip_socket (shut o s.shut_down)) ≡ true) (sym h)
        (is_shut-shut socket s.usbip_socket s.shut_down);
}

-- When both threads run, the device has a socket and the client is the first to call _reset, then
-- after any steps of the threads and the client, the steps that recv on a socket that is shut down,
-- the error and the ends of the threads bring about come, in whatever order, after finitely many to
-- the end of the wait of the client, with both threads at their end, both sockets closed and the
-- error of the client kept, and before that one of them can always be made.
pub stop_ends :
    (s : Shared) (e : Error) (socket : ℕ) {v : System}
    → s.socket ≡ some socket
    → Steps (stop_entered s e) v
    → Inevitable e v
stop_ends s e socket {v} h r =
    Inevitable-rank (suc (rank v)) v (omega arith)
      (Steps-IsStopping r (stop_entered-IsStopping s e socket h))
