-- ===== src/Device/Socket/Reading.antt =====
-- `_Read`: the bytes arrive in pieces of any size, and calls are interrupted.
use virtual_usb.Base.{
  ℕ, ◌+◌, ◌≤◌, ◌<◌, ◌++◌, ◌≡◌, ◌≢◌, refl, ap, sym, ◌∙◌, List, [], ◌∷◌, arith, lt→ltb, length,
  length-append,
}
use mathlib.Core.List.{append_assoc, append-nil}
use virtual_usb.Device.Socket.{
  Recv, got, recv_fails, done, fails, recv_returned_0, recv_failed, eintr, read_loop, read,
}

-- The events bring just these bytes: each call stores one byte or more, or is interrupted while
-- bytes are missing. `recv` never stores more than it is asked for, so no piece goes beyond them.
pub data Brings : List ℕ → List Recv → Type 0 where
  all : Brings [] []
  piece :
      (b : ℕ) (bs : List ℕ) {more : List ℕ} {rs : List Recv}
      → Brings more rs
      → Brings (b ∷ (bs ++ more)) (got (b ∷ bs) ∷ rs)
  interrupted :
      {b : ℕ} {bs : List ℕ} {rs : List Recv}
      → Brings (b ∷ bs) rs
      → Brings (b ∷ bs) (recv_fails eintr ∷ rs)

-- How the loop goes on once the events are used up.
read_loop-Brings :
    {m : List ℕ} {rs : List Recv} (len : ℕ) (buf : List ℕ) (behind : List Recv)
    → Brings m rs
    → length buf + length m ≤ len
    → read_loop len buf (rs ++ behind) ≡ read_loop len (buf ++ m) behind
unfolding read_loop
read_loop-Brings len buf behind all h = ap (λ l. read_loop len l behind) (sym (append-nil buf))
read_loop-Brings len buf behind (piece b bs {more} {rs} t) h =
    rw (lt→ltb (length buf) len (omega (arith, h))) (
      read_loop-Brings len (buf ++ (b ∷ bs)) behind t
        (omega (arith, length-append buf (b ∷ bs), length-append bs more))
      ∙ ap (λ l. read_loop len l behind) (append_assoc buf (b ∷ bs) more))
read_loop-Brings len buf behind (interrupted {b} {bs} {rs} t) h =
    rw (lt→ltb (length buf) len (omega arith)) (read_loop-Brings len buf behind t h)

read_loop_full :
    (len : ℕ) (buf : List ℕ) (rs : List Recv)
    → length buf ≡ len
    → read_loop len buf rs ≡ (done buf, rs)
unfolding read_loop
read_loop_full len buf [] h = ground arith
read_loop_full len buf (got [] ∷ rs) h = ground arith
read_loop_full len buf (got (b ∷ bs) ∷ rs) h = ground arith
read_loop_full len buf (recv_fails errno ∷ rs) h = ground arith

-- When the calls of recv bring just as many bytes as asked for, in pieces of any size and with any
-- interruptions, _Read returns them in order and makes no call more.
pub read-Brings :
    {m : List ℕ} {rs : List Recv} (behind : List Recv)
    → Brings m rs
    → read (length m) (rs ++ behind) ≡ (done m, behind)
unfolding read
read-Brings {m} {rs} behind t =
    read_loop-Brings (length m) [] behind t (omega arith) ∙ read_loop_full (length m) m behind refl

-- When recv brings fewer bytes than asked for, with any interruptions, and then returns 0 or fails
-- with an errno other than EINTR, _Read throws the exception of that case and makes no call more.
pub read_short :
    {m : List ℕ} {rs : List Recv} (len errno : ℕ) (behind : List Recv)
    → Brings m rs
    → length m < len
    → errno ≢ eintr
    → (read len (rs ++ (got [] ∷ behind)) ≡ (fails recv_returned_0, behind))
      × (read len (rs ++ (recv_fails errno ∷ behind)) ≡ (fails (recv_failed errno), behind))
unfolding read read_loop
read_short {m} {rs} len errno behind t h ne = (
  read_loop-Brings len [] (got [] ∷ behind) t (omega arith) ∙ ground arith,
  read_loop-Brings len [] (recv_fails errno ∷ behind) t (omega arith) ∙ ground arith,
)
