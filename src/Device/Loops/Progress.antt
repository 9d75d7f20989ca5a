-- ===== src/Device/Loops/Progress.antt =====
-- The loop of `_readThread` at the end of the stream: `_reset` shuts the socket down, and a call of
-- `recv` then returns 0.
use virtual_usb.Base.{
  ℕ, zero, suc, ◌^◌, ◌≤◌, ◌<◌, ◌≡◌, refl, Bool, true, false, List, [], ◌∷◌, ◌++◌, length, ltb, leb,
  ◌==◌, lt→ltb, if◌then◌else◌, arith,
}
use virtual_usb.Endian.{hfb_u32}
use virtual_usb.Usbip.{HeaderBasic, HeaderCmdSubmit, Header, load_header}
use virtual_usb.Device.State.{Cmd, Shared}
use virtual_usb.Device.Socket.{
  Recv, got, recv_fails, Io, done, fails, blocks, Reader, proceed, pure, throw, read_loop, read,
  read_cmd, read_rest, read_payload, payload_size, host_rest, host_base, eintr, bad_length,
  header_size, recv_returned_0, recv_failed, unknown_command, host_submit,
}
use virtual_usb.Device.Loops.{Stop, waits, leaves, unfinished, push_cmd, after_read, read_thread}

-- A thread has left its loop with an exception.
abbrev pub Leaves : Stop → Type 0
Leaves waits = ⊥
Leaves (leaves e) = Unit
Leaves unfinished = ⊥

-- After the events `before` comes a call that returns 0; what comes later is `later`.
module _ (later : List Recv) where
  abbrev pub ending : List Recv → List Recv
  ending before = before ++ (got [] ∷ later)

  -- A reader that succeeds has not used the end, and fewer than `k` events are before it.
  abbrev Nears : {A : Type 0} → ℕ → Io A × List Recv → Type 0
  Nears k (done a, rs) = (before : List Recv) × (rs ≡ ending before) × (length before < k)
  Nears k (fails e, rs) = Unit
  Nears k (blocks, rs) = ⊥

  Nears-mono : {A : Type 0} (k m : ℕ) (r : Io A × List Recv) → k ≤ m → Nears k r → Nears m r
  Nears-mono k m (done a, rs) h b = (b.0, b.1, omega (arith, h, b.2))
  Nears-mono k m (fails e, rs) h b = tt
  Nears-mono k m (blocks, rs) h b = b

  Nears-if :
      {A : Type 0} (k : ℕ) (t : Bool) (x y : Io A × List Recv)
      → Nears k x
      → Nears k y
      → Nears k (if t then x else y)
  Nears-if k true x y h l = h
  Nears-if k false x y h l = l

  abbrev Keeps : {A : Type 0} → Reader A → Type 0
  Keeps m = (before : List Recv) → Nears (suc (length before)) (m (ending before))

  Nears-proceed :
      {A B : Type 0} (k : ℕ) (f : A → Reader B) (r : Io A × List Recv)
      → ((a : A) → Keeps (f a))
      → Nears k r
      → Nears k (proceed f r)
  Nears-proceed k f (done a, rs) h b =
      rw b.1 (Nears-mono (suc (length b.0)) k (f a (ending b.0)) b.2 (h a b.0))
  Nears-proceed k f (fails e, rs) h b = tt
  Nears-proceed k f (blocks, rs) h b = b

  here :
      {A : Type 0} (a : A) (before : List Recv)
      → Nears (suc (length before)) (done a, ending before)
  here a before = (before, refl, omega arith)

  read_loop-Keeps : (len : ℕ) (buf : List ℕ) → Keeps (read_loop len buf)
  unfolding read_loop
  read_loop-Keeps len buf [] =
      Nears-if 1 (ltb (length buf) len) (fails recv_returned_0, later) (done buf, ending []) tt
        (here buf [])
  read_loop-Keeps len buf (got [] ∷ rs) =
      Nears-if (suc (suc (length rs))) (ltb (length buf) len) (fails recv_returned_0, ending rs)
        (done buf, ending (got [] ∷ rs)) tt (here buf (got [] ∷ rs))
  read_loop-Keeps len buf (got (b ∷ bs) ∷ rs) =
      Nears-if (suc (suc (length rs))) (ltb (length buf) len)
        (read_loop len (buf ++ (b ∷ bs)) (ending rs)) (done buf, ending (got (b ∷ bs) ∷ rs))
        (Nears-mono (suc (length rs)) (suc (suc (length rs)))
          (read_loop len (buf ++ (b ∷ bs)) (ending rs)) (omega arith)
          (read_loop-Keeps len (buf ++ (b ∷ bs)) rs))
        (here buf (got (b ∷ bs) ∷ rs))
  read_loop-Keeps len buf (recv_fails errno ∷ rs) =
      Nears-if (suc (suc (length rs))) (ltb (length buf) len)
        (if errno == eintr
          then read_loop len buf (ending rs)
          else (fails (recv_failed errno), ending rs))
        (done buf, ending (recv_fails errno ∷ rs))
        (Nears-if (suc (suc (length rs))) (errno == eintr) (read_loop len buf (ending rs))
          (fails (recv_failed errno), ending rs)
          (Nears-mono (suc (length rs)) (suc (suc (length rs))) (read_loop len buf (ending rs))
            (omega arith) (read_loop-Keeps len buf rs))
          tt)
        (here buf (recv_fails errno ∷ rs))

  -- The first event is used when bytes are missing.
  read-Nears : (n : ℕ) (before : List Recv) → 0 < n → Nears (length before) (read n (ending before))
  unfolding read read_loop
  read-Nears n [] h = rw (lt→ltb 0 n h) tt
  read-Nears n (got [] ∷ rs) h = rw (lt→ltb 0 n h) tt
  read-Nears n (got (b ∷ bs) ∷ rs) h = rw (lt→ltb 0 n h) (read_loop-Keeps n (b ∷ bs) rs)
  read-Nears n (recv_fails errno ∷ rs) h = rw (lt→ltb 0 n h) (
      Nears-if (suc (length rs)) (errno == eintr) (read_loop n [] (ending rs))
        (fails (recv_failed errno), ending rs) (read_loop-Keeps n [] rs) tt)

  Keeps-if :
      {A : Type 0} (t : Bool) (m n : Reader A) → Keeps m → Keeps n → Keeps (if t then m else n)
  Keeps-if true m n h k = h
  Keeps-if false m n h k = k

  payload-Keeps : (n : ℕ) → Keeps (read_payload n)
  payload-Keeps zero = here {A = List ℕ} []
  payload-Keeps (suc n) =
      Keeps-if (suc n == 0) (pure [])
        (if leb (2 ^ 63) (suc n) then throw bad_length else read (suc n)) (here {A = List ℕ} [])
        (Keeps-if (leb (2 ^ 63) (suc n)) (throw bad_length) (read (suc n)) (λ before. tt)
          λ before.
            Nears-mono (length before) (suc (length before)) (read (suc n) (ending before))
              (omega arith) (read-Nears (suc n) before (omega arith)))

  rest-Keeps : (h : Header) → Keeps (read_rest h)
  rest-Keeps h before =
      Nears-proceed (suc (length before)) _ (read_payload (payload_size h) (ending before))
        (λ bytes.
          here {A = Cmd} (record { header = h; payload = bytes; payload_len = payload_size h }))
        (payload-Keeps (payload_size h) before)

  module _ (little : Bool) where
    abbrev unlink_header : HeaderBasic → HeaderCmdSubmit → Header
    unlink_header b c = record {
      base = b;
      cmd_submit = record c { transfer_flags = hfb_u32 little c.transfer_flags };
    }

    abbrev submit_header : HeaderBasic → HeaderCmdSubmit → Header
    submit_header b c = record { base = b; cmd_submit = host_submit little c }

    host-Keeps : (b : HeaderBasic) (c : HeaderCmdSubmit) → Keeps (host_rest little b c)
    host-Keeps b c =
        Keeps-if (b.command == 1) (pure (submit_header b c))
          (if b.command == 2 then pure (unlink_header b c) else throw (unknown_command b.command))
          (here (submit_header b c))
          (Keeps-if (b.command == 2) (pure (unlink_header b c)) (throw (unknown_command b.command))
            (here (unlink_header b c)) (λ before. tt))

    cmd-Nears : (before : List Recv) → Nears (length before) (read_cmd little (ending before))
    unfolding read_cmd
    cmd-Nears before =
        Nears-proceed (length before) _ (read header_size (ending before))
          (λ bytes left.
            Nears-proceed (suc (length left)) read_rest
              (host_rest little (host_base little (load_header little bytes).base)
                (load_header little bytes).cmd_submit (ending left))
              rest-Keeps
              (host-Keeps (host_base little (load_header little bytes).base)
                (load_header little bytes).cmd_submit left))
          (read-Nears 48 before (omega arith))

    -- When a call of recv returns 0, whatever the calls before and after it do, the loop of
    -- _readThread ends by an exception, in at most one round more than there are calls before it.
    pub read_thread-Leaves :
        (fuel : ℕ) (before : List Recv) (s : Shared)
        → length before < fuel
        → Leaves (read_thread little fuel (ending before) s).0
    unfolding read_thread
    read_thread-Leaves zero before s h = absurd (omega arith)
    read_thread-Leaves (suc fuel) before s h =
        after (read_cmd little (ending before)) (cmd-Nears before)
          (λ cmd left k. read_thread-Leaves fuel left (push_cmd cmd s) (omega arith))
      where
        after :
            (r : Io Cmd × List Recv)
            → Nears (length before) r
            → ((cmd : Cmd) (left : List Recv)
                → length left < length before
                → Leaves (read_thread little fuel (ending left) (push_cmd cmd s)).0)
            → Leaves
                (after_read little (λ cmd rs. read_thread little fuel rs (push_cmd cmd s)) r s).0
        after (done cmd, rs) b k = rw b.1 (k cmd b.0 b.2)
        after (fails e, rs) b k = tt
        after (blocks, rs) b k = absurd b
