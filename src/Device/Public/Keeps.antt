-- ===== src/Device/Public/Keeps.antt =====
-- The handlers leave the life of the device alone: its state, its error and its sockets.
use virtual_usb.Base.{
  ℕ, ◌^◌, ◌==◌, ◌≡◌, refl, ap, ◌∙◌, Bool, true, false, List, [], ◌∷◌, Option, none, some,
  if◌then◌else◌, bit_and, ltb, leb, drop,
}
use virtual_usb.Usb.Endpoint
use virtual_usb.Usbip
use virtual_usb.Device.State.{
  Cmd, Data, Xfer, Error, Info, Shared, M, Result, ok, throws, aborts, undefined, continue, ◌>>=◌,
  ◌>>◌, pure, assert, throw_if, invalid_ep_idx, bad_array_length,
}
use virtual_usb.Device.Reply.{memcpy, reply}
use virtual_usb.Device.Reply.Ends.{
  IsEnd, IsEndAt, answered, refused, reply-IsEnd, memcpy-Yields, YieldsAt, goes, stops,
}
use virtual_usb.Device.Transfer.{
  ep_idx, rethrow, send_loop, send_data_for_in_endpoint, push_in_cmd, push_in_data, set_queues,
  send_len, advance, handle_cmd_submit_epx_out, handle_cmd_submit_epx_in, write_body, write_copy,
  write_item,
}
use virtual_usb.Device.Unlink.{set_in_cmds, handle_cmd_unlink}
use virtual_usb.Device.Standard.Ends.{handle_standard_request-IsEnd}
use virtual_usb.Device.Standard.{handle_standard_request}
use virtual_usb.Device.Command.{
  handle_cmd, handle_cmd_submit_ep0, handle_cmd_submit_epx, get_setup_request,
}
use virtual_usb.Device.Client.{set_cmds, read_loop, read_now}

-- What the handlers leave alone.
abbrev pub life : Shared → ℕ × Option Error × Option ℕ × Option ℕ × List Cmd
life s = (s.state, s.err, s.socket, s.usbip_socket, s.cmds)

-- An operation that leaves alone what `look` sees.
module _ {V : Type 0} (look : Shared → V) where
  abbrev pub Leaves : {A : Type 0} → M A → Type 0
  Leaves m = (s : Shared) → look (m s).1 ≡ look s

  continue-Leaves :
      {A B : Type 0} (f : A → M B)
      → ((a : A) → Leaves (f a))
      → (o : Result A × Shared) → look (continue f o).1 ≡ look o.1
  continue-Leaves f h (ok a, s) = h a s
  continue-Leaves f h (throws e, s) = refl
  continue-Leaves f h (aborts, s) = refl
  continue-Leaves f h (undefined, s) = refl

  bind-Leaves :
      {A B : Type 0} (m : M A) (f : A → M B)
      → Leaves m
      → ((a : A) → Leaves (f a))
      → Leaves (m >>= f)
  bind-Leaves m f k h s = continue-Leaves f h (m s) ∙ k s

abbrev pub Keeps : {A : Type 0} → M A → Type 0
Keeps m = Leaves life m

bind-Keeps :
    {A B : Type 0} (m : M A) (f : A → M B) → Keeps m → ((a : A) → Keeps (f a)) → Keeps (m >>= f)
bind-Keeps m f k h = bind-Leaves life m f k h

-- `read` takes commands from the queue.
abbrev state_of : Shared → ℕ
state_of s = s.state

if-Keeps : {A : Type 0} (b : Bool) (m n : M A) → Keeps m → Keeps n → Keeps (if b then m else n)
if-Keeps true m n h k = h
if-Keeps false m n h k = k

throw_if-Keeps : (b : Bool) (e : Error) → Keeps (throw_if b e)
throw_if-Keeps true e s = refl
throw_if-Keeps false e s = refl

assert-Keeps : (b : Bool) → Keeps (assert b)
assert-Keeps true s = refl
assert-Keeps false s = refl

rethrow-Keeps : (e : Option Error) → Keeps (rethrow e)
rethrow-Keeps none s = refl
rethrow-Keeps (some e) s = refl

set_in_cmds-Keeps : (o : Option (ℕ → List Cmd)) → Keeps (set_in_cmds o)
set_in_cmds-Keeps none s = refl
set_in_cmds-Keeps (some queues) s = refl

memcpy-Keeps : (p : Option (List ℕ)) (n : ℕ) → Keeps (memcpy p n)
memcpy-Keeps p n s = kept (memcpy-Yields p n s)
  where
    kept : {P : List ℕ → Type 0} → YieldsAt P s (memcpy p n s) → life (memcpy p n s).1 ≡ life s
    kept (goes a c h e) = ap (λ o. life o.1) e
    kept (stops x c e) = ap (λ o. life o.1) e

module _ (little : Bool) where
  end-Keeps : (cmd : Cmd) (m : M (Unit {0})) → IsEnd little cmd m → Keeps m
  end-Keeps cmd m h s = kept (h s)
    where
      kept : IsEndAt little cmd s (m s) → life (m s).1 ≡ life s
      kept (answered rep c a e) = ap (λ o. life o.1) e
      kept (refused x c e) = ap (λ o. life o.1) e

  reply-Keeps :
      (cmd : Cmd) (p : Option (List ℕ)) (n status : ℕ) → Keeps (reply little cmd p n status)
  reply-Keeps cmd p n status = end-Keeps cmd _ (reply-IsEnd little cmd p n status)

  send_round-Keeps :
      (ep : ℕ) (cmd : Cmd) (cmds : List Cmd) (d : Data) (rest : List Data) (next : M (Unit {0}))
      → Keeps next
      → Keeps (
          reply little cmd (some (drop d.off d.bytes)) (send_len cmd d) 0
          >> (set_queues ep cmds (advance d rest (send_len cmd d)) >> next))
  send_round-Keeps ep cmd cmds d rest next h =
      bind-Keeps (reply little cmd (some (drop d.off d.bytes)) (send_len cmd d) 0)
        (λ u. set_queues ep cmds (advance d rest (send_len cmd d)) >> next) (reply-Keeps cmd _ _ 0)
        λ u.
          bind-Keeps (set_queues ep cmds (advance d rest (send_len cmd d))) (λ u. next) (λ s. refl)
            λ u. h

  send_loop-Keeps : (ep : ℕ) (cmds : List Cmd) → Keeps (send_loop little ep cmds)
  unfolding send_loop
  send_loop-Keeps ep [] s = refl
  send_loop-Keeps ep (cmd ∷ cmds) s = served (send_loop-Keeps ep cmds) (s.in_data ep) refl
    where
      served :
          Keeps (send_loop little ep cmds)
          → (q : List Data) → s.in_data ep ≡ q
          → life (send_loop little ep (cmd ∷ cmds) s).1 ≡ life s
      served k [] e = rw (e, send_loop) refl
      served k (d ∷ rest) e =
          rw (e, send_loop) (send_round-Keeps ep cmd cmds d rest (send_loop little ep cmds) k s)

  send-Keeps : (ep : ℕ) → Keeps (send_data_for_in_endpoint little ep)
  unfolding send_data_for_in_endpoint
  send-Keeps ep s = send_loop-Keeps ep (s.in_cmds ep) s

  out-Keeps : (cmd : Cmd) → Keeps (handle_cmd_submit_epx_out little cmd)
  unfolding handle_cmd_submit_epx_out
  out-Keeps cmd =
      bind-Keeps (throw_if (leb Endpoint.max_count (ep_idx cmd)) invalid_ep_idx) _
        (throw_if-Keeps _ _)
        λ u.
          bind-Keeps (reply little cmd none cmd.payload_len 0) _ (reply-Keeps cmd _ _ _) λ u s. refl

  in-Keeps : (cmd : Cmd) → Keeps (handle_cmd_submit_epx_in little cmd)
  unfolding handle_cmd_submit_epx_in
  in-Keeps cmd =
      bind-Keeps (throw_if (leb Endpoint.max_count (ep_idx cmd)) invalid_ep_idx) _
        (throw_if-Keeps _ _)
        λ u.
          bind-Keeps (push_in_cmd cmd) (λ u. send_data_for_in_endpoint little (ep_idx cmd))
            (λ s. refl) λ u. send-Keeps (ep_idx cmd)

  epx-Keeps : (cmd : Cmd) → Keeps (handle_cmd_submit_epx little cmd)
  unfolding handle_cmd_submit_epx
  epx-Keeps cmd =
      if-Keeps (cmd.header.base.direction == Usbip.dir_out) _ _
        (bind-Keeps (handle_cmd_submit_epx_out little cmd) _ (out-Keeps cmd) λ x s. refl)
        (if-Keeps (cmd.header.base.direction == Usbip.dir_in) _ _
          (bind-Keeps (handle_cmd_submit_epx_in little cmd) _ (in-Keeps cmd) λ x s. refl) λ s. refl)

  unlink-Keeps : (cmd : Cmd) → Keeps (handle_cmd_unlink little cmd)
  unfolding handle_cmd_unlink
  unlink-Keeps cmd s =
      bind-Keeps (throw_if (leb Endpoint.max_count (ep_idx cmd)) invalid_ep_idx) _
        (throw_if-Keeps _ _)
        (λ u. bind-Keeps (set_in_cmds _) _ (set_in_cmds-Keeps _) λ u. reply-Keeps cmd none 0 _) s

  write_copy-Keeps : (idx : ℕ) (p : Option (List ℕ)) (len : ℕ) → Keeps (write_copy little idx p len)
  write_copy-Keeps idx p len = bind-Keeps (memcpy p len) _ (memcpy-Keeps p len) λ bs.
      bind-Keeps (push_in_data idx _) (λ u. send_data_for_in_endpoint little idx) (λ s. refl)
        λ u. send-Keeps idx

  write_item-Keeps : (idx : ℕ) (p : Option (List ℕ)) (len : ℕ) → Keeps (write_item little idx p len)
  write_item-Keeps idx p len =
      bind-Keeps (throw_if (leb (2 ^ 63) len) bad_array_length) (λ u. write_copy little idx p len)
        (throw_if-Keeps _ _) λ u. write_copy-Keeps idx p len

  pub write_body-Keeps :
      (ep : ℕ) (p : Option (List ℕ)) (len : ℕ) → Keeps (write_body little ep p len)
  unfolding write_body
  write_body-Keeps ep p len s =
      let idx = bit_and ep Endpoint.index_mask in
      bind-Keeps (assert (bit_and ep Endpoint.direction_mask == Endpoint.direction_in))
        (λ u. assert (ltb idx Endpoint.max_count) >> (rethrow s.err >> write_item little idx p len))
        (assert-Keeps _)
        (λ u.
          bind-Keeps (assert (ltb idx Endpoint.max_count))
            (λ u. rethrow s.err >> write_item little idx p len) (assert-Keeps _)
            λ u.
              bind-Keeps (rethrow s.err) (λ u. write_item little idx p len) (rethrow-Keeps s.err)
                λ u. write_item-Keeps idx p len)
        s

  module _ (info : Info) where
    ep0-Keeps : (cmd : Cmd) → Keeps (handle_cmd_submit_ep0 little info cmd)
    unfolding handle_cmd_submit_ep0
    ep0-Keeps cmd =
        if-Keeps _ _ _
          (bind-Keeps (handle_standard_request little info cmd (get_setup_request little cmd)) _
            (end-Keeps cmd _ (handle_standard_request-IsEnd little info cmd _)) λ u s. refl)
          (bind-Keeps (handle_cmd_submit_epx little cmd) _ (epx-Keeps cmd) λ x s. refl)

    pub handle_cmd-Keeps : (cmd : Cmd) → Keeps (handle_cmd little info cmd)
    unfolding handle_cmd
    handle_cmd-Keeps cmd =
        if-Keeps (cmd.header.base.command == Usbip.cmd_submit) _ _
          (if-Keeps (cmd.header.base.ep == 0) _ _ (ep0-Keeps cmd) (epx-Keeps cmd))
          (if-Keeps (cmd.header.base.command == Usbip.cmd_unlink) _ _
            (bind-Keeps (handle_cmd_unlink little cmd) _ (unlink-Keeps cmd) λ u s. refl) λ s. refl)

    abbrev pub found_or : M (Option Xfer) → Option Xfer → M (Option Xfer)
    found_or next x = elim x [ none ↦ next | some y ↦ pure (some y) ]

    found_or-Leaves :
        (next : M (Option Xfer)) (x : Option Xfer)
        → Leaves state_of next
        → Leaves state_of (found_or next x)
    found_or-Leaves next none h s = h s
    found_or-Leaves next (some y) h s = refl

    round-Leaves :
        (cmd : Cmd) (cmds : List Cmd) (e : Option Error) (next : M (Option Xfer))
        → Leaves state_of next
        → Leaves state_of
            (rethrow e >> (set_cmds cmds >> (handle_cmd little info cmd >>= found_or next)))
    round-Leaves cmd cmds e next h =
        bind-Leaves state_of (rethrow e)
          (λ u. set_cmds cmds >> (handle_cmd little info cmd >>= found_or next))
          (λ s. ap (λ l. l.0) (rethrow-Keeps e s))
          λ u.
            bind-Leaves state_of (set_cmds cmds) (λ u. handle_cmd little info cmd >>= found_or next)
              (λ s. refl)
              λ u.
                bind-Leaves state_of (handle_cmd little info cmd) (found_or next)
                  (λ s. ap (λ l. l.0) (handle_cmd-Keeps cmd s)) λ x. found_or-Leaves next x h

    read_loop-state : (cmds : List Cmd) → Leaves state_of (read_loop little info cmds)
    unfolding read_loop
    read_loop-state [] s =
        bind-Leaves state_of (rethrow s.err) (λ u. pure none)
          (λ t. ap (λ l. l.0) (rethrow-Keeps s.err t)) (λ u t. refl) s
    read_loop-state (cmd ∷ cmds) s =
        round-Leaves cmd cmds s.err (read_loop little info cmds) (read_loop-state cmds) s

    pub read_now-state : Leaves state_of (read_now little info)
    unfolding read_now
    read_now-state s = read_loop-state s.cmds s
