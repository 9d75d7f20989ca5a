-- ===== src/Device/Loops/Writer.antt =====
-- The queue of replies becomes the bytes on the wire.
use virtual_usb.Base.{ℕ, ◌≡◌, ap, ◌∙◌, Bool, none, List, [], ◌∷◌, ◌++◌, length}
use virtual_usb.Usbip.{Header}
use virtual_usb.Usbip.Wire.{wire_header, to_wire}
use virtual_usb.Device.State.{Cmd, Shared}
use virtual_usb.Device.Socket.{Send, write_rep, header_size}
use virtual_usb.Device.Socket.Writing.{Takes, write_rep_lem}
use virtual_usb.Device.Loops.{waits, after_write, unless_error, wait_or_leave, write_thread}

-- Replies, each the big-endian form of a header with its payload, the bytes that stand for them, and
-- events that take just so many.
pub data Replies (little : Bool) : List Cmd → List ℕ → List Send → Type 0 where
  none_left : Replies little [] [] []
  reply :
      (h : Header) (rep : Cmd) (rs rs' more : List Send) {reps : List Cmd} {wire : List ℕ}
      → rep.header ≡ to_wire little h
      → length h.cmd_submit.setup ≡ 8
      → rep.payload_len ≡ length rep.payload
      → Takes header_size rs
      → Takes rep.payload_len rs'
      → Replies little reps wire more
      → Replies little (rep ∷ reps) ((wire_header h ++ rep.payload) ++ wire) (rs ++ (rs' ++ more))

module _ (little : Bool) where
  -- Without an error, when the calls of send take the bytes in pieces of any size and with any
  -- interruptions, the loop of _writeThread puts the headers and payloads of the queued replies on
  -- the wire in order, empties the queue and waits.
  pub write_thread-Replies :
      {reps : List Cmd} {wire : List ℕ} {rs : List Send} (s : Shared)
      → s.err ≡ none
      → Replies little reps wire rs
      → write_thread little reps rs s ≡ (waits, wire, record s { reps = [] })
  unfolding write_thread
  write_thread-Replies s e none_left =
      ap (λ o. (wait_or_leave little o, [], record s { reps = [] })) e
  write_thread-Replies s e (reply h rep rs rs' more {reps} {wire} q n m t t' k) =
      ap
        (λ o.
          unless_error little o
            (after_write little (λ left. write_thread little reps left (record s { reps = reps }))
              (write_rep little rep (rs ++ (rs' ++ more))) (record s { reps = reps }))
            s)
        e
      ∙ (ap
            (λ w.
              after_write little (λ left. write_thread little reps left (record s { reps = reps }))
                w (record s { reps = reps }))
            (write_rep_lem little h rep more q n m t t')
          ∙ ap
              (λ w.
                (let (stop, bytes, s') = w in (stop, (wire_header h ++ rep.payload) ++ bytes, s')))
              (write_thread-Replies (record s { reps = reps }) e k))
