-- ===== src/Device/Tests/Loops.antt =====
-- The theorems on the loops of the threads, at concrete events.
use virtual_usb.Base.{◌++◌, ◌≡◌, refl, true, List, [], ◌∷◌, arith, drop}
use virtual_usb.Usbip.Wire.{wire_header, to_wire}
use virtual_usb.Device.State.{Cmd, initial}
use virtual_usb.Device.Socket.{Recv, got, Send}
use virtual_usb.Device.Socket.Reading.{Brings}
use virtual_usb.Device.Socket.Reading
use virtual_usb.Device.Loops.{waits, read_thread, write_thread}
use virtual_usb.Device.Loops.Reader.{Stream, ends, submit, unlink, Queues, read_thread-Stream}
use virtual_usb.Device.Loops.Progress.{Leaves, read_thread-Leaves}
use virtual_usb.Device.Loops.Writer.{Replies, none_left, reply, write_thread-Replies}
use virtual_usb.Device.Tests.Wire.{
  payload_events, payload_Brings, header_events, header_of, header_of-IsHeader, out_header,
  out_header-IsHeader, out_header-Brings, unlink_header_5, two_sends, three-Takes, header-Takes,
}

unlink_header-Brings : Brings (wire_header unlink_header_5) (header_events 2 unlink_header_5)
unlink_header-Brings =
    Reading.piece 0 (0 ∷ 0 ∷ 2 ∷ []) {more = 0 ∷ drop 5 (wire_header unlink_header_5)} (
      Reading.interrupted
        (Reading.piece 0 (drop 5 (wire_header unlink_header_5)) {more = []} Reading.all))

-- An OUT command with four bytes, and an UNLINK.
abbrev two_messages : List Recv
two_messages =
    header_events 1 out_header ++ (payload_events ++ (header_events 2 unlink_header_5 ++ []))

two_messages-Stream :
    Stream ((out_header, 9 ∷ 8 ∷ 7 ∷ 6 ∷ []) ∷ (unlink_header_5, []) ∷ []) two_messages
two_messages-Stream =
    submit out_header (9 ∷ 8 ∷ 7 ∷ 6 ∷ []) (header_events 1 out_header) payload_events
      (header_events 2 unlink_header_5 ++ []) out_header-IsHeader refl refl (omega arith)
      out_header-Brings payload_Brings
      (unlink unlink_header_5 (header_events 2 unlink_header_5) []
        (header_of-IsHeader 2 0 0 (omega arith) (omega arith) (omega arith)) refl
        unlink_header-Brings ends)

read_thread-Stream_example :
    Queues true
      ((out_header, 9 ∷ 8 ∷ 7 ∷ 6 ∷ []) ∷ (unlink_header_5, []) ∷ [])
      two_messages
      (got [] ∷ [])
      1
      initial
read_thread-Stream_example = read_thread-Stream true (got [] ∷ []) 1 initial two_messages-Stream

read_thread-Leaves_example : Leaves (read_thread true 10 (two_messages ++ (got [] ∷ [])) initial).0
read_thread-Leaves_example = read_thread-Leaves [] true 10 two_messages initial (omega arith)

abbrev answered : Cmd
answered = record {
  header = to_wire true (header_of 3 1 3);
  payload = 1 ∷ 2 ∷ 3 ∷ [];
  payload_len = 3;
}

abbrev reply_events : List Send
reply_events = two_sends 19 27 ++ (two_sends 0 1 ++ [])

answered-Replies :
    Replies true
      (answered ∷ [])
      ((wire_header (header_of 3 1 3) ++ (1 ∷ 2 ∷ 3 ∷ [])) ++ [])
      reply_events
answered-Replies =
    reply (header_of 3 1 3) answered (two_sends 19 27) (two_sends 0 1) [] refl refl refl
      header-Takes three-Takes none_left

write_thread-Replies_example :
    write_thread true (answered ∷ []) reply_events (record initial { reps = answered ∷ [] })
    ≡ (waits, (wire_header (header_of 3 1 3) ++ (1 ∷ 2 ∷ 3 ∷ [])) ++ [], initial)
write_thread-Replies_example =
    write_thread-Replies true (record initial { reps = answered ∷ [] }) refl answered-Replies
