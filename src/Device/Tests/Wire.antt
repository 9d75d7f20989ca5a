-- ===== src/Device/Tests/Wire.antt =====
-- The theorems on the socket, at concrete events: pieces, interruptions and errors.
use virtual_usb.Base.{
  ℕ, suc, ◌<◌, replicate, ◌++◌, ◌≡◌, ◌^◌, refl, true, List, [], ◌∷◌, arith, drop,
}
use virtual_usb.Usbip.{Header}
use virtual_usb.Usbip.Wire.{wire_header, IsHeader}
use virtual_usb.Device.Reply.{submit_reply}
use virtual_usb.Device.Socket.{
  Recv, got, recv_fails, Send, took, send_fails, done, fails, recv_returned_0, recv_failed,
  unknown_command, eintr, read, read_cmd, write_rep,
}
use virtual_usb.Device.Socket.Reading.{Brings, read-Brings, read_short}
use virtual_usb.Device.Socket.Reading
use virtual_usb.Device.Socket.Writing.{
  Takes, write-Takes, write_rep-submit_reply, write_rep-unlink_reply, submit_header, unlink_header,
}
use virtual_usb.Device.Socket.Writing
use virtual_usb.Device.Socket.Commands.{read_cmd_submit, read_cmd_refuses}
use virtual_usb.Device.Tests.{submit}

-- Four bytes in two pieces.
abbrev pub payload_events : List Recv
payload_events = got (9 ∷ 8 ∷ []) ∷ recv_fails eintr ∷ got (7 ∷ 6 ∷ []) ∷ []

pub payload_Brings : Brings (9 ∷ 8 ∷ 7 ∷ 6 ∷ []) payload_events
payload_Brings =
    Reading.piece 9 (8 ∷ []) {more = 7 ∷ 6 ∷ []}
      (Reading.interrupted (Reading.piece 7 (6 ∷ []) {more = []} Reading.all))

-- A header in two pieces, whose first word is `n`, less than 256.
abbrev pub header_events : ℕ → Header → List Recv
header_events n h =
    got (0 ∷ 0 ∷ 0 ∷ n ∷ []) ∷ recv_fails eintr ∷ got (0 ∷ drop 5 (wire_header h)) ∷ []

read_short_example :
    (read 5 (payload_events ++ (got [] ∷ [])) ≡ (fails recv_returned_0, []))
    × (read 5 (payload_events ++ (recv_fails 104 ∷ [])) ≡ (fails (recv_failed 104), []))
read_short_example = read_short 5 104 [] payload_Brings (omega arith) (omega arith)

abbrev pub header_of : ℕ → ℕ → ℕ → Header
header_of command direction len = record {
  base = record { command = command; seqnum = 5; devid = 1; direction = direction; ep = 3 };
  cmd_submit = record {
    transfer_flags = 0;
    transfer_buffer_length = len;
    start_frame = 0;
    number_of_packets = 0;
    interval = 0;
    setup = replicate 8 0;
  };
}

pub header_of-IsHeader :
    (command direction len : ℕ)
    → command < 2 ^ 32
    → direction < 2 ^ 32
    → len < 2 ^ 32
    → IsHeader (header_of command direction len)
header_of-IsHeader command direction len c d l = record {
  command = c;
  seqnum = omega arith;
  devid = omega arith;
  direction = d;
  ep = omega arith;
  transfer_flags = omega arith;
  transfer_buffer_length = l;
  start_frame = omega arith;
  number_of_packets = omega arith;
  interval = omega arith;
  setup = refl;
}

abbrev pub out_header : Header
out_header = header_of 1 0 4

pub out_header-IsHeader : IsHeader out_header
out_header-IsHeader = header_of-IsHeader 1 0 4 (omega arith) (omega arith) (omega arith)

pub out_header-Brings : Brings (wire_header out_header) (header_events 1 out_header)
out_header-Brings = Reading.piece 0 (0 ∷ 0 ∷ 1 ∷ []) {more = 0 ∷ drop 5 (wire_header out_header)} (
    Reading.interrupted (Reading.piece 0 (drop 5 (wire_header out_header)) {more = []} Reading.all))

read_cmd_submit_example :
    read_cmd true (header_events 1 out_header ++ (payload_events ++ []))
    ≡ (done (record { header = out_header; payload = 9 ∷ 8 ∷ 7 ∷ 6 ∷ []; payload_len = 4 }), [])
read_cmd_submit_example =
    read_cmd_submit true out_header out_header-IsHeader [] refl refl (omega arith) out_header-Brings
      payload_Brings

abbrev pub unlink_header_5 : Header
unlink_header_5 = header_of 2 0 0

abbrev strange_header : Header
strange_header = header_of 9 0 0

read_cmd_refuses_example :
    read_cmd true (header_events 9 strange_header ++ []) ≡ (fails (unknown_command 9), [])
read_cmd_refuses_example =
    read_cmd_refuses true strange_header
      (header_of-IsHeader 9 0 0 (omega arith) (omega arith) (omega arith)) [] (omega arith)
      (omega arith)
      (Reading.piece 0 (0 ∷ 0 ∷ 9 ∷ []) {more = 0 ∷ drop 5 (wire_header strange_header)} (
        Reading.interrupted
          (Reading.piece 0 (drop 5 (wire_header strange_header)) {more = []} Reading.all)))

-- The socket takes `suc n` bytes, is interrupted, and takes `suc m`.
abbrev pub two_sends : ℕ → ℕ → List Send
two_sends n m = took (suc n) ∷ send_fails eintr ∷ took (suc m) ∷ []

pub three-Takes : Takes 3 (two_sends 0 1)
three-Takes = Writing.piece 0 (Writing.interrupted (Writing.piece 1 Writing.all))

pub header-Takes : Takes 48 (two_sends 19 27)
header-Takes = Writing.piece 19 (Writing.interrupted (Writing.piece 27 Writing.all))

write_rep-submit_reply_example :
    write_rep true
      (submit_reply true (submit 7 1 2 3) (1 ∷ 2 ∷ 3 ∷ []) 3 3)
      (two_sends 19 27 ++ (two_sends 0 1 ++ []))
    ≡ (done tt, wire_header (submit_header (submit 7 1 2 3) 3) ++ (1 ∷ 2 ∷ 3 ∷ []), [])
write_rep-submit_reply_example =
    write_rep-submit_reply true (submit 7 1 2 3) (1 ∷ 2 ∷ 3 ∷ []) 3 [] header-Takes three-Takes
