-- ===== src/Device/Tests/Queues.antt =====
-- The theorems on the queues, the data endpoints and the device over time, at concrete inputs.
use virtual_usb.Base.{none, map, bit_and, ◌≢◌, ◌++◌, ◌≡◌, refl, true, [], ◌∷◌, some, arith}
use virtual_usb.Device.State.{ok, initial}
use virtual_usb.Device.Transfer.{write_body, send_data_for_in_endpoint}
use virtual_usb.Device.Transfer.Abstract.{unsent_bytes, serve_bytes, send_data-serve_bytes}
use virtual_usb.Device.Transfer.Sent.{IsSent, send_data-IsSent}
use virtual_usb.Device.Unlink.{handle_cmd_unlink}
use virtual_usb.Device.Unlink.Laws.{Unlinked, handle_cmd_unlink-Unlinked}
use virtual_usb.Device.State.{Cmd, zero_setup}
use virtual_usb.Device.Command.{handle_cmd, get_setup_request}
use virtual_usb.Device.Command.Out.{transfer, acknowledged, handle_cmd_out}
use virtual_usb.Device.Moves.{Moves}
use virtual_usb.Device.Moves.Inbound.{at_endpoint, taken}
use virtual_usb.Device.Moves.Write.{write-Moves, write_returns}
use virtual_usb.Device.Moves.Dispatch.{handle_cmd-Moves}
use virtual_usb.Device.History.{
  Reach, changes, System, start, begins, next, handles, writes, IsFaithful, Reach-IsFaithful,
  write_idx,
}
use virtual_usb.Device.Tests.{
  submit, unlink, with_setup, info, asked_first, asked_first-IsWf, ready, ready-IsPending,
  ready-IsData,
}

-- A client writes three bytes to endpoint 2, and the host asks for two of them.
abbrev wrote : System
wrote = record start {
  shared = (write_body true 0x82 (some (1 ∷ 2 ∷ 3 ∷ [])) 3 initial).1;
  written = λ e.
      []
      ++ at_endpoint (write_idx 0x82)
          (taken (write_body true 0x82 (some (1 ∷ 2 ∷ 3 ∷ [])) 3 initial).0 (some (1 ∷ 2 ∷ 3 ∷ []))
            3)
          e;
}

abbrev asked : System
asked = record wrote { shared = (handle_cmd true info (submit 7 1 2 2) wrote.shared).1 }

Reach-IsFaithful_example : IsFaithful true info asked
Reach-IsFaithful_example = Reach-IsFaithful true info (
    next (next begins (writes 0x82 (some (1 ∷ 2 ∷ 3 ∷ [])) 3 (omega arith) refl))
      (handles (submit 7 1 2 2) (omega arith) refl))

handle_cmd-Moves_example :
    Moves true asked_first (handle_cmd true info (submit 9 1 2 2) asked_first).1 (λ _. [])
handle_cmd-Moves_example =
    handle_cmd-Moves true asked_first asked_first-IsWf (submit 9 1 2 2) (omega arith) info

write-Moves_example :
    let o = write_body true 0x82 (some (1 ∷ 2 ∷ 3 ∷ [])) 3 asked_first in
    Moves true asked_first o.1 (at_endpoint 2 (taken o.0 (some (1 ∷ 2 ∷ 3 ∷ [])) 3))
write-Moves_example =
    write-Moves true asked_first asked_first-IsWf 0x82 (some (1 ∷ 2 ∷ 3 ∷ [])) 3 (omega arith)

write_returns_example : (write_body true 0x82 (some (1 ∷ 2 ∷ 3 ∷ [])) 3 asked_first).0 ≡ ok tt
write_returns_example =
    write_returns true asked_first asked_first-IsWf 0x82 3 (1 ∷ 2 ∷ 3 ∷ []) refl refl (omega arith)
      (omega arith)

send_data-IsSent_example : IsSent true 2 ready (send_data_for_in_endpoint true 2 ready)
send_data-IsSent_example = send_data-IsSent true 2 ready ready-IsPending ready-IsData

send_data-serve_bytes_example :
    let (reps, cmds, bufs) =
      serve_bytes true (ready.in_cmds 2) (map unsent_bytes (ready.in_data 2)) in
    let (end, t) = send_data_for_in_endpoint true 2 ready in
    (end ≡ ok tt)
    × (t.reps ≡ ready.reps ++ reps)
    × (t.in_cmds 2 ≡ cmds)
    × (map unsent_bytes (t.in_data 2) ≡ bufs)
send_data-serve_bytes_example = send_data-serve_bytes true 2 ready ready-IsPending ready-IsData

handle_cmd_unlink-Unlinked_example :
    Unlinked true (unlink 9 8) ready (handle_cmd_unlink true (unlink 9 8) ready)
handle_cmd_unlink-Unlinked_example =
    handle_cmd_unlink-Unlinked true (unlink 9 8) ready refl (omega arith)

abbrev sent : Cmd
sent = record (submit 4 0 3 2) { payload = 5 ∷ 6 ∷ []; payload_len = 2 }

handle_cmd_out_example :
    handle_cmd true info sent initial
    ≡ (ok (some (transfer true sent zero_setup)), acknowledged true sent initial)
handle_cmd_out_example =
    handle_cmd_out true info sent initial
      (record { command = refl; direction = refl; endpoint = omega arith }) (omega arith)

-- SET_LINE_CODING
abbrev line_coding : Cmd
line_coding =
    with_setup (0x21 ∷ 0x20 ∷ 0 ∷ 0 ∷ 0 ∷ 0 ∷ 2 ∷ 0 ∷ [])
      (record (submit 4 0 0 2) { payload = 5 ∷ 6 ∷ []; payload_len = 2 })

class_request : bit_and (get_setup_request true line_coding).bm_request_type 0x60 ≢ 0
unfolding get_setup_request
class_request = omega arith

-- Two commands have come: the first is for endpoint 2, and the second brings data.
abbrev received : System
received = record start { shared = record initial { cmds = submit 7 1 2 2 ∷ sent ∷ [] } }

received-Reach : Reach true info received
received-Reach = next begins (changes 0 none none none [] (submit 7 1 2 2 ∷ sent ∷ []) refl)
