-- ===== src/Device/Transfer.antt =====
-- The data endpoints: OUT transfers are handed to the client, IN transfers are matched with the
-- data that the client has written.
pub mod Serve
pub mod Refine
pub mod Delivered
pub mod Sent
pub mod Abstract
use virtual_usb.Base.{
  ℕ, ◌+◌, ◌-◌, ◌%◌, ◌^◌, ◌++◌, min, bit_and, bit_or, Bool, List, [], ◌∷◌, Option, none, some,
  if◌then◌else◌, ltb, leb, ◌==◌, drop,
}
use virtual_usb.Usb.Endpoint
use virtual_usb.Usbip
use virtual_usb.Device.State.{
  Cmd, Data, Xfer, zero_setup, Error, M, ok, ◌>>=◌, ◌>>◌, pure, throw, assert, throw_if,
  invalid_ep_idx, bad_array_length, update, size_of_int32,
}
use virtual_usb.Device.Reply.{memcpy, reply}

-- `const uint8_t epIdx = cmd.header.base.ep`
abbrev pub ep_idx : Cmd → ℕ
ep_idx cmd = cmd.header.base.ep % 256

-- `_GetEndpointAddr`
unfoldable pub get_endpoint_addr : Cmd → ℕ
get_endpoint_addr cmd =
    bit_or cmd.header.base.ep (if cmd.header.base.direction == Usbip.dir_in then 0x80 else 0x00)
    % 256

-- `d.len - d.off`, of type `size_t`
abbrev pub unsent : Data → ℕ
unsent d = (d.len + 2 ^ 64 - d.off) % 2 ^ 64

-- The number of bytes that the next IN reply carries.
abbrev pub send_len : Cmd → Data → ℕ
send_len cmd d = min (size_of_int32 cmd.header.cmd_submit.transfer_buffer_length) (unsent d)

-- `d.off += len`, and the data is popped if that was all.
abbrev pub advance : Data → List Data → ℕ → List Data
advance d rest len = if d.off + len == d.len then rest else record d { off = d.off + len } ∷ rest

abbrev pub set_queues : ℕ → List Cmd → List Data → M (Unit {0})
set_queues ep cmds items s =
    (ok tt, record s { in_cmds = update s.in_cmds ep cmds; in_data = update s.in_data ep items })

module _ (little : Bool) (ep : ℕ) where
  -- The loop of `_sendDataForInEndpoint`. Its list is `epInCmds`: each round pops the front.
  unfoldable pub send_loop : List Cmd → M (Unit {0})
  send_loop [] s = (ok tt, s)
  send_loop (cmd ∷ cmds) s =
      let next = send_loop cmds in
      elim (s.in_data ep) [
        | [] ↦ (ok tt, s)
        | d ∷ rest ↦
            (do
              reply little cmd (some (drop d.off d.bytes)) (send_len cmd d) 0
              set_queues ep cmds (advance d rest (send_len cmd d))
              next)
              s
      ]

  unfoldable pub send_data_for_in_endpoint : M (Unit {0})
  send_data_for_in_endpoint s = send_loop (s.in_cmds ep) s

-- `epInCmds.push_back(std::move(cmd))`
abbrev pub push_in_cmd : Cmd → M (Unit {0})
push_in_cmd cmd s = (
  ok tt,
  record s { in_cmds = update s.in_cmds (ep_idx cmd) (s.in_cmds (ep_idx cmd) ++ (cmd ∷ [])) },
)

-- `epInData.push_back(std::move(d))`
abbrev pub push_in_data : ℕ → Data → M (Unit {0})
push_in_data ep d s = (ok tt, record s { in_data = update s.in_data ep (s.in_data ep ++ (d ∷ [])) })

abbrev pub rethrow : Option Error → M (Unit {0})
rethrow none = pure tt
rethrow (some e) = throw e

module _ (little : Bool) where
  unfoldable pub handle_cmd_submit_epx_out : Cmd → M Xfer
  unfolding get_endpoint_addr
  handle_cmd_submit_epx_out cmd = do
    throw_if (leb Endpoint.max_count (ep_idx cmd)) invalid_ep_idx
    reply little cmd none cmd.payload_len 0
    pure (record {
      ep = get_endpoint_addr cmd;
      setup_req = zero_setup;
      bytes = cmd.payload;
      len = cmd.payload_len;
    })

  unfoldable pub handle_cmd_submit_epx_in : Cmd → M (Unit {0})
  handle_cmd_submit_epx_in cmd = do
    throw_if (leb Endpoint.max_count (ep_idx cmd)) invalid_ep_idx
    push_in_cmd cmd
    send_data_for_in_endpoint little (ep_idx cmd)

  -- The data is copied and queued, and sent if an IN command waits for it.
  abbrev pub write_copy : ℕ → Option (List ℕ) → ℕ → M (Unit {0})
  write_copy idx p len = do
    bytes ← memcpy p len
    push_in_data idx (record { bytes = bytes; len = len; off = 0 })
    send_data_for_in_endpoint little idx

  -- `make_unique` throws for an array of 2^63 bytes or more.
  abbrev pub write_item : ℕ → Option (List ℕ) → ℕ → M (Unit {0})
  write_item idx p len = do throw_if (leb (2 ^ 63) len) bad_array_length; write_copy idx p len

  -- `write`, up to the handler of its exceptions.
  unfoldable pub write_body : ℕ → Option (List ℕ) → ℕ → M (Unit {0})
  write_body ep p len s =
      let idx = bit_and ep Endpoint.index_mask in
      (do
        assert (bit_and ep Endpoint.direction_mask == Endpoint.direction_in)
        assert (ltb idx Endpoint.max_count)
        rethrow s.err
        write_item idx p len)
        s
