-- ===== src/Device/Socket.antt =====
-- `_Read`, `_Write` and `_ReadCmd` of VirtualUSBDevice.cpp, and the body of the loop of
-- `_writeThread` after it has dequeued a reply. The calls of the system are the events of a list:
-- what the successive calls of `recv` or `send` return. When the list ends, the next call blocks.
pub mod Reading
pub mod Writing
pub mod Commands
use virtual_usb.Base.{
  ℕ, zero, suc, ◌+◌, ◌^◌, ◌++◌, Bool, ◌&&◌, List, [], ◌∷◌, if◌then◌else◌, ltb, leb, ◌==◌, length,
  take, drop,
}
use virtual_usb.Endian.{hfb_u32}
use virtual_usb.Usbip
use virtual_usb.Usbip.{HeaderBasic, HeaderCmdSubmit, Header, load_header, store_header}
use virtual_usb.Device.State.{Cmd, size_of_int32}

-- The errno of an interrupted call.
abbrev pub eintr : ℕ
eintr = 4

-- `sizeof(USBIP::HEADER)`
abbrev pub header_size : ℕ
header_size = 48

-- What `recv` does: it stores bytes and returns their number, or returns -1 with an errno.
pub data Recv : Type 0 where
  got : List ℕ → Recv
  recv_fails : ℕ → Recv

-- What `send` does: it takes a number of bytes, or returns -1 with an errno.
pub data Send : Type 0 where
  took : ℕ → Send
  send_fails : ℕ → Send

-- The exceptions. `make_unique` throws `bad_length` for an array of 2^63 bytes or more.
pub data IoError : Type 0 where
  recv_returned_0 send_returned_0 bad_length : IoError
  recv_failed send_failed unknown_command : ℕ → IoError

pub data Io (A : Type 0) : Type 0 where
  done : A → Io A
  fails : IoError → Io A
  blocks : Io A

-- A reader takes events from the front of a list.
abbrev pub Reader : Type 0 → Type 0
Reader A = List Recv → Io A × List Recv

abbrev pub proceed : {A B : Type 0} → (A → Reader B) → Io A × List Recv → Io B × List Recv
proceed f (done a, rs) = f a rs
proceed f (fails e, rs) = (fails e, rs)
proceed f (blocks, rs) = (blocks, rs)

infixl 5 ◌>>=◌
abbrev pub ◌>>=◌ : {A B : Type 0} → Reader A → (A → Reader B) → Reader B
◌>>=◌ m f rs = proceed f (m rs)

abbrev pub pure : {A : Type 0} → A → Reader A
pure a rs = (done a, rs)

abbrev pub throw : {A : Type 0} → IoError → Reader A
throw e rs = (fails e, rs)

-- The loop of `_Read`: `buf` are the bytes stored so far, and `off` is their number.
unfoldable pub read_loop : ℕ → List ℕ → Reader (List ℕ)
read_loop len buf [] = if ltb (length buf) len then (blocks, []) else (done buf, [])
read_loop len buf (got [] ∷ rs) =
    if ltb (length buf) len then (fails recv_returned_0, rs) else (done buf, got [] ∷ rs)
read_loop len buf (got (b ∷ bs) ∷ rs) =
    let rest = read_loop len (buf ++ (b ∷ bs)) rs in
    if ltb (length buf) len then rest else (done buf, got (b ∷ bs) ∷ rs)
read_loop len buf (recv_fails errno ∷ rs) =
    let rest = read_loop len buf rs in
    if ltb (length buf) len
    then if errno == eintr then rest else (fails (recv_failed errno), rs)
    else (done buf, recv_fails errno ∷ rs)

unfoldable pub read : ℕ → Reader (List ℕ)
read len = read_loop len []

-- `cmd.payloadLen`
abbrev pub payload_size : Header → ℕ
payload_size h =
    if (h.base.command == Usbip.cmd_submit) && (h.base.direction == Usbip.dir_out)
    then size_of_int32 h.cmd_submit.transfer_buffer_length
    else 0

abbrev pub read_payload : ℕ → Reader (List ℕ)
read_payload n = if n == 0 then pure [] else if leb (2 ^ 63) n then throw bad_length else read n

-- `_ReadCmd` from the payload on
abbrev pub read_rest : Header → Reader Cmd
read_rest header = do
  payload ← read_payload (payload_size header)
  pure (record { header = header; payload = payload; payload_len = payload_size header })

-- The loop of `_Write`, from `off` on: how it ends, and the bytes that `send` took.
unfoldable pub write_loop : List ℕ → ℕ → ℕ → List Send → Io (Unit {0}) × List ℕ × List Send
write_loop bytes len off [] = if ltb off len then (blocks, [], []) else (done tt, [], [])
write_loop bytes len off (took zero ∷ rs) =
    if ltb off len then (fails send_returned_0, [], rs) else (done tt, [], took zero ∷ rs)
write_loop bytes len off (took (suc n) ∷ rs) =
    let (end, wire, left) = write_loop bytes len (off + suc n) rs in
    if ltb off len
    then (end, take (suc n) (drop off bytes) ++ wire, left)
    else (done tt, [], took (suc n) ∷ rs)
write_loop bytes len off (send_fails errno ∷ rs) =
    let rest = write_loop bytes len off rs in
    if ltb off len
    then if errno == eintr then rest else (fails (send_failed errno), [], rs)
    else (done tt, [], send_fails errno ∷ rs)

unfoldable pub write : List ℕ → ℕ → List Send → Io (Unit {0}) × List ℕ × List Send
write bytes len = write_loop bytes len 0

-- What follows a write that ended so.
abbrev pub then_write :
    (List Send → Io (Unit {0}) × List ℕ × List Send)
    → Io (Unit {0}) × List ℕ × List Send
    → Io (Unit {0}) × List ℕ × List Send
then_write k (done u, wire, rs) = (let (end, more, left) = k rs in (end, wire ++ more, left))
then_write k (fails e, wire, rs) = (fails e, wire, rs)
then_write k (blocks, wire, rs) = (blocks, wire, rs)

module _ (little : Bool) where
  -- Big endian -> host endian
  abbrev pub host_base : HeaderBasic → HeaderBasic
  host_base b = record {
    command = hfb_u32 little b.command;
    seqnum = hfb_u32 little b.seqnum;
    devid = hfb_u32 little b.devid;
    direction = hfb_u32 little b.direction;
    ep = hfb_u32 little b.ep;
  }

  abbrev pub host_submit : HeaderCmdSubmit → HeaderCmdSubmit
  host_submit c = record {
    transfer_flags = hfb_u32 little c.transfer_flags;
    transfer_buffer_length = hfb_u32 little c.transfer_buffer_length;
    start_frame = hfb_u32 little c.start_frame;
    number_of_packets = hfb_u32 little c.number_of_packets;
    interval = hfb_u32 little c.interval;
    setup = c.setup;
  }

  -- The switch of `_ReadCmd` on the converted command.
  abbrev pub host_rest : HeaderBasic → HeaderCmdSubmit → Reader Header
  host_rest base c =
      if base.command == Usbip.cmd_submit
      then pure (record { base = base; cmd_submit = host_submit c })
      else if base.command == Usbip.cmd_unlink
      then pure (record {
        base = base;
        cmd_submit = record c { transfer_flags = hfb_u32 little c.transfer_flags };
      })
      else throw (unknown_command base.command)

  -- `_ReadCmd` from the switch on, with the converted base and the rest of the header as read.
  abbrev pub read_body : HeaderBasic → HeaderCmdSubmit → Reader Cmd
  read_body base c = host_rest base c >>= read_rest

  unfoldable pub read_cmd : Reader Cmd
  unfolding read
  read_cmd = do
    bytes ← read header_size
    let wire = load_header little bytes
    read_body (host_base wire.base) wire.cmd_submit

  -- A dequeued reply goes to the socket.
  unfoldable pub write_rep : Cmd → List Send → Io (Unit {0}) × List ℕ × List Send
  write_rep rep rs =
      then_write (write rep.payload rep.payload_len)
        (write (store_header little rep.header) header_size rs)
