-- ===== src/Device/Socket/Commands.antt =====
-- `_ReadCmd` against the protocol's encoding of a command.
use virtual_usb.Base.{
  if◌then◌else◌, ◌≡◌, ℕ, suc, ◌^◌, ◌≤◌, ◌<◌, ◌++◌, ◌≡◌, ◌≢◌, refl, ap, ◌∙◌, Bool, true, false, List,
  [], ◌∷◌, arith, leb, ◌==◌, ==_iff, ==_false, length, drop, take_all, leb-false,
}
use virtual_usb.Endian.{hfb_u32}
use virtual_usb.Endian.Wire.{hfb_u32-load32}
use virtual_usb.Usbip
use virtual_usb.Usbip.{HeaderBasic, HeaderCmdSubmit, Header, load_header, cmd_unlink_seqnum}
use virtual_usb.Usbip.Wire.{wire_header, IsHeader}
use virtual_usb.Device.State.{Cmd}
use virtual_usb.Device.Socket.{
  Recv, done, fails, bad_length, unknown_command, header_size, host_base, host_submit, host_rest,
  read_body, read_rest, payload_size, read_payload, read_cmd, read, proceed, pure, ◌>>=◌,
}
use virtual_usb.Device.Socket.Reading.{Brings, all, read-Brings}

Brings-nothing : {rs : List Recv} → Brings [] rs → rs ≡ []
Brings-nothing all = refl

read_payload-Brings :
    (m : List ℕ) {rs : List Recv} (behind : List Recv)
    → length m < 2 ^ 63
    → Brings m rs
    → read_payload (length m) (rs ++ behind) ≡ (done m, behind)
read_payload-Brings [] behind small t = ap (λ l. (done [], l ++ behind)) (Brings-nothing t)
read_payload-Brings (b ∷ bs) behind small t =
    rw (==_false (suc (length bs)) 0 (omega arith), leb-false (2 ^ 63) (suc (length bs)) small)
      (read-Brings behind t)

abbrev with_payload : Header → ℕ → List ℕ → Cmd
with_payload h n payload = record { header = h; payload = payload; payload_len = n }

read_rest-Brings :
    (h : Header) (m : List ℕ) {rs : List Recv} (behind : List Recv)
    → payload_size h ≡ length m
    → length m < 2 ^ 63
    → Brings m rs
    → read_rest h (rs ++ behind) ≡ (done (with_payload h (length m) m), behind)
read_rest-Brings h m {rs} behind n small t =
    ap (λ k. (read_payload k >>= λ l. pure (with_payload h k l)) (rs ++ behind)) n
    ∙ ap (proceed λ l. pure (with_payload h (length m) l)) (read_payload-Brings m behind small t)

host_rest_submit :
    (little : Bool) (b : HeaderBasic) (c c' : HeaderCmdSubmit)
    → b.command ≡ Usbip.cmd_submit
    → host_submit little c ≡ c'
    → host_rest little b c ≡ pure (record { base = b; cmd_submit = c' })
host_rest_submit little b c c' e f =
    let joined : HeaderCmdSubmit → Header = λ x. record { base = b; cmd_submit = x } in
    rw ((==_iff b.command 1).1 e) (ap (λ x. pure (joined x)) f)

-- An UNLINK command as it is kept: of its second part only the first word is converted.
abbrev unlinked : Bool → HeaderBasic → HeaderCmdSubmit → Header
unlinked little b c = record {
  base = b;
  cmd_submit = record c { transfer_flags = hfb_u32 little c.transfer_flags };
}

body_unlink :
    (little : Bool) (b : HeaderBasic) (c : HeaderCmdSubmit) (behind : List Recv)
    → b.command ≡ Usbip.cmd_unlink
    → read_body little b c behind ≡ (done (with_payload (unlinked little b c) 0 []), behind)
body_unlink little b c behind e =
    let other : (b.command == 1) ≡ false = ground arith in
    let no_payload : payload_size (unlinked little b c) ≡ 0 = ground arith in
    rw (other, (==_iff b.command 2).1 e)
      (read_rest-Brings (unlinked little b c) [] behind no_payload (omega arith) all)

-- The number of bytes that follow a SUBMIT header by the protocol.
abbrev pub announced : Header → ℕ
announced h = if h.base.direction == Usbip.dir_out then h.cmd_submit.transfer_buffer_length else 0

module _ (little : Bool) (h : Header) (v : IsHeader h) where
  load_base : host_base little (load_header little (wire_header h)).base ≡ h.base
  unfolding load_header
  load_base = λ i. record {
    command = hfb_u32-load32 little h.base.command (drop 4 (wire_header h)) v.command i;
    seqnum = hfb_u32-load32 little h.base.seqnum (drop 8 (wire_header h)) v.seqnum i;
    devid = hfb_u32-load32 little h.base.devid (drop 12 (wire_header h)) v.devid i;
    direction = hfb_u32-load32 little h.base.direction (drop 16 (wire_header h)) v.direction i;
    ep = hfb_u32-load32 little h.base.ep (drop 20 (wire_header h)) v.ep i;
  }

  load_submit : host_submit little (load_header little (wire_header h)).cmd_submit ≡ h.cmd_submit
  unfolding load_header
  load_submit = λ i. record {
    transfer_flags =
        hfb_u32-load32 little h.cmd_submit.transfer_flags (drop 24 (wire_header h)) v.transfer_flags
          i;
    transfer_buffer_length =
        hfb_u32-load32 little h.cmd_submit.transfer_buffer_length (drop 28 (wire_header h))
          v.transfer_buffer_length i;
    start_frame =
        hfb_u32-load32 little h.cmd_submit.start_frame (drop 32 (wire_header h)) v.start_frame i;
    number_of_packets =
        hfb_u32-load32 little h.cmd_submit.number_of_packets (drop 36 (wire_header h))
          v.number_of_packets i;
    interval = hfb_u32-load32 little h.cmd_submit.interval (drop 40 (wire_header h)) v.interval i;
    setup = take_all 8 h.cmd_submit.setup (omega (arith, v.setup)) i;
  }

  read_header :
      {rs : List Recv} (behind : List Recv)
      → Brings (wire_header h) rs
      → read header_size (rs ++ behind) ≡ (done (wire_header h), behind)
  read_header {rs} behind t =
      let n : header_size ≡ length (wire_header h) = omega (arith, v.setup) in
      ap (λ k. read k (rs ++ behind)) n ∙ read-Brings behind t

  -- The header is read, and its base converted.
  read_cmd_body :
      {rs : List Recv} (behind : List Recv)
      → Brings (wire_header h) rs
      → read_cmd little (rs ++ behind)
        ≡ read_body little h.base (load_header little (wire_header h)).cmd_submit behind
  unfolding read_cmd
  read_cmd_body {rs} behind t =
      ap
        (proceed λ bytes.
          read_body little (host_base little (load_header little bytes).base)
            (load_header little bytes).cmd_submit)
        (read_header behind t)
      ∙ ap (λ b. read_body little b (load_header little (wire_header h)).cmd_submit behind)
          load_base

  submitted :
      {rs : List Recv} (behind : List Recv)
      → h.base.command ≡ Usbip.cmd_submit
      → Brings (wire_header h) rs
      → read_cmd little (rs ++ behind) ≡ read_rest h behind
  submitted behind c t =
      read_cmd_body behind t
      ∙ ap (λ r. (r >>= read_rest) behind)
          (host_rest_submit little h.base (load_header little (wire_header h)).cmd_submit
            h.cmd_submit c load_submit)

  payload_size_lem :
      h.base.command ≡ Usbip.cmd_submit
      → h.cmd_submit.transfer_buffer_length < 2 ^ 31
      → (payload_size h ≡ announced h) × (announced h < 2 ^ 31)
  payload_size_lem c small = (ground arith, ground arith)

  -- On a host of either byte order, when recv brings the big-endian encoding of a SUBMIT header of
  -- 32-bit words and then the payload that it announces, of less than 2^31 bytes, in pieces of any
  -- size and with any interruptions, _ReadCmd returns that header and that payload and leaves what
  -- follows.
  pub read_cmd_submit :
      {payload : List ℕ} {rs rs' : List Recv} (behind : List Recv)
      → h.base.command ≡ Usbip.cmd_submit
      → announced h ≡ length payload
      → h.cmd_submit.transfer_buffer_length < 2 ^ 31
      → Brings (wire_header h) rs
      → Brings payload rs'
      → read_cmd little (rs ++ (rs' ++ behind))
        ≡ (done (record { header = h; payload = payload; payload_len = length payload }), behind)
  read_cmd_submit {payload} {rs} {rs'} behind c n small t t' =
      let size = payload_size_lem c small in
      submitted (rs' ++ behind) c t
      ∙ read_rest-Brings h payload behind (size.0 ∙ n) (omega (arith, n, size.1)) t'

  -- When recv brings the big-endian encoding of an UNLINK header of 32-bit words, _ReadCmd returns
  -- a command with the base of that header, the number to unlink and no payload, and leaves what
  -- follows.
  pub read_cmd_unlink :
      {rs : List Recv} (behind : List Recv)
      → h.base.command ≡ Usbip.cmd_unlink
      → Brings (wire_header h) rs
      → (cmd : Cmd) × (read_cmd little (rs ++ behind) ≡ (done cmd, behind))
        × (cmd.header.base ≡ h.base)
        × (cmd_unlink_seqnum cmd.header ≡ cmd_unlink_seqnum h)
        × (cmd.payload_len ≡ 0)
  read_cmd_unlink {rs} behind c t =
      let m = (load_header little (wire_header h)).cmd_submit in
      (
        with_payload (unlinked little h.base m) 0 [],
        read_cmd_body behind t ∙ body_unlink little h.base m behind c,
        refl,
        ap (λ d. d.transfer_flags) load_submit,
        refl,
      )

  -- When recv brings the encoding of a header of 32-bit words whose command is neither SUBMIT nor
  -- UNLINK, _ReadCmd throws, names that command, and leaves what follows.
  pub read_cmd_refuses :
      {rs : List Recv} (behind : List Recv)
      → h.base.command ≢ Usbip.cmd_submit
      → h.base.command ≢ Usbip.cmd_unlink
      → Brings (wire_header h) rs
      → read_cmd little (rs ++ behind) ≡ (fails (unknown_command h.base.command), behind)
  read_cmd_refuses {rs} behind n1 n2 t =
      read_cmd_body behind t ∙ rw (==_false h.base.command 1 n1, ==_false h.base.command 2 n2)

  -- When recv brings the encoding of an OUT SUBMIT header whose transfer_buffer_length is negative,
  -- _ReadCmd throws bad_array_new_length and reads no payload.
  pub read_cmd_negative :
      {rs : List Recv} (behind : List Recv)
      → h.base.command ≡ Usbip.cmd_submit
      → h.base.direction ≡ Usbip.dir_out
      → 2 ^ 31 ≤ h.cmd_submit.transfer_buffer_length
      → Brings (wire_header h) rs
      → read_cmd little (rs ++ behind) ≡ (fails bad_length, behind)
  read_cmd_negative {rs} behind c d big t = submitted behind c t ∙ negative
    where
      huge : (payload_size h == 0) ≡ false
      huge = ground arith

      longer : leb (2 ^ 63) (payload_size h) ≡ true
      longer = ground arith

      negative : read_rest h behind ≡ (fails bad_length, behind)
      negative = rw (huge, longer) refl
