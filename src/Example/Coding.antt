-- ===== src/Example/Coding.antt =====
-- The requests of the CDC class, from the host's command to the example's state.
use virtual_usb.Base.{
  ℕ, ◌^◌, ◌<◌, ◌++◌, ◌≡◌, ◌≢◌, refl, ap, ◌∙◌, Bool, false, List, [], ◌∷◌, none, some, arith,
  bit_and, ◌==◌, ==_iff, ==_false, leb,
}
use virtual_usb.Endian.{le_bytes32}
use virtual_usb.Endian.Wire.{hfl_u32-load32}
use virtual_usb.Usb.{SetupRequest}
use virtual_usb.Usb.RequestType
use virtual_usb.Usb.Endpoint
use virtual_usb.Usbip
use virtual_usb.Device.State.{
  M, Cmd, Info, Xfer, Shared, Result, ok, update, throw_if, invalid_ep_idx, ◌>>◌, >>=_ok,
}
use virtual_usb.Device.Transfer.{
  ep_idx, handle_cmd_submit_epx_in, send_data_for_in_endpoint, send_loop,
}
use virtual_usb.Device.Command.{
  handle_cmd, handle_cmd_submit_epx, handle_cmd_submit_ep0, get_setup_request,
}
use virtual_usb.Device.Command.Out.{
  IsOut, transfer, acknowledged, setup_bytes, get_setup_request-setup_bytes, handle_cmd_out_control,
}
use virtual_usb.Example.Handlers.{
  LineCoding, Port, handled, load_line_coding, handle_xfer, handle_xfer_ep0, set_line_coding,
  line_coding_size,
}

-- SET_LINE_CODING, to the interface.
abbrev pub set_line_coding_request : ℕ → SetupRequest
set_line_coding_request index = record {
  bm_request_type = 0x21;
  b_request = set_line_coding;
  w_value = 0;
  w_index = index;
  w_length = line_coding_size;
}

-- A line coding as the host sends it.
abbrev pub line_coding_bytes : LineCoding → List ℕ
line_coding_bytes c =
    le_bytes32 c.dw_dte_rate ++ (c.b_char_format ∷ c.b_parity_type ∷ c.b_data_bits ∷ [])

module _ (little : Bool) where
  load-line_coding_bytes :
      (c : LineCoding) → c.dw_dte_rate < 2 ^ 32 → load_line_coding little (line_coding_bytes c) ≡ c
  unfolding load_line_coding
  load-line_coding_bytes c h = λ i. record {
    dw_dte_rate =
        hfl_u32-load32 little c.dw_dte_rate (c.b_char_format ∷ c.b_parity_type ∷ c.b_data_bits ∷ [])
          h i;
    b_char_format = c.b_char_format;
    b_parity_type = c.b_parity_type;
    b_data_bits = c.b_data_bits;
  }

  -- The transfer that carries the request.
  abbrev pub line_coding_xfer : LineCoding → ℕ → Xfer
  line_coding_xfer c index = record {
    ep = 0;
    setup_req = set_line_coding_request index;
    bytes = line_coding_bytes c;
    len = line_coding_size;
  }

  handle_line_coding :
      (c : LineCoding) (index : ℕ) (port : Port) (s : Shared)
      → c.dw_dte_rate < 2 ^ 32
      → handle_xfer little (line_coding_xfer c index) port s
        ≡ (handled, record port { line_coding = c }, s)
  unfolding handle_xfer handle_xfer_ep0
  handle_line_coding c index port s h =
      let with_coding : LineCoding → Port = λ l. record port { line_coding = l } in
      ap (λ l. (handled, with_coding l, s)) (load-line_coding_bytes c h)

  -- On a host of either byte order, a SUBMIT command with direction OUT to endpoint 0 that carries
  -- SET_LINE_CODING to an interface and the seven little-endian bytes of a line coding with a
  -- 32-bit rate is acknowledged and returned to the client, whose handler sets exactly that line
  -- coding and does not change the device.
  pub set_line_coding_lem :
      (info : Info) (c : LineCoding) (index : ℕ) (cmd : Cmd) (port : Port) (s t : Shared)
      → c.dw_dte_rate < 2 ^ 32
      → index < 2 ^ 16
      → IsOut little cmd
      → cmd.header.base.ep ≡ 0
      → cmd.header.cmd_submit.setup ≡ setup_bytes (set_line_coding_request index)
      → cmd.payload ≡ line_coding_bytes c
      → cmd.payload_len ≡ line_coding_size
      → (xfer : Xfer) × (handle_cmd little info cmd s ≡ (ok (some xfer), acknowledged little cmd s))
        × (handle_xfer little xfer port t ≡ (handled, record port { line_coding = c }, t))
  set_line_coding_lem info c index cmd port s t h i o e q b n =
      let req = set_line_coding_request index in
      let g : get_setup_request little cmd ≡ req =
        get_setup_request-setup_bytes little req cmd (omega arith) i (omega arith) q in
      let xfer : transfer little cmd (get_setup_request little cmd) ≡ line_coding_xfer c index =
        λ j. record { ep = e j; setup_req = g j; bytes = b j; len = n j } in
      (
        line_coding_xfer c index,
        handle_cmd_out_control little info cmd s o e
              (λ z. omega (arith, z, ap (λ r. bit_and r.bm_request_type 0x60) g))
            ∙ ap (λ x. (ok (some x), acknowledged little cmd s)) xfer,
        handle_line_coding c index port t h,
      )

  send_loop_idle :
      (ep : ℕ) (cmds : List Cmd) (s : Shared)
      → s.in_data ep ≡ []
      → send_loop little ep cmds s ≡ (ok tt, s)
  unfolding send_loop
  send_loop_idle ep [] s e = refl
  send_loop_idle ep (cmd ∷ cmds) s e = rw (e, send_loop) refl

  -- The state in which an IN command waits at endpoint 0.
  abbrev pub waiting : Cmd → Shared → Shared
  waiting cmd s = record s { in_cmds = update s.in_cmds 0 (s.in_cmds 0 ++ (cmd ∷ [])) }

  in_waits :
      (cmd : Cmd) (s : Shared)
      → cmd.header.base.ep ≡ 0
      → s.in_data 0 ≡ []
      → handle_cmd_submit_epx_in little cmd s ≡ (ok tt, waiting cmd s)
  unfolding handle_cmd_submit_epx_in send_data_for_in_endpoint
  in_waits cmd s e d =
      let idx : ep_idx cmd ≡ 0 = omega (arith, e) in
      let push : ℕ → M (Unit {0}) =
        λ k t. (ok tt, record t { in_cmds = update t.in_cmds k (t.in_cmds k ++ (cmd ∷ [])) }) in
      let at : ℕ → Result (Unit {0}) × Shared = λ k.
        (throw_if (leb Endpoint.max_count k) invalid_ep_idx
            >> (push k >> send_data_for_in_endpoint little k))
          s in
      ap at idx ∙ send_loop_idle 0 _ (waiting cmd s) d

  epx_waits :
      (cmd : Cmd) (s : Shared)
      → cmd.header.base.direction ≡ Usbip.dir_in
      → cmd.header.base.ep ≡ 0
      → s.in_data 0 ≡ []
      → handle_cmd_submit_epx little cmd s ≡ (ok none, waiting cmd s)
  unfolding handle_cmd_submit_epx
  epx_waits cmd s i e d =
      let not_out : (cmd.header.base.direction == 0) ≡ false = ground arith in
      rw (not_out, (==_iff cmd.header.base.direction 1).1 i)
        (>>=_ok (handle_cmd_submit_epx_in little cmd) _ s (in_waits cmd s e d))

  -- A SUBMIT command with direction IN to endpoint 0 whose request is not a standard one, while no
  -- data waits at endpoint 0, is queued there, and that is all: no reply is made and nothing is
  -- returned to the client.
  pub class_in_waits :
      (info : Info) (cmd : Cmd) (s : Shared)
      → cmd.header.base.command ≡ Usbip.cmd_submit
      → cmd.header.base.direction ≡ Usbip.dir_in
      → cmd.header.base.ep ≡ 0
      → (let req = get_setup_request little cmd in
          bit_and req.bm_request_type RequestType.type_mask ≢ RequestType.type_standard)
      → s.in_data 0 ≡ []
      → handle_cmd little info cmd s ≡ (ok none, waiting cmd s)
  unfolding handle_cmd handle_cmd_submit_ep0
  class_in_waits info cmd s c i e t d =
      rw
        (
          (==_iff cmd.header.base.command 1).1 c,
          (==_iff cmd.header.base.ep 0).1 e,
          ==_false (bit_and (get_setup_request little cmd).bm_request_type 0x60) 0 t,
        )
        (>>=_ok (handle_cmd_submit_epx little cmd) _ s (epx_waits cmd s i e d))
