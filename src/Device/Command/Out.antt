-- ===== src/Device/Command/Out.antt =====
-- OUT commands: the host's data reaches the client, and the setup request of endpoint 0 with it.
use virtual_usb.Base.{
  ℕ, ◌^◌, ◌<◌, ◌++◌, ◌≡◌, ◌≢◌, ap, ◌∙◌, Bool, List, [], ◌∷◌, none, some, arith, ==_iff, ==_false,
  leb-false, bit_and, drop, get_or,
}
use virtual_usb.Base.Bits.{bit_or-zero}
use virtual_usb.Endian.{le_bytes16, hfl_u16, load16}
use virtual_usb.Endian.Wire.{hfl_u16-load16}
use virtual_usb.Usb.{SetupRequest}
use virtual_usb.Usb.Endpoint
use virtual_usb.Usb.RequestType
use virtual_usb.Usbip
use virtual_usb.Device.State.{Cmd, Xfer, zero_setup, Info, Shared, ok, >>=_ok}
use virtual_usb.Device.Reply.{submit_reply, reply}
use virtual_usb.Device.Reply.Laws.{reply_out}
use virtual_usb.Device.Transfer.{ep_idx, get_endpoint_addr, handle_cmd_submit_epx_out}
use virtual_usb.Device.Command.{
  get_setup_request, handle_cmd_submit_epx, handle_cmd_submit_ep0, handle_cmd,
}

-- The eight bytes of a setup request, as USB sends it.
abbrev pub setup_bytes : SetupRequest → List ℕ
setup_bytes r =
    r.bm_request_type
    ∷ r.b_request
    ∷ (le_bytes16 r.w_value ++ (le_bytes16 r.w_index ++ le_bytes16 r.w_length))

module _ (little : Bool) where
  -- On a host of either byte order, _GetSetupRequest recovers a setup request of 16-bit words from
  -- its eight bytes in little endian.
  pub get_setup_request-setup_bytes :
      (r : SetupRequest) (cmd : Cmd)
      → r.w_value < 2 ^ 16
      → r.w_index < 2 ^ 16
      → r.w_length < 2 ^ 16
      → cmd.header.cmd_submit.setup ≡ setup_bytes r
      → get_setup_request little cmd ≡ r
  unfolding get_setup_request
  get_setup_request-setup_bytes r cmd v i l e = ap decoded e ∙ (λ j. record {
    bm_request_type = r.bm_request_type;
    b_request = r.b_request;
    w_value = hfl_u16-load16 little r.w_value (le_bytes16 r.w_index ++ le_bytes16 r.w_length) v j;
    w_index = hfl_u16-load16 little r.w_index (le_bytes16 r.w_length) i j;
    w_length = hfl_u16-load16 little r.w_length [] l j;
  })
    where
      decoded : List ℕ → SetupRequest
      decoded m = record {
        bm_request_type = get_or m 0 0;
        b_request = get_or m 1 0;
        w_value = hfl_u16 little (load16 little (drop 2 m));
        w_index = hfl_u16 little (load16 little (drop 4 m));
        w_length = hfl_u16 little (load16 little (drop 6 m));
      }

  -- An OUT command to a data endpoint.
  pub record IsOut (cmd : Cmd) : Type 0 where
    pub command : cmd.header.base.command ≡ Usbip.cmd_submit
    pub direction : cmd.header.base.direction ≡ Usbip.dir_out
    pub endpoint : cmd.header.base.ep < Endpoint.max_count

  -- What the client gets, and the state with the acknowledgement of all bytes.
  abbrev pub transfer : Cmd → SetupRequest → Xfer
  transfer cmd req = record {
    ep = cmd.header.base.ep;
    setup_req = req;
    bytes = cmd.payload;
    len = cmd.payload_len;
  }

  abbrev pub acknowledged : Cmd → Shared → Shared
  acknowledged cmd s = record s {
    reps = s.reps ++ (submit_reply little cmd [] 0 cmd.payload_len ∷ []);
  }

  epx_out :
      (cmd : Cmd) (s : Shared)
      → IsOut cmd
      → handle_cmd_submit_epx_out little cmd s ≡ (ok (transfer cmd zero_setup), acknowledged cmd s)
  unfolding handle_cmd_submit_epx_out get_endpoint_addr
  epx_out cmd s o =
      let address : get_endpoint_addr cmd ≡ cmd.header.base.ep =
        ground (arith, o.direction, o.endpoint, bit_or-zero cmd.header.base.ep) in
      rw (leb-false Endpoint.max_count (ep_idx cmd) (omega (arith, o.endpoint))) (
        >>=_ok (reply little cmd none cmd.payload_len 0) _ s
          (reply_out little cmd 0 s cmd.payload_len o.command o.direction)
        ∙ ap
            (λ a. (
              ok (record {
                ep = a;
                setup_req = zero_setup;
                bytes = cmd.payload;
                len = cmd.payload_len;
              }),
              acknowledged cmd s,
            ))
            address)

  epx :
      (cmd : Cmd) (s : Shared)
      → IsOut cmd
      → handle_cmd_submit_epx little cmd s
        ≡ (ok (some (transfer cmd zero_setup)), acknowledged cmd s)
  unfolding handle_cmd_submit_epx
  epx cmd s o =
      rw ((==_iff cmd.header.base.direction 0).1 o.direction)
        (>>=_ok (handle_cmd_submit_epx_out little cmd) _ s (epx_out cmd s o))

  -- A SUBMIT command with direction OUT to an endpoint from 1 to 31 returns its payload under the
  -- endpoint number, with an empty setup request, and queues a reply that acknowledges all its
  -- bytes.
  pub handle_cmd_out :
      (info : Info) (cmd : Cmd) (s : Shared)
      → IsOut cmd
      → cmd.header.base.ep ≢ 0
      → handle_cmd little info cmd s ≡ (ok (some (transfer cmd zero_setup)), acknowledged cmd s)
  unfolding handle_cmd
  handle_cmd_out info cmd s o n =
      rw ((==_iff cmd.header.base.command 1).1 o.command, ==_false cmd.header.base.ep 0 n)
        (epx cmd s o)

  -- A SUBMIT command with direction OUT to endpoint 0 whose request is not a standard one returns
  -- its payload with the decoded setup request, and queues a reply that acknowledges all its bytes.
  pub handle_cmd_out_control :
      (info : Info) (cmd : Cmd) (s : Shared)
      → IsOut cmd
      → cmd.header.base.ep ≡ 0
      → (let req = get_setup_request little cmd in
          bit_and req.bm_request_type RequestType.type_mask ≢ RequestType.type_standard)
      → handle_cmd little info cmd s
        ≡ (ok (some (transfer cmd (get_setup_request little cmd))), acknowledged cmd s)
  unfolding handle_cmd handle_cmd_submit_ep0
  handle_cmd_out_control info cmd s o n t =
      rw
        (
          (==_iff cmd.header.base.command 1).1 o.command,
          (==_iff cmd.header.base.ep 0).1 n,
          ==_false (bit_and (get_setup_request little cmd).bm_request_type 0x60) 0 t,
        )
        (>>=_ok (handle_cmd_submit_epx little cmd) _ s (epx cmd s o))
