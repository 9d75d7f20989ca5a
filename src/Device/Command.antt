-- ===== src/Device/Command.antt =====
-- The dispatch of a command: `_handleCmd` and what it calls.
pub mod Out
use virtual_usb.Base.{Bool, Option, none, some, if◌then◌else◌, ◌==◌, bit_and, get_or, drop}
use virtual_usb.Endian.{hfl_u16, load16}
use virtual_usb.Usb.RequestType
use virtual_usb.Usb.{SetupRequest}
use virtual_usb.Usbip
use virtual_usb.Usbip.{cmd_unlink_seqnum}
use virtual_usb.Device.State.{
  Cmd, Xfer, Info, M, ◌>>=◌, ◌>>◌, pure, throw, invalid_cmd_direction, invalid_usbip_command,
}
use virtual_usb.Device.Transfer.{handle_cmd_submit_epx_out, handle_cmd_submit_epx_in}
use virtual_usb.Device.Unlink.{handle_cmd_unlink}
use virtual_usb.Device.Standard.{handle_standard_request}

module _ (little : Bool) where
  -- `_GetSetupRequest`: the packed struct over the eight bytes, converted from little endian.
  unfoldable pub get_setup_request : Cmd → SetupRequest
  get_setup_request cmd =
      let m = cmd.header.cmd_submit.setup in
      record {
        bm_request_type = get_or m 0 0;
        b_request = get_or m 1 0;
        w_value = hfl_u16 little (load16 little (drop 2 m));
        w_index = hfl_u16 little (load16 little (drop 4 m));
        w_length = hfl_u16 little (load16 little (drop 6 m));
      }

  unfoldable pub handle_cmd_submit_epx : Cmd → M (Option Xfer)
  handle_cmd_submit_epx cmd =
      if cmd.header.base.direction == Usbip.dir_out
      then (do xfer ← handle_cmd_submit_epx_out little cmd; pure (some xfer))
      else if cmd.header.base.direction == Usbip.dir_in
      then (do handle_cmd_submit_epx_in little cmd; pure none)
      else throw invalid_cmd_direction

  -- `xfer->setupReq = setupReq`
  abbrev pub set_setup_req : SetupRequest → Option Xfer → Option Xfer
  set_setup_req req none = none
  set_setup_req req (some xfer) = some (record xfer { setup_req = req })

  module _ (info : Info) where
    unfoldable pub handle_cmd_submit_ep0 : Cmd → M (Option Xfer)
    handle_cmd_submit_ep0 cmd =
        let req = get_setup_request cmd in
        if bit_and req.bm_request_type RequestType.type_mask == RequestType.type_standard
        then (do handle_standard_request little info cmd req; pure none)
        else (do xfer ← handle_cmd_submit_epx cmd; pure (set_setup_req req xfer))

    unfoldable pub handle_cmd : Cmd → M (Option Xfer)
    handle_cmd cmd =
        if cmd.header.base.command == Usbip.cmd_submit
        then if cmd.header.base.ep == 0
          then handle_cmd_submit_ep0 cmd
          else handle_cmd_submit_epx cmd
        else if cmd.header.base.command == Usbip.cmd_unlink
        then (do handle_cmd_unlink little cmd; pure none)
        else throw (invalid_usbip_command cmd.header.base.command)
