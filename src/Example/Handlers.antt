-- ===== src/Example/Handlers.antt =====
-- main.cpp: what the example does with an OUT transfer.
use virtual_usb.Base.{ℕ, ◌++◌, Bool, List, [], ◌∷◌, some, bit_and, not, if◌then◌else◌, ◌==◌, get_or}
use virtual_usb.Endian.{hfl_u32, load32, store32}
use virtual_usb.Usb.RequestType
use virtual_usb.Usb.Endpoint
use virtual_usb.Device.State.{Xfer, Shared, Result}
use virtual_usb.Device.Transfer.{write_body}
use virtual_usb.Example.Descriptors.{endpoint_out2}

-- `USB::CDC::Request`
abbrev pub set_line_coding : ℕ
set_line_coding = 0x20

abbrev pub get_line_coding : ℕ
get_line_coding = 0x21

abbrev pub set_control_line_state : ℕ
set_control_line_state = 0x22

abbrev pub send_break : ℕ
send_break = 0x23

-- `USB::CDC::LineCoding`
pub record LineCoding : Type 0 where
  pub dw_dte_rate : ℕ
  pub b_char_format : ℕ
  pub b_parity_type : ℕ
  pub b_data_bits : ℕ

-- `sizeof(_LineCoding)`
abbrev pub line_coding_size : ℕ
line_coding_size = 7

-- `_LineCoding` and `_State.dtePresent`
pub record Port : Type 0 where
  pub line_coding : LineCoding
  pub dte_present : Bool

pub data PortError : Type 0 where
  not_class not_interface bad_payload bad_direction : PortError
  invalid_out invalid_in invalid_endpoint : ℕ → PortError

-- A handler returns, throws, or ends as the body of its call of `write` does.
pub data Handled : Type 0 where
  handled : Handled
  refused : PortError → Handled
  written : Result (Unit {0}) → Handled

abbrev pub Outcome : Type 0
Outcome = Handled × Port × Shared

module _ (little : Bool) where
  -- `memcpy(&_LineCoding, payload, sizeof(_LineCoding))`, converted
  unfoldable pub load_line_coding : List ℕ → LineCoding
  load_line_coding m = record {
    dw_dte_rate = hfl_u32 little (load32 little m);
    b_char_format = get_or m 4 0;
    b_parity_type = get_or m 5 0;
    b_data_bits = get_or m 6 0;
  }

  -- The memory of `_LineCoding`
  abbrev pub line_coding_memory : LineCoding → List ℕ
  line_coding_memory c =
      store32 little c.dw_dte_rate ++ (c.b_char_format ∷ c.b_parity_type ∷ c.b_data_bits ∷ [])

  -- The requests with direction OUT
  abbrev pub handle_out : Xfer → Port → Shared → Outcome
  handle_out xfer port s =
      if xfer.setup_req.b_request == set_line_coding
      then if not (xfer.len == line_coding_size)
        then (refused bad_payload, port, s)
        else (handled, record port { line_coding = load_line_coding xfer.bytes }, s)
      else if xfer.setup_req.b_request == set_control_line_state
      then (handled, record port { dte_present = bit_and xfer.setup_req.w_value 1 == 1 }, s)
      else if xfer.setup_req.b_request == send_break
      then (handled, port, s)
      else (refused (invalid_out xfer.setup_req.b_request), port, s)

  -- The requests with direction IN
  abbrev pub handle_in : Xfer → Port → Shared → Outcome
  handle_in xfer port s =
      if xfer.setup_req.b_request == get_line_coding
      then if not (xfer.len == line_coding_size)
        then (refused bad_payload, port, s)
        else (let (end, t) =
              write_body little Endpoint.default_in (some (line_coding_memory port.line_coding))
                line_coding_size s in
            (written end, port, t))
      else (refused (invalid_in xfer.setup_req.b_request), port, s)

  -- `_handleXferEP0`
  unfoldable pub handle_xfer_ep0 : Xfer → Port → Shared → Outcome
  handle_xfer_ep0 xfer port s =
      let type = xfer.setup_req.bm_request_type in
      if not (bit_and type RequestType.type_mask == RequestType.type_class)
      then (refused not_class, port, s)
      else if not (bit_and type RequestType.recipient_mask == RequestType.recipient_interface)
      then (refused not_interface, port, s)
      else if bit_and type RequestType.direction_mask == RequestType.direction_out
      then handle_out xfer port s
      else if bit_and type RequestType.direction_mask == RequestType.direction_in
      then handle_in xfer port s
      else (refused bad_direction, port, s)

  -- `_handleXferEPX`: the bytes are only printed.
  unfoldable pub handle_xfer_epx : Xfer → Port → Shared → Outcome
  handle_xfer_epx xfer port s =
      if xfer.ep == endpoint_out2
      then (handled, port, s)
      else (refused (invalid_endpoint xfer.ep), port, s)

  -- `_handleXfer`
  unfoldable pub handle_xfer : Xfer → Port → Shared → Outcome
  handle_xfer xfer port s =
      if xfer.ep == 0 then handle_xfer_ep0 xfer port s else handle_xfer_epx xfer port s
