-- ===== src/Example/Tests.antt =====
-- The theorems on the example, at concrete requests.
use virtual_usb.Base.{ℕ, List, ◌≡◌, ◌≢◌, refl, true, [], ◌∷◌, some, none, arith, bit_and}
use virtual_usb.Usb.RequestType
use virtual_usb.Usb.Strings.{string_descriptor, ascii_string, ascii_string-string_descriptor}
use virtual_usb.Device.State.{Cmd, ok, initial}
use virtual_usb.Device.Command.{handle_cmd, get_setup_request}
use virtual_usb.Device.Command.Out.{setup_bytes}
use virtual_usb.Example.Descriptors.{example_info}
use virtual_usb.Example.Handlers.{LineCoding, Port}
use virtual_usb.Example.Coding.{set_line_coding_request, line_coding_bytes, waiting, class_in_waits}

abbrev control : ℕ → List ℕ → List ℕ → Cmd
control direction setup payload = record {
  header = record {
    base = record { command = 1; seqnum = 3; devid = 1; direction = direction; ep = 0 };
    cmd_submit = record {
      transfer_flags = 0;
      transfer_buffer_length = 7;
      start_frame = 0;
      number_of_packets = 0;
      interval = 0;
      setup = setup;
    };
  };
  payload = payload;
  payload_len = 7;
}

ascii_string-string_descriptor_example :
    ascii_string true (string_descriptor true (72 ∷ 105 ∷ [])) ≡ some (72 ∷ 105 ∷ [])
ascii_string-string_descriptor_example =
    ascii_string-string_descriptor true (72 ∷ 105 ∷ []) (omega arith)
      (omega arith, (omega arith, tt))

-- 9600 baud, one stop bit, no parity, 8 data bits
abbrev coding : LineCoding
coding = record { dw_dte_rate = 9600; b_char_format = 0; b_parity_type = 0; b_data_bits = 8 }

abbrev port : Port
port = record {
  line_coding = record { dw_dte_rate = 0; b_char_format = 0; b_parity_type = 0; b_data_bits = 0 };
  dte_present = true;
}

abbrev coding_cmd : Cmd
coding_cmd = control 0 (setup_bytes (set_line_coding_request 0)) (line_coding_bytes coding)

-- GET_LINE_CODING
abbrev get_coding : Cmd
get_coding = control 1 (0xa1 ∷ 0x21 ∷ 0 ∷ 0 ∷ 0 ∷ 0 ∷ 7 ∷ 0 ∷ []) []

get_coding_class :
    bit_and (get_setup_request true get_coding).bm_request_type RequestType.type_mask ≢ 0
unfolding get_setup_request
get_coding_class = omega arith

class_in_waits_example :
    handle_cmd true (example_info true) get_coding initial
    ≡ (ok none, waiting true get_coding initial)
class_in_waits_example =
    class_in_waits true (example_info true) get_coding initial refl refl refl get_coding_class refl
