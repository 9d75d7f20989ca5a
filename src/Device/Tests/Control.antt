-- ===== src/Device/Tests/Control.antt =====
-- The theorems on the standard requests to endpoint 0, at concrete inputs.
use virtual_usb.Base.{ℕ, ◌≡◌, refl, inr, true, [], some, arith, take, min}
use virtual_usb.Endian.{hfl_u16, store16}
use virtual_usb.Usb.{SetupRequest, configuration_memory}
use virtual_usb.Device.State.{Cmd, Shared, initial, undefined}
use virtual_usb.Device.Reply.Ends.{IsEndAt}
use virtual_usb.Device.Standard.{
  configuration_len, get_descriptor, set_configuration, handle_standard_request,
}
use virtual_usb.Device.Standard.Ends.{handle_standard_request-IsEnd}
use virtual_usb.Device.Standard.Descriptors.{
  replied, configuration_reply, device_overread, unknown_type_succeeds,
}
use virtual_usb.Device.Standard.Selection.{IsSelected, set_configuration-IsSelected}
use virtual_usb.Device.Tests.{submit, configuration, info}

abbrev in_request : ℕ → ℕ → ℕ → SetupRequest
in_request request value len = record {
  bm_request_type = 0x80;
  b_request = request;
  w_value = value;
  w_index = 0;
  w_length = len;
}

-- The host asks endpoint 0 for data.
abbrev control_in : Cmd
control_in = submit 3 1 0 255

handle_standard_request-IsEnd_example :
    IsEndAt true control_in initial
      (handle_standard_request true info control_in (in_request 6 0x0200 9) initial)
handle_standard_request-IsEnd_example =
    handle_standard_request-IsEnd true info control_in (in_request 6 0x0200 9) initial

configuration_reply_example :
    get_descriptor true info control_in (in_request 6 0x0200 9) initial
    ≡ replied true info control_in (in_request 6 0x0200 9) initial (
        take
          (min (configuration_len true info configuration) 9)
          (configuration_memory true configuration))
unfolding hfl_u16 configuration_memory store16
configuration_reply_example =
    configuration_reply true info control_in (in_request 6 0x0200 9) initial 0 configuration
      (record {
        command = refl;
        direction = refl;
        value = refl;
        type_byte = omega arith;
        idx_byte = omega arith;
      })
      (omega arith) refl (omega arith)

device_overread_example :
    get_descriptor true info control_in (in_request 6 0x0100 64) initial ≡ (undefined, initial)
unfolding hfl_u16
device_overread_example =
    device_overread true info control_in (in_request 6 0x0100 64) initial 0 configuration
      (record {
        command = refl;
        direction = refl;
        value = refl;
        type_byte = omega arith;
        idx_byte = omega arith;
      })
      refl (omega arith) (omega arith)

-- The BOS descriptor, of type 15.
unknown_type_succeeds_example :
    get_descriptor true info control_in (in_request 6 0x0f00 5) initial
    ≡ replied true info control_in (in_request 6 0x0f00 5) initial []
unknown_type_succeeds_example =
    unknown_type_succeeds true info control_in (in_request 6 0x0f00 5) initial 15 0
      (record {
        command = refl;
        direction = refl;
        value = refl;
        type_byte = omega arith;
        idx_byte = omega arith;
      })
      (omega arith) (omega arith) (omega arith) (omega arith)

set_configuration-IsSelected_example :
    IsSelected true info
      (submit 3 0 0 0)
      initial
      1
      (set_configuration true info (submit 3 0 0 0) (in_request 9 1 0) 0 initial)
set_configuration-IsSelected_example =
    set_configuration-IsSelected true info (submit 3 0 0 0) initial (in_request 9 1 0) refl
      (inr refl) (omega arith)

abbrev configured : Shared
configured = record initial { config_desc = some configuration }
