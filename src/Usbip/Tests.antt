-- ===== src/Usbip/Tests.antt =====
-- The theorem on the header's encoding, at a concrete header.
use virtual_usb.Base.{◌≡◌, true, replicate}
use virtual_usb.Usbip.{Header, store_header}
use virtual_usb.Usbip.Wire.{wire_header, to_wire, store_header-to_wire}

abbrev header : Header
header = record {
  base = record { command = 1; seqnum = 0x12345678; devid = 1; direction = 1; ep = 2 };
  cmd_submit = record {
    transfer_flags = 0;
    transfer_buffer_length = 64;
    start_frame = 0;
    number_of_packets = 0;
    interval = 0;
    setup = replicate 8 0;
  };
}

store_header-to_wire_example : store_header true (to_wire true header) ≡ wire_header header
store_header-to_wire_example = store_header-to_wire true header
