-- ===== src/Usb/RequestType.antt =====
-- LIB/Toastbox/USB.h, namespace `RequestType`: the fields of bmRequestType.
use virtual_usb.Base.{ℕ}

abbrev pub direction_out : ℕ
direction_out = 0x00

abbrev pub direction_in : ℕ
direction_in = 0x80

abbrev pub direction_mask : ℕ
direction_mask = 0x80

abbrev pub type_standard : ℕ
type_standard = 0x00

abbrev pub type_class : ℕ
type_class = 0x20

abbrev pub type_mask : ℕ
type_mask = 0x60

abbrev pub recipient_device : ℕ
recipient_device = 0x00

abbrev pub recipient_interface : ℕ
recipient_interface = 0x01

abbrev pub recipient_mask : ℕ
recipient_mask = 0x1f
