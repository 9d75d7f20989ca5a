-- ===== src/Usb/Endpoint.antt =====
-- LIB/Toastbox/USB.h, namespace `Endpoint`.
use virtual_usb.Base.{ℕ}

abbrev pub max_count : ℕ
max_count = 32

abbrev pub default_in : ℕ
default_in = 0x80

abbrev pub direction_in : ℕ
direction_in = 0x80

abbrev pub direction_mask : ℕ
direction_mask = 0x80

abbrev pub index_mask : ℕ
index_mask = 0x0f
