-- ===== src/Usb/Request.antt =====
-- LIB/Toastbox/USB.h, namespace `Request`: the values of bRequest that the device looks at.
use virtual_usb.Base.{ℕ}

abbrev pub get_status : ℕ
get_status = 0

abbrev pub get_descriptor : ℕ
get_descriptor = 6

abbrev pub set_configuration : ℕ
set_configuration = 9
