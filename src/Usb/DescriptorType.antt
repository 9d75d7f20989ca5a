-- ===== src/Usb/DescriptorType.antt =====
-- LIB/Toastbox/USB.h, namespace `DescriptorType`.
use virtual_usb.Base.{ℕ}

abbrev pub device : ℕ
device = 1

abbrev pub configuration : ℕ
configuration = 2

abbrev pub string : ℕ
string = 3

abbrev pub device_qualifier : ℕ
device_qualifier = 6
