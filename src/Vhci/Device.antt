-- ===== src/Vhci/Device.antt =====
-- The reading of a device's attributes.
use virtual_usb.Base.{ℕ, ◌-◌, ◌%◌, List, [], ◌∷◌, Option, some, none, if◌then◌else◌, take}
use virtual_usb.Text.{codes, same, scan_int, scan_signed, skip_space}
use virtual_usb.Vhci.{UsbDevice, UdevDevice, usb_speed_unknown, sysfs_path_max, sysfs_bus_id_size}

-- `speed_strings`
abbrev pub speed_strings : List (ℕ × List ℕ)
speed_strings =
    (0, codes "unknown")
    ∷ (1, codes "1.5")
    ∷ (2, codes "12")
    ∷ (3, codes "480")
    ∷ (4, codes "53.3-480")
    ∷ (5, codes "5000")
    ∷ []

abbrev pub find_speed : List ℕ → List (ℕ × List ℕ) → ℕ
find_speed speed [] = usb_speed_unknown
find_speed speed ((num, text) ∷ table) = if same speed text then num else find_speed speed table

abbrev pub speed_or_unknown : Option (List ℕ) → ℕ
speed_or_unknown none = usb_speed_unknown
speed_or_unknown (some speed) = find_speed speed speed_strings

unfoldable pub read_attr_speed : UdevDevice → ℕ
read_attr_speed dev = speed_or_unknown (dev.sysattr (codes "speed"))

-- The format of `sscanf`: `%0<w>x`, of at most `w` bytes, or `%d`.
pub data Format : Type 0 where
  hex : ℕ → Format
  dec : Format

abbrev pub scan : Format → List ℕ → Option (ℕ × List ℕ)
scan (hex w) s = scan_signed 16 (take w (skip_space s))
scan dec s = scan_int 10 s

abbrev pub num_or_zero : Option (ℕ × List ℕ) → ℕ
num_or_zero none = 0
num_or_zero (some (num, s)) = num

abbrev pub scan_attr : Format → Option (List ℕ) → ℕ
scan_attr format none = 0
scan_attr format (some attr) = num_or_zero (scan format attr)

unfoldable pub read_attr_value : UdevDevice → List ℕ → Format → ℕ
read_attr_value dev name format = scan_attr format (dev.sysattr name)

abbrev pub busnum_of : Option (ℕ × List ℕ) → Option ℕ
busnum_of none = none
busnum_of (some (num, s)) = some num

unfoldable pub read_usb_device : UdevDevice → UsbDevice
read_usb_device sdev = record {
  path = take (sysfs_path_max - 1) sdev.syspath;
  busid = take (sysfs_bus_id_size - 1) sdev.sysname;
  busnum = busnum_of (scan_int 10 sdev.sysname);
  devnum = read_attr_value sdev (codes "devnum") dec % 256;
  speed = read_attr_speed sdev;
  id_vendor = read_attr_value sdev (codes "idVendor") (hex 4) % 65536;
  id_product = read_attr_value sdev (codes "idProduct") (hex 4) % 65536;
  bcd_device = read_attr_value sdev (codes "bcdDevice") (hex 4) % 65536;
  b_device_class = read_attr_value sdev (codes "bDeviceClass") (hex 2) % 256;
  b_device_sub_class = read_attr_value sdev (codes "bDeviceSubClass") (hex 2) % 256;
  b_device_protocol = read_attr_value sdev (codes "bDeviceProtocol") (hex 2) % 256;
  b_configuration_value = read_attr_value sdev (codes "bConfigurationValue") (hex 2) % 256;
  b_num_configurations = read_attr_value sdev (codes "bNumConfigurations") (hex 2) % 256;
  b_num_interfaces = read_attr_value sdev (codes "bNumInterfaces") (hex 2) % 256;
}
