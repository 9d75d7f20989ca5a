-- ===== src/Vhci.antt =====
-- USBIPLib.cpp and the types of USBIPLib.h: the access to the kernel's vhci driver. What libudev and
-- the kernel answer are arguments; a text is a list of bytes.
pub mod Tests
pub mod Device
pub mod Status
pub mod Driver
pub mod Table
pub mod RoundTrip
pub mod Ports
pub mod Attach
use virtual_usb.Base.{ℕ, List, [], Option, some, none}

-- `enum hub_speed`
pub data HubSpeed : Type 0 where
  hub_speed_high hub_speed_super : HubSpeed

-- The states of a port in `enum usbip_status`.
abbrev pub vdev_st_null : ℕ
vdev_st_null = 4

abbrev pub vdev_st_notassigned : ℕ
vdev_st_notassigned = 5

-- `enum usb_device_speed`
abbrev pub usb_speed_unknown : ℕ
usb_speed_unknown = 0

abbrev pub usb_speed_super : ℕ
usb_speed_super = 5

abbrev pub sysfs_path_max : ℕ
sysfs_path_max = 256

abbrev pub sysfs_bus_id_size : ℕ
sysfs_bus_id_size = 32

-- `usbip_usb_device`. `busnum` is `none` when nothing has set it.
pub record UsbDevice : Type 0 where
  pub path : List ℕ
  pub busid : List ℕ
  pub busnum : Option ℕ
  pub devnum : ℕ
  pub speed : ℕ
  pub id_vendor : ℕ
  pub id_product : ℕ
  pub bcd_device : ℕ
  pub b_device_class : ℕ
  pub b_device_sub_class : ℕ
  pub b_device_protocol : ℕ
  pub b_configuration_value : ℕ
  pub b_num_configurations : ℕ
  pub b_num_interfaces : ℕ

-- `usbip_imported_device`
pub record ImportedDevice : Type 0 where
  pub hub : HubSpeed
  pub port : ℕ
  pub status : ℕ
  pub devid : ℕ
  pub busnum : ℕ
  pub devnum : ℕ
  pub udev : UsbDevice

-- What `memset` and `calloc` leave.
abbrev pub zero_usb_device : UsbDevice
zero_usb_device = record {
  path = [];
  busid = [];
  busnum = some 0;
  devnum = 0;
  speed = 0;
  id_vendor = 0;
  id_product = 0;
  bcd_device = 0;
  b_device_class = 0;
  b_device_sub_class = 0;
  b_device_protocol = 0;
  b_configuration_value = 0;
  b_num_configurations = 0;
  b_num_interfaces = 0;
}

abbrev pub zero_imported_device : ImportedDevice
zero_imported_device = record {
  hub = hub_speed_high;
  port = 0;
  status = 0;
  devid = 0;
  busnum = 0;
  devnum = 0;
  udev = zero_usb_device;
}

-- The answers of libudev about a device: `udev_device_get_sysattr_value`, `udev_device_get_syspath`
-- and `udev_device_get_sysname`.
pub record UdevDevice : Type 0 where
  pub sysattr : List ℕ → Option (List ℕ)
  pub syspath : List ℕ
  pub sysname : List ℕ
