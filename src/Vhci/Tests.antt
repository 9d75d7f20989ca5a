-- ===== src/Vhci/Tests.antt =====
-- Runs of the access to the vhci driver, and the theorems about it at concrete answers.
use virtual_usb.Base.{
  ℕ, ◌≡◌, refl, List, [], ◌∷◌, ◌++◌, true, Option, some, none, if◌then◌else◌, arith,
}
use virtual_usb.Text.{codes, same, scan_int, scan_word}
use virtual_usb.Vhci.{
  hub_speed_high, hub_speed_super, ImportedDevice, UdevDevice, zero_imported_device,
  zero_usb_device,
}
use virtual_usb.Vhci.Device.{read_usb_device, read_attr_speed, read_attr_value}
use virtual_usb.Vhci.Status.{scan_row, bug, undefined, parse_status}
use virtual_usb.Vhci.Table.{Listed, IsListed, table}
use virtual_usb.Vhci.Driver.{
  Driver, World, Answers, returns, get_nports, get_ncontrollers, refresh_imported_device_list,
  usbip_vhci_driver_open, usbip_vhci_get_free_port, attach_line,
}
use virtual_usb.Vhci.RoundTrip.{fill, parse_status-table}
use virtual_usb.Vhci.RoundTrip.Fields.{NoLine}
use virtual_usb.Vhci.Ports.Open.{closed, open_close, open_free_port, IsFirstFree}

-- A port in use, and a free one on the other hub.
abbrev used_port : Listed
used_port = record {
  hub = hub_speed_high;
  port = 0;
  status = 6;
  speed = 2;
  devid = 0x0001_0002;
  sockfd = 7;
  busid = codes "1-1";
}

abbrev free_one : Listed
free_one = record {
  hub = hub_speed_super;
  port = 1;
  status = 4;
  speed = 0;
  devid = 0;
  sockfd = 0;
  busid = codes "0-0";
}

abbrev header : List ℕ
header = codes "hub"

abbrev keyboard : UdevDevice
keyboard = record {
  sysattr = λ name.
      if same name (codes "idVendor")
      then some (codes "1d6b\n")
      else if same name (codes "speed")
      then some (codes "480")
      else if same name (codes "devnum")
      then some (codes "2\n")
      else none;
  syspath = codes "/sys/devices/platform/vhci_hcd.0/usb1/1-1";
  sysname = codes "1-1";
}

abbrev find : List ℕ → Option UdevDevice
find busid = if same busid (codes "1-1") then some keyboard else none

abbrev two_zeros : List ImportedDevice
two_zeros = zero_imported_device ∷ zero_imported_device ∷ []

used_port-IsListed : IsListed used_port
used_port-IsListed = record {
  port_fits = omega arith;
  status_fits = omega arith;
  speed_fits = omega arith;
  devid_fits = omega arith;
  sockfd_fits = omega arith;
  busid_some = omega arith;
  busid_fits = omega arith;
  busid_word = (refl, (refl, (refl, tt)));
}

free_one-IsListed : IsListed free_one
free_one-IsListed = record {
  port_fits = omega arith;
  status_fits = omega arith;
  speed_fits = omega arith;
  devid_fits = omega arith;
  sockfd_fits = omega arith;
  busid_some = omega arith;
  busid_fits = omega arith;
  busid_word = (refl, (refl, (refl, tt)));
}

header-NoLine : NoLine header
header-NoLine = ((λ e. omega arith), ((λ e. omega arith), ((λ e. omega arith), tt)))

printed : table (used_port ∷ []) ≡ codes "hs  0000 006 002 00010002 000007 1-1\n"
printed = refl

parse_status-table_example :
    parse_status find (header ++ (10 ∷ table (used_port ∷ free_one ∷ []))) two_zeros
    ≡ fill find (used_port ∷ free_one ∷ []) two_zeros
parse_status-table_example =
    parse_status-table find header (used_port ∷ free_one ∷ []) two_zeros header-NoLine
      (used_port-IsListed, (free_one-IsListed, tt))

keyboard_read : read_usb_device keyboard ≡ record zero_usb_device {
  path = codes "/sys/devices/platform/vhci_hcd.0/usb1/1-1";
  busid = codes "1-1";
  busnum = some 1;
  devnum = 2;
  speed = 3;
  id_vendor = 0x1d6b;
}
unfolding read_usb_device read_attr_speed read_attr_value scan_int
keyboard_read = refl

-- Too few fields are a bug; the number of no port is a write out of the list.
cut_short : parse_status find (codes "hub\nhs  0000 004\n") two_zeros ≡ bug
unfolding parse_status scan_row scan_word scan_int
cut_short = refl

out_of_list :
    parse_status find (codes "hub\nhs  0002 004 000 00000000 000000 0-0\n") two_zeros ≡ undefined
unfolding parse_status scan_row scan_word scan_int
out_of_list = refl

abbrev hc : UdevDevice
hc = record {
  sysattr = λ name.
      if same name (codes "nports")
      then some (codes "2")
      else if same name (codes "status")
      then some (header ++ (10 ∷ table (used_port ∷ free_one ∷ [])))
      else none;
  syspath = codes "/sys/devices/platform/vhci_hcd.0";
  sysname = codes "vhci_hcd.0";
}

abbrev pub answers : Answers
answers = record {
  udev_new = true;
  hc_device = some hc;
  find = find;
  calloc = true;
  platform = true;
  scandir = some (codes "power" ∷ codes "vhci_hcd.0" ∷ []);
}

abbrev pub before_open : World
before_open = record { vhci_driver = none; contexts = 0; devices = 0; blocks = 0 }

abbrev used_device : ImportedDevice
used_device = record {
  hub = hub_speed_high;
  port = 0;
  status = 6;
  devid = 0x0001_0002;
  busnum = 1;
  devnum = 2;
  udev = record zero_usb_device {
    path = codes "/sys/devices/platform/vhci_hcd.0/usb1/1-1";
    busid = codes "1-1";
    busnum = some 1;
    devnum = 2;
    speed = 3;
    id_vendor = 0x1d6b;
  };
}

abbrev pub opened_driver : Driver
opened_driver = record {
  hc_device = hc;
  ncontrollers = 1;
  nports = 2;
  idev =
      used_device
      ∷ record zero_imported_device { hub = hub_speed_super; port = 1; status = 4 }
      ∷ [];
}

abbrev pub after_open : World
after_open = record { vhci_driver = some opened_driver; contexts = 1; devices = 1; blocks = 1 }

pub opens : usbip_vhci_driver_open answers before_open ≡ returns true after_open
unfolding usbip_vhci_driver_open get_nports get_ncontrollers refresh_imported_device_list
    parse_status scan_row scan_word scan_int read_usb_device read_attr_speed read_attr_value
opens = refl

pub port_one : usbip_vhci_get_free_port 5 opened_driver ≡ some 1
unfolding usbip_vhci_get_free_port
port_one = refl

no_high_port : usbip_vhci_get_free_port 3 opened_driver ≡ none
unfolding usbip_vhci_get_free_port
no_high_port = refl

open_close_example : closed true after_open ≡ before_open
open_close_example = open_close before_open refl answers true after_open opens

open_free_port_example : IsFirstFree 5 opened_driver 1
open_free_port_example =
    open_free_port before_open answers after_open opened_driver 5 1 refl opens refl port_one

attach_text : attach_line 1 6 1 5 ≡ codes "1 6 1 5"
unfolding attach_line
attach_text = refl
