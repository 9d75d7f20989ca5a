-- ===== src/Vhci/Driver.antt =====
-- Opening and closing the driver, the free port, and the attachment of a port.
use virtual_usb.Base.{
  ℕ, suc, zero, ◌+◌, ◌-◌, ◌%◌, ◌^◌, List, [], ◌∷◌, ◌++◌, Bool, true, false, not, ◌&&◌, ◌||◌, Option,
  some, none, ltb, ◌==◌, if◌then◌else◌, take, replicate,
}
use virtual_usb.Text.{codes, same, skip_space, scan_number, decimal, decimal_int}
use virtual_usb.Vhci.{
  HubSpeed, hub_speed_high, hub_speed_super, ImportedDevice, UdevDevice, zero_imported_device,
  vdev_st_null, usb_speed_super, sysfs_path_max,
}
use virtual_usb.Vhci.Status.{Parsed, done, failed, bug, undefined, go_on, parse_status}

-- `usbip_vhci_driver`
pub record Driver : Type 0 where
  pub hc_device : UdevDevice
  pub ncontrollers : ℕ
  pub nports : ℕ
  pub idev : List ImportedDevice

-- `vhci_driver`, and how many references to contexts and devices of libudev and how many blocks of
-- memory the program holds.
pub record World : Type 0 where
  pub vhci_driver : Option Driver
  pub contexts : ℕ
  pub devices : ℕ
  pub blocks : ℕ

-- What `usbip_vhci_driver_open` is told: by `udev_new`, by `udev_device_new_from_subsystem_sysname`
-- for the driver's device and for a bus id, by `calloc`, and by `udev_device_get_parent` and `scandir`
-- (without its filter).
pub record Answers : Type 0 where
  pub udev_new : Bool
  pub hc_device : Option UdevDevice
  pub find : List ℕ → Option UdevDevice
  pub calloc : Bool
  pub platform : Bool
  pub scandir : Option (List (List ℕ))

-- `(int)strtoul(s, NULL, 10)`
abbrev pub saturate : ℕ → ℕ
saturate n = if ltb n (2 ^ 64) then n else 2 ^ 64 - 1

abbrev pub unsigned_long : Bool → Option (ℕ × List ℕ) → ℕ
unsigned_long minus none = 0
unsigned_long minus (some (n, s)) =
    if minus && ltb n (2 ^ 64) then (2 ^ 64 - n) % 2 ^ 64 else saturate n

abbrev pub strtoul_signed : List ℕ → ℕ
strtoul_signed [] = 0
strtoul_signed (b ∷ s) =
    if b == b'-'
    then unsigned_long true (scan_number 10 s)
    else if b == b'+'
    then unsigned_long false (scan_number 10 s)
    else unsigned_long false (scan_number 10 (b ∷ s))

abbrev pub int_strtoul : List ℕ → ℕ
int_strtoul s = strtoul_signed (skip_space s) % 2 ^ 32

-- -1 as a 32-bit pattern.
abbrev pub minus_one : ℕ
minus_one = 2 ^ 32 - 1

-- `n <= 0`, of an `int`.
abbrev pub not_positive : ℕ → Bool
not_positive n = (n == 0) || not (ltb n (2 ^ 31))

abbrev pub nports_of : Option (List ℕ) → ℕ
nports_of none = minus_one
nports_of (some attr) = int_strtoul attr

unfoldable pub get_nports : UdevDevice → ℕ
get_nports hc_device = nports_of (hc_device.sysattr (codes "nports"))

abbrev pub vhci_hcd_filter : List ℕ → Bool
vhci_hcd_filter name = same (take 9 name) (codes "vhci_hcd.")

abbrev pub count : List (List ℕ) → ℕ
count [] = 0
count (name ∷ names) = if vhci_hcd_filter name then suc (count names) else count names

abbrev pub count_or_minus_one : Option (List (List ℕ)) → ℕ
count_or_minus_one none = minus_one
count_or_minus_one (some names) = count names

unfoldable pub get_ncontrollers : Answers → ℕ
get_ncontrollers a = if a.platform then count_or_minus_one a.scandir else minus_one

abbrev pub status_name : ℕ → List ℕ
status_name i = if ltb 0 i then take 18 (codes "status." ++ decimal i) else codes "status"

module _ (find : List ℕ → Option UdevDevice) where
  abbrev pub parse_attr : Option (List ℕ) → List ImportedDevice → Parsed
  parse_attr none idevs = failed idevs
  parse_attr (some value) idevs = parse_status find value idevs

  -- The loop of `refresh_imported_device_list`, with `n` controllers to go.
  abbrev pub refresh_from : UdevDevice → ℕ → ℕ → List ImportedDevice → Parsed
  refresh_from hc i zero idevs = done idevs
  refresh_from hc i (suc n) idevs =
      go_on (parse_attr (hc.sysattr (status_name i)) idevs) (refresh_from hc (suc i) n)

  unfoldable pub refresh_imported_device_list : Driver → Parsed
  refresh_imported_device_list d = refresh_from d.hc_device 0 d.ncontrollers d.idev

-- How `usbip_vhci_driver_open` ends: it returns 0 (`true`) or -1, or does not return.
pub data Opened : Type 0 where
  returns : Bool → World → Opened
  stops : Parsed → Opened

abbrev pub one : {A : Type 0} → Option A → ℕ
one none = 0
one (some x) = 1

-- The label `err`, with the device that has been opened.
abbrev pub open_fails : Option UdevDevice → World → Opened
open_fails hc w = returns false (record {
  vhci_driver = none;
  contexts = w.contexts - 1;
  devices = w.devices - one hc;
  blocks = w.blocks - one w.vhci_driver;
})

abbrev pub open_refreshed : Driver → World → Parsed → Opened
open_refreshed d w (done idevs) =
    returns true (record w { vhci_driver = some (record d { idev = idevs }) })
open_refreshed d w (failed idevs) = open_fails (some d.hc_device) w
open_refreshed d w bug = stops bug
open_refreshed d w undefined = stops undefined

-- From the count of the controllers on.
abbrev pub open_driver : Answers → Driver → World → Opened
open_driver a d w =
    if not_positive d.ncontrollers
    then open_fails (some d.hc_device) w
    else open_refreshed d w (refresh_imported_device_list a.find d)

-- From the count of the ports on.
abbrev pub open_ports : Answers → UdevDevice → ℕ → World → Opened
open_ports a hc nports w =
    let d : Driver = record {
      hc_device = hc;
      ncontrollers = get_ncontrollers a;
      nports = nports;
      idev = replicate nports zero_imported_device;
    } in
    if not_positive nports
    then open_fails (some hc) w
    else if not a.calloc
    then open_fails (some hc) (record w { vhci_driver = none })
    else open_driver a d (record w { vhci_driver = some d; blocks = w.blocks + 1 })

abbrev pub open_device : Answers → Option UdevDevice → World → Opened
open_device a none w = open_fails none w
open_device a (some hc) w = open_ports a hc (get_nports hc) (record w { devices = w.devices + 1 })

unfoldable pub usbip_vhci_driver_open : Answers → World → Opened
usbip_vhci_driver_open a w =
    if not a.udev_new
    then returns false w
    else open_device a a.hc_device (record w { contexts = w.contexts + 1 })

abbrev pub close_driver : Option Driver → World → World
close_driver none w = w
close_driver (some d) w = record {
  vhci_driver = none;
  contexts = w.contexts - 1;
  devices = w.devices - 1;
  blocks = w.blocks - 1;
}

unfoldable pub usbip_vhci_driver_close : World → World
usbip_vhci_driver_close w = close_driver w.vhci_driver w

abbrev pub same_hub : HubSpeed → HubSpeed → Bool
same_hub hub_speed_high hub_speed_high = true
same_hub hub_speed_super hub_speed_super = true
same_hub hub_speed_high hub_speed_super = false
same_hub hub_speed_super hub_speed_high = false

abbrev pub hub_for : ℕ → HubSpeed
hub_for speed = if speed == usb_speed_super then hub_speed_super else hub_speed_high

-- The loop of `usbip_vhci_get_free_port`; `none` is -1.
abbrev pub free_port : ℕ → List ImportedDevice → Option ℕ
free_port speed [] = none
free_port speed (idev ∷ idevs) =
    if not (same_hub idev.hub (hub_for speed))
    then free_port speed idevs
    else if idev.status == vdev_st_null
    then some idev.port
    else free_port speed idevs

unfoldable pub usbip_vhci_get_free_port : ℕ → Driver → Option ℕ
usbip_vhci_get_free_port speed d = free_port speed d.idev

-- What `usbip_vhci_attach_device2` writes, and where to.
unfoldable pub attach_line : ℕ → ℕ → ℕ → ℕ → List ℕ
attach_line port sockfd devid speed = take 199 (
    decimal port
    ++ (codes " "
        ++ (decimal_int sockfd ++ (codes " " ++ (decimal devid ++ (codes " " ++ decimal speed))))))

abbrev pub attach_path : Driver → List ℕ
attach_path d = take (sysfs_path_max - 1) (d.hc_device.syspath ++ codes "/attach")

-- The answers of `open` and `write`: the error that the call reports, or none.
pub record Files : Type 0 where
  pub open_error : List ℕ → Option ℕ
  pub write_error : List ℕ → List ℕ → Option ℕ

abbrev pub or_else : Option ℕ → Option ℕ → Option ℕ
or_else none e = e
or_else (some e) e' = some e

-- The error that `errno` holds when it returns -1.
unfoldable pub write_sysfs_attribute : Files → List ℕ → List ℕ → Option ℕ
write_sysfs_attribute files path value =
    or_else (files.open_error path) (files.write_error path value)

unfoldable pub usbip_vhci_attach_device2 : Files → Driver → ℕ → ℕ → ℕ → ℕ → Option ℕ
usbip_vhci_attach_device2 files d port sockfd devid speed =
    write_sysfs_attribute files (attach_path d) (attach_line (port % 256) sockfd devid speed)
