-- ===== src/Vhci/Status.antt =====
-- `parse_status`: the rows of a status file fill the list of ports.
use virtual_usb.Base.{
  ℕ, suc, zero, ◌/◌, ◌%◌, List, [], ◌∷◌, Bool, true, false, not, ◌&&◌, Option, some, none, ltb,
  ◌==◌, if◌then◌else◌, length, take,
}
use virtual_usb.Text.{◌>>=◌, codes, same, after, scan_int, scan_word}
use virtual_usb.Vhci.{
  hub_speed_high, hub_speed_super, ImportedDevice, UdevDevice, zero_imported_device, vdev_st_null,
  vdev_st_notassigned,
}
use virtual_usb.Vhci.Device.{read_usb_device}

-- What a row of the file holds: `lbusid` is `none` when `sscanf` has not reached it.
pub record Row : Type 0 where
  pub hub : List ℕ
  pub port : ℕ
  pub status : ℕ
  pub speed : ℕ
  pub devid : ℕ
  pub lbusid : Option (List ℕ)

abbrev pub scan_lbusid : List ℕ → Option (List ℕ)
scan_lbusid s = do (sockfd, s1) ← scan_int 10 s; (lbusid, s2) ← scan_word 31 s1; some lbusid

-- `sscanf(c, "%2s  %d %d %d %x %u %31s\n", ...)`: `none` when fewer than five are read.
unfoldable pub scan_row : List ℕ → Option Row
scan_row c = do
  (hub, s1) ← scan_word 2 c
  (port, s2) ← scan_int 10 s1
  (status, s3) ← scan_int 10 s2
  (speed, s4) ← scan_int 10 s3
  (devid, s5) ← scan_int 16 s4
  some (record {
    hub = hub;
    port = port;
    status = status;
    speed = speed;
    devid = devid;
    lbusid = scan_lbusid s5;
  })

-- How the parsing goes: the list of ports as it is when it goes well or returns an error, `BUG()`, or
-- a write out of the list, or the use of a text that nothing has set.
pub data Parsed : Type 0 where
  done : List ImportedDevice → Parsed
  failed : List ImportedDevice → Parsed
  bug : Parsed
  undefined : Parsed

abbrev pub put : ℕ → ImportedDevice → List ImportedDevice → List ImportedDevice
put n d [] = []
put zero d (x ∷ xs) = d ∷ xs
put (suc n) d (x ∷ xs) = x ∷ put n d xs

abbrev pub entry : Row → ImportedDevice
entry r = record zero_imported_device {
  hub = if same (take 2 r.hub) (codes "hs") then hub_speed_high else hub_speed_super;
  port = r.port % 256;
  status = r.status;
  devid = r.devid;
  busnum = r.devid / 65536 % 256;
  devnum = r.devid % 65536 % 256;
}

abbrev pub go_on : Parsed → (List ImportedDevice → Parsed) → Parsed
go_on (done idevs) next = next idevs
go_on (failed idevs) next = failed idevs
go_on bug next = bug
go_on undefined next = undefined

module _ (find : List ℕ → Option UdevDevice) where
  -- `imported_device_init`: the device that `udev_device_new_from_subsystem_sysname` has for a bus id.
  abbrev pub imported_device_init : ImportedDevice → Option UdevDevice → Option ImportedDevice
  imported_device_init idev none = none
  imported_device_init idev (some sudev) = some (record idev { udev = read_usb_device sudev })

  abbrev pub store_init : ℕ → ImportedDevice → List ImportedDevice → Option ImportedDevice → Parsed
  store_init port idev idevs none = failed (put port idev idevs)
  store_init port idev idevs (some d) = done (put port d idevs)

  abbrev pub look_up : ℕ → ImportedDevice → List ImportedDevice → Option (List ℕ) → Parsed
  look_up port idev idevs none = undefined
  look_up port idev idevs (some lbusid) =
      store_init port idev idevs (imported_device_init idev (find lbusid))

  -- The body of the loop, behind `sscanf`.
  abbrev pub store_row : Row → List ImportedDevice → Parsed
  store_row r idevs =
      if not (ltb r.port (length idevs))
      then undefined
      else if not (r.status == vdev_st_null) && not (r.status == vdev_st_notassigned)
      then look_up r.port (entry r) idevs r.lbusid
      else done (put r.port (entry r) idevs)

  abbrev pub row_or_bug : Option Row → List ImportedDevice → Parsed
  row_or_bug none idevs = bug
  row_or_bug (some r) idevs = store_row r idevs

  -- The loop, on what is left of the text: at the start of a line, or on the way to the next line.
  abbrev pub parse_rows : Bool → List ℕ → List ImportedDevice → Parsed
  parse_rows start [] idevs = done idevs
  parse_rows true (b ∷ s) idevs =
      go_on (row_or_bug (scan_row (b ∷ s)) idevs) (parse_rows (b == b'\n') s)
  parse_rows false (b ∷ s) idevs = parse_rows (b == b'\n') s idevs

  abbrev pub parse_after_header : Option (List ℕ) → List ImportedDevice → Parsed
  parse_after_header none idevs = failed idevs
  parse_after_header (some c) idevs = parse_rows true c idevs

  unfoldable pub parse_status : List ℕ → List ImportedDevice → Parsed
  parse_status value idevs = parse_after_header (after b'\n' value) idevs
