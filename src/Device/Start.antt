-- ===== src/Device/Start.antt =====
-- `start` of VirtualUSBDevice.cpp, with the access to the vhci driver and the end by `_reset`.
pub mod Attaching
pub mod Ends
use virtual_usb.Base.{
  ℕ, zero, suc, List, [], ◌∷◌, Bool, true, false, not, Option, some, none, if◌then◌else◌, ◌==◌,
  bit_or,
}
use virtual_usb.Vhci.Status.{Parsed, done, failed, bug, undefined}
use virtual_usb.Vhci.Driver.{
  Driver, World, Answers, Files, Opened, returns, stops, usbip_vhci_driver_open,
  usbip_vhci_driver_close, usbip_vhci_get_free_port, usbip_vhci_attach_device2,
}
use virtual_usb.Device.State
use virtual_usb.Device.State.{
  Info, Error, Result, ok, throws, aborts, Shared, invalid_bcd_usb, socketpair_failed,
  driver_open_failed, no_free_port, attach_failed,
}
use virtual_usb.Device.Client.{speed_from_bcd_usb}
use virtual_usb.Device.Reset.{started_bit, reset_enter, reset_finish, threads_start}

-- `_DeviceID`
abbrev pub device_id : ℕ
device_id = 1

abbrev pub ebusy : ℕ
ebusy = 16

-- How the loop of attempts ends.
pub data Attached : Type 0 where
  attached no_port refused : Attached

module _ (files : ℕ → Files) (d : Driver) (socket speed : ℕ) where
  -- What follows an attempt: `again` is the rest of the loop.
  abbrev pub after_answer : Option Attached → Option ℕ → Option Attached
  after_answer again none = some attached
  after_answer again (some errno) = if errno == ebusy then again else some refused

  abbrev pub attempt : Option Attached → ℕ → Option ℕ → Option Attached
  attempt again i none = some no_port
  attempt again i (some port) =
      after_answer again (usbip_vhci_attach_device2 (files i) d port socket device_id speed)

  -- The loop, from attempt `i` on; `none` when `fuel` attempts have not ended it. The list of ports
  -- is the one that `usbip_vhci_driver_open` has read.
  unfoldable pub attach_loop : ℕ → ℕ → Option Attached
  attach_loop zero i = none
  attach_loop (suc fuel) i =
      let again = attach_loop fuel (suc i) in attempt again i (usbip_vhci_get_free_port speed d)

-- What `start` is told by the system: by `socketpair`, on opening the driver, and at each attempt.
pub record System : Type 0 where
  pub socketpair : Option (ℕ × ℕ)
  pub answers : Answers
  pub files : ℕ → Files

abbrev pub rethrown : Bool → Option Error → Result (Unit {0})
rethrown false e = ok tt
rethrown true none = State.undefined
rethrown true (some e) = throws e

abbrev pub after_reset : Bool → Shared → Shared
after_reset true s = reset_finish s
after_reset false s = s

-- Where `start` ends, with what the program holds and `_s`.
abbrev pub End : Type 0
End = Option (Result (Unit {0}) × World × Shared)

module _ (little : Bool) (info : Info) (sys : System) (fuel : ℕ) where
  -- The handler. No thread runs yet, so `_reset` does not wait.
  abbrev pub caught : Error → World → Shared → End
  caught e w s =
      let (goes_on, s1) = reset_enter e s in
      let s2 = after_reset goes_on s1 in some (rethrown info.throw_on_err s2.err, w, s2)

  abbrev pub start_attached : World → Shared → Option Attached → End
  start_attached w s none = none
  start_attached w s (some no_port) = caught no_free_port w s
  start_attached w s (some refused) = caught attach_failed w s
  start_attached w s (some attached) =
      some (ok tt, usbip_vhci_driver_close w, threads_start (record s { usbip_socket = none }))

  abbrev pub start_driver : ℕ → ℕ → World → Shared → Option Driver → End
  start_driver speed usbip w s none = some (State.undefined, w, s)
  start_driver speed usbip w s (some d) =
      start_attached w s (attach_loop sys.files d usbip speed fuel 0)

  abbrev pub start_opened : ℕ → ℕ → World → Shared → Opened → End
  start_opened speed usbip w s (returns true w') = start_driver speed usbip w' s w'.vhci_driver
  start_opened speed usbip w s (returns false w') = caught driver_open_failed w' s
  start_opened speed usbip w s (stops bug) = some (aborts, w, s)
  start_opened speed usbip w s (stops p) = some (State.undefined, w, s)

  abbrev pub start_sockets : ℕ → World → Shared → Option (ℕ × ℕ) → End
  start_sockets speed w s none = caught socketpair_failed w s
  start_sockets speed w s (some (a, b)) =
      start_opened speed b w (record s { socket = some a; usbip_socket = some b })
        (usbip_vhci_driver_open sys.answers w)

  abbrev pub start_speed : World → Shared → Option ℕ → End
  start_speed w s none = caught invalid_bcd_usb w s
  start_speed w s (some speed) = start_sockets speed w s sys.socketpair

  unfoldable pub start : World → Shared → End
  start w s =
      if not (s.state == 0)
      then some (aborts, w, s)
      else start_speed w (record s { state = bit_or s.state started_bit })
          (speed_from_bcd_usb little info.device_desc.bcd_device)
