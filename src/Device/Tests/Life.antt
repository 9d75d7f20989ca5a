-- ===== src/Device/Tests/Life.antt =====
-- The theorems on `start`, at a system whose port is busy twice.
use virtual_usb.Base.{
  ℕ, ◌<◌, ◌≡◌, refl, ap, ◌∙◌, true, [], ◌∷◌, some, none, arith, ltb, lt→ltb, if◌then◌else◌,
}
use virtual_usb.Vhci.Tests.{answers, before_open, after_open, opened_driver, opens, port_one}
use virtual_usb.Vhci.Driver.{
  Files, usbip_vhci_driver_close, usbip_vhci_get_free_port, usbip_vhci_attach_device2,
  write_sysfs_attribute,
}
use virtual_usb.Endian.{hfl_u16}
use virtual_usb.Device.State.{Info, Shared, initial, ok, throws, attach_failed}
use virtual_usb.Device.Client.{speed_from_bcd_usb}
use virtual_usb.Device.Start.{System, attached, refused, attach_loop, start, start_attached}
use virtual_usb.Device.Start.Attaching.{IsBusy, attach_loop_ends}
use virtual_usb.Device.Start.Ends.{
  StartEnd, Held, start_lem, start_leaks, start_to_loop, with_sockets,
}
use virtual_usb.Device.Reset.{reset_enter}
use virtual_usb.Device.Tests.{info, device}

abbrev busy_twice : ℕ → Files
busy_twice i = record {
  open_error = λ path. none;
  write_error = λ path line. if ltb i 2 then some 16 else none;
}

IsBusy-first : (j : ℕ) → j < 2 → IsBusy busy_twice opened_driver 6 5 1 j
unfolding usbip_vhci_attach_device2 write_sysfs_attribute
IsBusy-first j h = rw (lt→ltb j 2 h) refl

then_taken : usbip_vhci_attach_device2 (busy_twice 2) opened_driver 1 6 1 5 ≡ none
unfolding usbip_vhci_attach_device2 write_sysfs_attribute
then_taken = refl

attach_loop_ends_example : attach_loop busy_twice opened_driver 6 5 3 0 ≡ some attached
attach_loop_ends_example =
    attach_loop_ends busy_twice opened_driver 6 5 1 port_one 2 3 none (omega arith) IsBusy-first
      then_taken (λ e. cc)

-- A device of USB 3.0, and a system.
abbrev fast : Info
fast = record info { device_desc = record device { bcd_device = 0x0300 } }

abbrev system : (ℕ → Files) → System
system files = record { socketpair = some (5, 6); answers = answers; files = files }

abbrev refuses : ℕ → Files
refuses i = record { open_error = λ path. none; write_error = λ path line. some 22 }

refused_at_once : attach_loop refuses opened_driver 6 5 3 0 ≡ some refused
unfolding attach_loop usbip_vhci_get_free_port usbip_vhci_attach_device2 write_sysfs_attribute
refused_at_once = refl

fast_speed : speed_from_bcd_usb true 0x0300 ≡ some 5
unfolding speed_from_bcd_usb hfl_u16
fast_speed = refl

taken_at_third : attach_loop busy_twice opened_driver 6 5 3 0 ≡ some attached
unfolding attach_loop usbip_vhci_get_free_port usbip_vhci_attach_device2 write_sysfs_attribute
taken_at_third = refl

abbrev started : Shared
started = record initial { state = 7; socket = some 5 }

starts :
    start true fast (system busy_twice) 3 before_open initial ≡ some (ok tt, before_open, started)
unfolding usbip_vhci_driver_close
starts =
    start_to_loop true fast (system busy_twice) 3 before_open after_open initial opened_driver 5 5 6
      refl fast_speed refl refl opens refl
    ∙ ap (start_attached true fast (system busy_twice) 3 after_open (with_sockets 5 6 initial))
        taken_at_third

start_lem_example : StartEnd before_open (ok tt, before_open, started)
start_lem_example =
    start_lem true fast (system busy_twice) 3 before_open refl initial (ok tt, before_open, started)
      refl refl starts

abbrev left_over : Shared
left_over = record initial { state = 9; err = some attach_failed; shut_down = 5 ∷ 6 ∷ [] }

is_refused :
    start true fast (system refuses) 3 before_open initial
    ≡ some (throws attach_failed, after_open, left_over)
unfolding reset_enter
is_refused =
    start_to_loop true fast (system refuses) 3 before_open after_open initial opened_driver 5 5 6
      refl fast_speed refl refl opens refl
    ∙ ap (start_attached true fast (system refuses) 3 after_open (with_sockets 5 6 initial))
        refused_at_once

start_leaks_example : Held before_open after_open true
start_leaks_example =
    start_leaks true fast (system refuses) 3 before_open refl initial attach_failed after_open
      left_over refl refl is_refused
