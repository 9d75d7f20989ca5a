-- ===== src/Device/Tests/Public.antt =====
-- Calls of the client on a device whose queue holds a command of an unknown kind.
use virtual_usb.Base.{ℕ, ◌*◌, ◌/◌, ◌%◌, ◌≡◌, ◌∙◌, refl, arith, [], ◌∷◌, true, some, none, bit_and}
use virtual_usb.Base.Bits.{bit_and_step, bit_and-zero}
use virtual_usb.Usbip.{zero_header}
use virtual_usb.Device.State.{Cmd, empty_cmd, Shared, initial, throws, invalid_usbip_command}
use virtual_usb.Device.Command.{handle_cmd}
use virtual_usb.Device.Client.{read_loop, read_now}
use virtual_usb.Device.Reset.{
  thread_exits, read_running_bit, write_running_bit, reset_enter, reset_waits,
}
use virtual_usb.Device.Public.{read, reset, err}
use virtual_usb.Device.Public.Errors.{reads, stops, writes, perform, performs, Waits, error_stays}
use virtual_usb.Device.Tests.{info}

-- Both threads end while `_reset` waits.
abbrev both_end : Shared → Shared
both_end s = thread_exits write_running_bit (thread_exits read_running_bit s)

bit_three : (a : ℕ) → bit_and a 8 ≡ a / 2 / 2 / 2 % 2 * 8
bit_three a = omega (
  arith,
  bit_and_step a 8,
  bit_and_step (a / 2) 4,
  bit_and_step (a / 2 / 2) 2,
  bit_and_step (a / 2 / 2 / 2) 1,
  bit_and-zero (a / 2 / 2 / 2 / 2),
)

-- A mask whose third bit is set keeps that bit.
kept_bit : (a m : ℕ) → m / 2 / 2 / 2 % 2 ≡ 1 → bit_and (bit_and a m) 8 ≡ bit_and a 8
kept_bit a m h = omega (
  arith,
  h,
  bit_three a,
  bit_three (bit_and a m),
  bit_and_step a m,
  bit_and_step (a / 2) (m / 2),
  bit_and_step (a / 2 / 2) (m / 2 / 2),
  bit_and_step (a / 2 / 2 / 2) (m / 2 / 2 / 2),
)

both_end-Waits : Waits both_end
unfolding thread_exits
both_end-Waits s = (refl, kept_bit (bit_and s.state 253) 251 refl ∙ kept_bit s.state 253 refl)

abbrev odd : Cmd
odd = record empty_cmd {
  header = record zero_header { base = record (zero_header.base) { command = 7 } };
}

abbrev busy : Shared
busy = record initial { state = 7; socket = some 5; cmds = odd ∷ odd ∷ [] }

odd_read : (perform both_end info true reads busy).0 ≡ some (invalid_usbip_command 7)
unfolding read read_now read_loop handle_cmd reset reset_enter reset_waits thread_exits
odd_read = refl

abbrev failed : Shared
failed = (perform both_end info true reads busy).1

error_stays_example :
    (err failed ≡ some (invalid_usbip_command 7))
    × (performs both_end info true (stops ∷ reads ∷ writes 0x81 none 0 ∷ []) failed ≡ failed)
    × ((read both_end info true failed).0 ≡ throws (invalid_usbip_command 7))
error_stays_example =
    error_stays both_end both_end-Waits info refl true reads
      (stops ∷ reads ∷ writes 0x81 none 0 ∷ []) busy (invalid_usbip_command 7) refl odd_read

-- The sockets are closed, and the threads have ended.
failed_state : (failed.state ≡ 9) × (failed.socket ≡ none)
unfolding read read_now read_loop handle_cmd reset reset_enter reset_waits thread_exits
failed_state = (refl, refl)
