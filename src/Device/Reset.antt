-- ===== src/Device/Reset.antt =====
-- `_reset`, and the ends of the two threads, of VirtualUSBDevice.cpp. `_reset` waits on the signal in
-- the middle, so it is two critical sections. The sockets that are shut down are part of the
-- state; what that does to `recv` and `send` is said where they are.
pub mod Threads
pub mod Stopping
pub mod Ending
use virtual_usb.Base.{
  ℕ, ◌-◌, ◌++◌, List, [], ◌∷◌, Bool, true, false, not, Option, some, none, if◌then◌else◌, ◌==◌,
  bit_and, bit_or,
}
use virtual_usb.Device.State.{Error, Shared}

-- `_State`
abbrev pub started_bit : ℕ
started_bit = 1

abbrev pub read_running_bit : ℕ
read_running_bit = 2

abbrev pub write_running_bit : ℕ
write_running_bit = 4

abbrev pub reset_bit : ℕ
reset_bit = 8

-- `if (s >= 0) shutdown(s, SHUT_RDWR)`
abbrev pub shut : Option ℕ → List ℕ → List ℕ
shut none sockets = sockets
shut (some s) sockets = sockets ++ (s ∷ [])

-- `_reset` up to its wait: whether it goes on, and the state.
unfoldable pub reset_enter : Error → Shared → Bool × Shared
reset_enter e s = if not (bit_and s.state reset_bit == 0) then (false, s) else (
  true,
  record s {
    state = bit_or s.state reset_bit;
    err = some e;
    shut_down = shut s.usbip_socket (shut s.socket s.shut_down);
  },
)

-- The condition on which `_reset` waits.
unfoldable pub reset_waits : Shared → Bool
reset_waits s = not (bit_and s.state (bit_or read_running_bit write_running_bit) == 0)

-- `_reset` after its wait: the sockets are closed.
abbrev pub reset_finish : Shared → Shared
reset_finish s = record s { socket = none; usbip_socket = none }

-- `_s.state &= ~bit`, where a thread ends.
unfoldable pub thread_exits : ℕ → Shared → Shared
thread_exits bit s = record s { state = bit_and s.state (255 - bit) }

-- The end of `start`, when all has gone well: both threads run.
abbrev pub threads_start : Shared → Shared
threads_start s = record s {
  state = bit_or (bit_or s.state started_bit) (bit_or read_running_bit write_running_bit);
}
