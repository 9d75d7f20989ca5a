-- ===== src/Device/Public.antt =====
-- `read` with a timeout of zero, `write`, `stop` and `err` as the client calls them, with the handler
-- of their exceptions. While `_reset` waits the threads go on: `wakes` gives the state in which the
-- wait ends.
pub mod Keeps
pub mod Errors
pub mod Reading
use virtual_usb.Base.{ℕ, Bool, true, false, List, Option, none, some, if◌then◌else◌}
use virtual_usb.Device.State.{
  Xfer, Error, Info, Shared, M, Result, ok, throws, aborts, undefined, stopped,
}
use virtual_usb.Device.Transfer.{write_body}
use virtual_usb.Device.Client.{read_now}
use virtual_usb.Device.Reset.{reset_enter, reset_waits, reset_finish}

-- `std::rethrow_exception(_s.err)`, or the value that is returned otherwise.
abbrev pub rethrow_or : {A : Type 0} → A → Bool → Option Error → Result A
rethrow_or a false e = ok a
rethrow_or a true none = undefined
rethrow_or a true (some e) = throws e

-- `err`
unfoldable pub err : Shared → Option Error
err s = s.err

module _ (wakes : Shared → Shared) where
  abbrev pub reset_wait : Bool → Shared → Shared
  reset_wait false s = s
  reset_wait true s = reset_finish (if reset_waits s then wakes s else s)

  -- `_reset`
  unfoldable pub reset : Error → Shared → Shared
  reset e s = let (goes_on, s1) = reset_enter e s in reset_wait goes_on s1

  -- `stop`
  unfoldable pub stop : Shared → Shared
  stop s = reset stopped s

  module _ (info : Info) where
    abbrev pub after_throw : {A : Type 0} → A → Shared → Result A × Shared
    after_throw a s = (rethrow_or a info.throw_on_err s.err, s)

    -- The handler of an exception; `a` is what the call returns if it does not throw.
    abbrev pub caught : {A : Type 0} → A → Result A × Shared → Result A × Shared
    caught a (ok b, s) = (ok b, s)
    caught a (throws e, s) = after_throw a (reset e s)
    caught a (aborts, s) = (aborts, s)
    caught a (undefined, s) = (undefined, s)

    module _ (little : Bool) where
      unfoldable pub read : M (Option Xfer)
      read s = caught none (read_now little info s)

      unfoldable pub write : ℕ → Option (List ℕ) → ℕ → M (Unit {0})
      write ep p len s = caught tt (write_body little ep p len s)
