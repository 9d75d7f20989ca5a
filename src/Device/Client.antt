-- ===== src/Device/Client.antt =====
-- What the client calls: `read` with a timeout of zero, up to its handler of exceptions, and the
-- speed that `start` asks the driver for.
pub mod Speed
use virtual_usb.Base.{ℕ, Bool, List, [], ◌∷◌, Option, some, none, if◌then◌else◌, ◌==◌}
use virtual_usb.Endian.{hfl_u16}
use virtual_usb.Device.State.{Cmd, Xfer, Info, Shared, M, ok, ◌>>=◌, ◌>>◌, pure}
use virtual_usb.Device.Transfer.{rethrow}
use virtual_usb.Device.Command.{handle_cmd}

-- `_s.cmds.pop_front()`, where `cmds` are behind the front.
abbrev pub set_cmds : List Cmd → M (Unit {0})
set_cmds cmds s = (ok tt, record s { cmds = cmds })

module _ (little : Bool) (info : Info) where
  -- The loop of `read`. Its list is `_s.cmds`: each round pops the front, and no handler touches it.
  -- The lock is held throughout, since a timeout of zero never waits.
  unfoldable pub read_loop : List Cmd → M (Option Xfer)
  read_loop [] s = (rethrow s.err >> pure none) s
  read_loop (cmd ∷ cmds) s =
      let next = read_loop cmds in
      (do
        rethrow s.err
        set_cmds cmds
        xfer ← handle_cmd little info cmd
        elim xfer [ none ↦ next | some x ↦ pure (some x) ])
        s

  unfoldable pub read_now : M (Option Xfer)
  read_now s = read_loop s.cmds s

-- `USB_SPEED_FULL`, `USB_SPEED_HIGH`, `USB_SPEED_SUPER` and `USB_SPEED_SUPER_PLUS`
abbrev pub speed_full : ℕ
speed_full = 2

abbrev pub speed_high : ℕ
speed_high = 3

abbrev pub speed_super : ℕ
speed_super = 5

abbrev pub speed_super_plus : ℕ
speed_super_plus = 6

-- `_SpeedFromBCDUSB`: no result where it throws.
unfoldable pub speed_from_bcd_usb : Bool → ℕ → Option ℕ
speed_from_bcd_usb little word =
    let bcd_usb = hfl_u16 little word in
    if bcd_usb == 0x0100
    then some speed_full
    else if bcd_usb == 0x0110
    then some speed_full
    else if bcd_usb == 0x0200
    then some speed_high
    else if bcd_usb == 0x0300
    then some speed_super
    else if bcd_usb == 0x0310
    then some speed_super_plus
    else if bcd_usb == 0x0320
    then some speed_super_plus
    else none
