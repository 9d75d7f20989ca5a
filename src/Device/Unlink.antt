-- ===== src/Device/Unlink.antt =====
-- `_handleCmdUnlink`: the host withdraws an IN command that is not answered yet.
pub mod Laws
use virtual_usb.Base.{
  ℕ, zero, suc, ◌+◌, ◌-◌, ◌^◌, Bool, List, [], ◌∷◌, Option, none, some, if◌then◌else◌, leb, ◌==◌,
}
use virtual_usb.Usb.Endpoint
use virtual_usb.Usbip.{cmd_unlink_seqnum}
use virtual_usb.Device.State.{Cmd, M, ok, ◌>>◌, throw_if, invalid_ep_idx, update}
use virtual_usb.Device.Reply.{reply}
use virtual_usb.Device.Transfer.{ep_idx}

-- The inner loop: the queue without the first command of that number, if there is one.
unfoldable pub erase_seqnum : ℕ → List Cmd → Option (List Cmd)
erase_seqnum seqnum [] = none
erase_seqnum seqnum (cmd ∷ cmds) =
    let rest = erase_seqnum seqnum cmds in
    if cmd.header.base.seqnum == seqnum
    then some cmds
    else elim rest [ none ↦ none | some cmds' ↦ some (cmd ∷ cmds') ]

-- The outer loop, over the queues from `i` on: `rounds` are left.
unfoldable pub erase_from : ℕ → ℕ → ℕ → (ℕ → List Cmd) → Option (ℕ → List Cmd)
erase_from seqnum zero i queues = none
erase_from seqnum (suc rounds) i queues =
    let rest = erase_from seqnum rounds (i + 1) queues in
    elim (erase_seqnum seqnum (queues i)) [ none ↦ rest | some cmds ↦ some (update queues i cmds) ]

-- `-ECONNRESET`, as an `int32_t`
abbrev pub econnreset_status : ℕ
econnreset_status = 2 ^ 32 - 104

abbrev pub set_in_cmds : Option (ℕ → List Cmd) → M (Unit {0})
set_in_cmds none s = (ok tt, s)
set_in_cmds (some queues) s = (ok tt, record s { in_cmds = queues })

abbrev pub unlink_status : Option (ℕ → List Cmd) → ℕ
unlink_status none = 0
unlink_status (some queues) = econnreset_status

unfoldable pub handle_cmd_unlink : Bool → Cmd → M (Unit {0})
handle_cmd_unlink little cmd s =
    let found = erase_from (cmd_unlink_seqnum cmd.header) Endpoint.max_count 0 s.in_cmds in
    (do
      throw_if (leb Endpoint.max_count (ep_idx cmd)) invalid_ep_idx
      set_in_cmds found
      reply little cmd none 0 (unlink_status found))
      s
