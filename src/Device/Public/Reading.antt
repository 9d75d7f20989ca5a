-- ===== src/Device/Public/Reading.antt =====
-- A client that calls `read` until nothing is there, against a device that handles all commands at
-- once.
use virtual_usb.Base.{ℕ, zero, suc, ◌≡◌, Bool, List, [], ◌∷◌, Option, none, some}
use virtual_usb.Device.State.{Cmd, Xfer, Error, Info, Shared, M, ok, throws, continue, ◌>>=◌, pure}
use virtual_usb.Device.Command.{handle_cmd}
use virtual_usb.Device.Client.{read_loop, read_now}

abbrev pub add : Option Xfer → List Xfer → List Xfer
add none xs = xs
add (some x) xs = x ∷ xs

module _ (little : Bool) (info : Info) where
  -- All transfers of a queue of commands, which are handled in order.
  abbrev pub collect : List Cmd → M (List Xfer)
  collect [] s = (ok [], s)
  collect (cmd ∷ cmds) s =
      continue (λ x. collect cmds >>= λ xs. pure (add x xs))
        (handle_cmd little info cmd (record s { cmds = cmds }))

  -- What the client is to see: the error that has stopped the device, or all transfers.
  abbrev pub expected : Option Error → M (List Xfer)
  expected none s = collect s.cmds s
  expected (some e) s = (throws e, s)

  -- The client calls `read` until it returns nothing.
  abbrev pub after_read : M (List Xfer) → Option Xfer → M (List Xfer)
  after_read again none = pure []
  after_read again (some x) = again >>= λ xs. pure (x ∷ xs)

  abbrev pub drain : ℕ → M (List Xfer)
  drain zero s = (ok [], s)
  drain (suc fuel) s = continue (after_read (drain fuel)) (read_now little info s)

  -- What a round of the loop of `read` gives, and what is read later.
  abbrev Collects : ℕ → List Cmd → Type 0
  Collects fuel cmds =
      (s : Shared)
      → s.err ≡ none
      → s.cmds ≡ cmds
      → continue (after_read (drain fuel)) (read_loop little info cmds s) ≡ collect cmds s
