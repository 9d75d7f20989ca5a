-- ===== src/Device/Reply/Laws.antt =====
-- `_reply` on its branches: what is queued, and when the call fails.
use virtual_usb.Base.{
  ℕ, ◌≤◌, ◌<◌, ◌≡◌, ◌++◌, Bool, List, [], ◌∷◌, Option, none, some, arith, length, take,
}
use virtual_usb.Usbip
use virtual_usb.Device.State.{Cmd, Shared, ok, undefined}
use virtual_usb.Device.Reply.{submit_reply, unlink_reply, reply}

module _ (little : Bool) (cmd : Cmd) (status : ℕ) (s : Shared) where
  -- A reply to an IN transfer carries the first `len` bytes at the pointer.
  pub reply_in :
      (m : List ℕ) (len : ℕ)
      → cmd.header.base.command ≡ Usbip.cmd_submit
      → cmd.header.base.direction ≡ Usbip.dir_in
      → len ≤ length m
      → reply little cmd (some m) len status s
        ≡ (ok tt, record s { reps = s.reps ++ (submit_reply little cmd (take len m) len len ∷ []) })
  unfolding reply
  reply_in m len c d h = ground arith

  -- A reply without data: to an OUT transfer, whose length is reported, or to an IN transfer.
  pub reply_out :
      (len : ℕ)
      → cmd.header.base.command ≡ Usbip.cmd_submit
      → cmd.header.base.direction ≡ Usbip.dir_out
      → reply little cmd none len status s
        ≡ (ok tt, record s { reps = s.reps ++ (submit_reply little cmd [] 0 len ∷ []) })
  unfolding reply
  reply_out len c d = ground arith

  pub reply_in_empty :
      cmd.header.base.command ≡ Usbip.cmd_submit
      → cmd.header.base.direction ≡ Usbip.dir_in
      → (p : Option (List ℕ))
      → reply little cmd p 0 status s
        ≡ (ok tt, record s { reps = s.reps ++ (submit_reply little cmd [] 0 0 ∷ []) })
  unfolding reply
  reply_in_empty c d none = ground arith
  reply_in_empty c d (some m) = ground arith

  pub reply_unlink :
      (p : Option (List ℕ)) (len : ℕ)
      → cmd.header.base.command ≡ Usbip.cmd_unlink
      → reply little cmd p len status s
        ≡ (ok tt, record s { reps = s.reps ++ (unlink_reply little cmd status ∷ []) })
  unfolding reply
  reply_unlink p len c = ground arith

  -- A longer reply than the memory at the pointer reads past its end.
  pub reply_overread :
      (m : List ℕ) (len : ℕ)
      → cmd.header.base.command ≡ Usbip.cmd_submit
      → cmd.header.base.direction ≡ Usbip.dir_in
      → length m < len
      → reply little cmd (some m) len status s ≡ (undefined, s)
  unfolding reply
  reply_overread m len c d h = ground arith
