-- ===== src/Device/Reply.antt =====
-- `_reply`: the reply to a command, queued for the write thread in wire order.
pub mod Laws
pub mod Ends
use virtual_usb.Base.{
  ℕ, ◌%◌, ◌^◌, ◌++◌, Bool, true, false, ◌&&◌, ◌||◌, not, List, [], ◌∷◌, Option, none, some,
  if◌then◌else◌, ◌==◌, leb, length, take,
}
use virtual_usb.Endian.{bfh_u32}
use virtual_usb.Usbip
use virtual_usb.Usbip.{HeaderBasic, Header, set_ret_submit, set_ret_unlink, zero_header}
use virtual_usb.Device.State.{
  Cmd, empty_cmd, M, ok, undefined, ◌>>=◌, ◌>>◌, pure, throw, assert, invalid_usbip_command,
}

-- A pointer argument is null, or the memory that may be read from it on.
abbrev pub is_null : Option (List ℕ) → Bool
is_null none = true
is_null (some m) = false

-- `memcpy` of `n` bytes out of `p`
unfoldable pub memcpy : Option (List ℕ) → ℕ → M (List ℕ)
memcpy none n s = if n == 0 then (ok [], s) else (undefined, s)
memcpy (some m) n s = if leb n (length m) then (ok (take n m), s) else (undefined, s)

-- `_s.reps.push_back(rep)`
abbrev pub push_rep : Cmd → M (Unit {0})
push_rep rep s = (ok tt, record s { reps = s.reps ++ (rep ∷ []) })

-- An IN reply of some length carries bytes.
abbrev pub sends : Cmd → ℕ → Bool
sends cmd len = cmd.header.base.direction == Usbip.dir_in && not (len == 0)

abbrev pub copy_payload : Cmd → Option (List ℕ) → ℕ → M (List ℕ)
copy_payload cmd p len = if sends cmd len then memcpy p len else pure []

module _ (little : Bool) where
  -- The base of a reply names the command that it answers.
  unfoldable pub reply_base : ℕ → Cmd → HeaderBasic
  reply_base command cmd = record {
    command = bfh_u32 little command;
    seqnum = bfh_u32 little cmd.header.base.seqnum;
    devid = bfh_u32 little cmd.header.base.devid;
    direction = bfh_u32 little cmd.header.base.direction;
    ep = bfh_u32 little cmd.header.base.ep;
  }

  unfoldable pub submit_reply : Cmd → List ℕ → ℕ → ℕ → Cmd
  submit_reply cmd payload payload_len len = record empty_cmd {
    header =
        set_ret_submit
          (record {
            status = bfh_u32 little 0;
            actual_length = bfh_u32 little (len % 2 ^ 32);
            start_frame = bfh_u32 little 0;
            number_of_packets = bfh_u32 little 0;
            error_count = bfh_u32 little 0;
          })
          (record zero_header { base = reply_base Usbip.ret_submit cmd });
    payload = payload;
    payload_len = payload_len;
  }

  unfoldable pub unlink_reply : Cmd → ℕ → Cmd
  unlink_reply cmd status = record empty_cmd {
    header =
        set_ret_unlink (bfh_u32 little status)
          (record zero_header { base = reply_base Usbip.ret_unlink cmd });
  }

  -- The `assert` on the arguments of a reply to SUBMIT.
  unfoldable pub valid_arguments : Cmd → Option (List ℕ) → ℕ → Bool
  valid_arguments cmd p len =
      (cmd.header.base.direction == Usbip.dir_in
        && ((not (len == 0) && not (is_null p)) || len == 0))
      || (cmd.header.base.direction == Usbip.dir_out && is_null p)

  abbrev pub push_submit : Cmd → ℕ → List ℕ → M (Unit {0})
  push_submit cmd len payload =
      push_rep (submit_reply cmd payload (if sends cmd len then len else 0) len)

  abbrev pub reply_submit : Cmd → Option (List ℕ) → ℕ → M (Unit {0})
  reply_submit cmd p len = do
    assert (valid_arguments cmd p len)
    payload ← copy_payload cmd p len
    push_submit cmd len payload

  unfoldable pub reply : Cmd → Option (List ℕ) → ℕ → ℕ → M (Unit {0})
  unfolding valid_arguments memcpy
  reply cmd p len status =
      if cmd.header.base.command == Usbip.cmd_submit
      then reply_submit cmd p len
      else if cmd.header.base.command == Usbip.cmd_unlink
      then push_rep (unlink_reply cmd status)
      else throw (invalid_usbip_command cmd.header.base.command)
