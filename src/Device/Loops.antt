-- ===== src/Device/Loops.antt =====
-- `_readThread` and `_writeThread` of VirtualUSBDevice.cpp, each run by itself: the calls of `recv` and
-- `send` are the events of a list, and the state is `_s` as the thread changes it. Where a thread
-- leaves its loop by an exception it calls `_reset`, which is the module of that name.
pub mod Reader
pub mod Progress
pub mod Writer
use virtual_usb.Base.{ℕ, zero, suc, List, [], ◌∷◌, ◌++◌, Bool, Option, some, none}
use virtual_usb.Device.State.{
  Cmd, Error, Shared, recv_ended, send_ended, bad_array_length, recv_error, send_error,
  unknown_command,
}
use virtual_usb.Device.Socket
use virtual_usb.Device.Socket.{
  Recv, Send, IoError, recv_returned_0, send_returned_0, bad_length, recv_failed, send_failed, Io,
  done, fails, blocks, read_cmd, write_rep,
}

-- The exceptions as `_reset` keeps them.
abbrev pub thrown : IoError → Error
thrown recv_returned_0 = recv_ended
thrown send_returned_0 = send_ended
thrown bad_length = bad_array_length
thrown (recv_failed errno) = recv_error errno
thrown (send_failed errno) = send_error errno
thrown (Socket.unknown_command command) = unknown_command command

-- Where a thread has got to: it waits, for the socket or for the signal, or it has left its loop
-- with an exception, or it may go on but the fuel has run out.
pub data Stop : Type 0 where
  waits : Stop
  leaves : Error → Stop
  unfinished : Stop

-- `_s.cmds.push_back`
abbrev pub push_cmd : Cmd → Shared → Shared
push_cmd cmd s = record s { cmds = s.cmds ++ (cmd ∷ []) }

module _ (little : Bool) where
  abbrev pub after_read :
      (Cmd → List Recv → Stop × Shared) → Io Cmd × List Recv → Shared → Stop × Shared
  after_read go (done cmd, rs) s = go cmd rs
  after_read go (fails e, rs) s = (leaves (thrown e), s)
  after_read go (blocks, rs) s = (waits, s)

  -- The loop of `_readThread`.
  unfoldable pub read_thread : ℕ → List Recv → Shared → Stop × Shared
  read_thread zero rs s = (unfinished, s)
  read_thread (suc fuel) rs s =
      after_read (λ cmd left. read_thread fuel left (push_cmd cmd s)) (read_cmd little rs) s

  -- What a run of `_writeThread` leaves: the bytes on the wire besides.
  abbrev pub Written : Type 0
  Written = Stop × List ℕ × Shared

  abbrev pub after_write :
      (List Send → Written) → Io (Unit {0}) × List ℕ × List Send → Shared → Written
  after_write go (done u, wire, rs) s = (let (stop, more, s') = go rs in (stop, wire ++ more, s'))
  after_write go (fails e, wire, rs) s = (leaves (thrown e), wire, s)
  after_write go (blocks, wire, rs) s = (waits, wire, s)

  abbrev pub wait_or_leave : Option Error → Stop
  wait_or_leave none = waits
  wait_or_leave (some e) = leaves e

  abbrev pub unless_error : Option Error → Written → Shared → Written
  unless_error none next s = next
  unless_error (some e) next s = (leaves e, [], s)

  -- The loop of `_writeThread`. Its list is `_s.reps`: each round pops the front.
  unfoldable pub write_thread : List Cmd → List Send → Shared → Written
  write_thread [] rs s = (wait_or_leave s.err, [], record s { reps = [] })
  write_thread (rep ∷ reps) rs s =
      unless_error s.err
        (after_write (λ left. write_thread reps left (record s { reps = reps }))
          (write_rep little rep rs) (record s { reps = reps }))
        s
