-- ===== src/Device/Loops/Reader.antt =====
-- A stream of commands becomes the queue of commands.
use mathlib.Core.List.{append_assoc, append-nil}
use virtual_usb.Base.{
  ℕ, suc, ◌+◌, ◌^◌, ◌<◌, ◌≡◌, ap, ap₂, sym, ◌∙◌, Bool, List, [], ◌∷◌, ◌++◌, length, arith,
}
use virtual_usb.Usbip
use virtual_usb.Usbip.{Header, cmd_unlink_seqnum}
use virtual_usb.Usbip.Wire.{wire_header, IsHeader}
use virtual_usb.Device.State.{Cmd, Shared}
use virtual_usb.Device.Socket.{Recv, done, read_cmd}
use virtual_usb.Device.Socket.Reading.{Brings}
use virtual_usb.Device.Socket.Commands.{announced, read_cmd_submit, read_cmd_unlink}
use virtual_usb.Device.Loops.{push_cmd, after_read, read_thread}

-- The messages of a host, each a header with its payload, and events that bring just their bytes.
pub data Stream : List (Header × List ℕ) → List Recv → Type 0 where
  ends : Stream [] []
  submit :
      (h : Header) (payload : List ℕ) (rs rs' more : List Recv) {ms : List (Header × List ℕ)}
      → IsHeader h
      → h.base.command ≡ Usbip.cmd_submit
      → announced h ≡ length payload
      → h.cmd_submit.transfer_buffer_length < 2 ^ 31
      → Brings (wire_header h) rs
      → Brings payload rs'
      → Stream ms more
      → Stream ((h, payload) ∷ ms) (rs ++ (rs' ++ more))
  unlink :
      (h : Header) (rs more : List Recv) {ms : List (Header × List ℕ)}
      → IsHeader h
      → h.base.command ≡ Usbip.cmd_unlink
      → Brings (wire_header h) rs
      → Stream ms more
      → Stream ((h, []) ∷ ms) (rs ++ more)

-- The commands that stand for the messages, in their order.
pub data Stands : List (Header × List ℕ) → List Cmd → Type 0 where
  none_left : Stands [] []
  submitted :
      (h : Header) (payload : List ℕ) {ms : List (Header × List ℕ)} {cmds : List Cmd}
      → Stands ms cmds
      → Stands
          ((h, payload) ∷ ms)
          (record { header = h; payload = payload; payload_len = length payload } ∷ cmds)
  unlinked :
      (h : Header) (cmd : Cmd) {ms : List (Header × List ℕ)} {cmds : List Cmd}
      → cmd.header.base ≡ h.base
      → cmd_unlink_seqnum cmd.header ≡ cmd_unlink_seqnum h
      → cmd.payload_len ≡ 0
      → Stands ms cmds
      → Stands ((h, []) ∷ ms) (cmd ∷ cmds)

module _ (little : Bool) where
  one_round :
      (fuel : ℕ) (rs left : List Recv) (cmd : Cmd) (s : Shared)
      → read_cmd little rs ≡ (done cmd, left)
      → read_thread little (suc fuel) rs s ≡ read_thread little fuel left (push_cmd cmd s)
  unfolding read_thread
  one_round fuel rs left cmd s e =
      ap (λ r. after_read little (λ c l. read_thread little fuel l (push_cmd c s)) r s) e

  -- What the thread has done when the messages are read.
  abbrev pub Queues : List (Header × List ℕ) → List Recv → List Recv → ℕ → Shared → Type 0
  Queues ms rs behind fuel s =
      (cmds : List Cmd) × Stands ms cmds
      × (read_thread little (length ms + fuel) (rs ++ behind) s
          ≡ read_thread little fuel behind (record s { cmds = s.cmds ++ cmds }))

  queue_more :
      (ms : List (Header × List ℕ)) (fuel : ℕ) (rs left behind : List Recv) (cmd : Cmd) (s : Shared)
      (cmds : List Cmd)
      → read_cmd little rs ≡ (done cmd, left)
      → read_thread little (length ms + fuel) left (push_cmd cmd s)
        ≡ read_thread little fuel behind (record s { cmds = (s.cmds ++ (cmd ∷ [])) ++ cmds })
      → read_thread little (suc (length ms) + fuel) rs s
        ≡ read_thread little fuel behind (record s { cmds = s.cmds ++ (cmd ∷ cmds) })
  queue_more ms fuel rs left behind cmd s cmds e k =
      ap (λ n. read_thread little n rs s)
        (let q : suc (length ms) + fuel ≡ suc (length ms + fuel) = omega arith in q)
      ∙ (one_round (length ms + fuel) rs left cmd s e
          ∙ (k
              ∙ ap (λ l. read_thread little fuel behind (record s { cmds = l }))
                  (append_assoc s.cmds (cmd ∷ []) cmds)))

  -- On a host of either byte order, when recv brings the encodings of SUBMIT and UNLINK commands
  -- one after the other, in pieces of any size and with any interruptions, the loop of _readThread
  -- appends to the queue of commands just these commands in order, and goes on with what follows.
  pub read_thread-Stream :
      {ms : List (Header × List ℕ)} {rs : List Recv} (behind : List Recv) (fuel : ℕ) (s : Shared)
      → Stream ms rs
      → Queues ms rs behind fuel s
  read_thread-Stream behind fuel s ends = (
    [],
    none_left,
    ap₂ (λ n l. read_thread little n behind (record s { cmds = l }))
        (let q : 0 + fuel ≡ fuel = omega arith in q) (sym (append-nil s.cmds)),
  )
  read_thread-Stream behind fuel s (submit h payload rs rs' more {ms} v c n small t t' st) =
      let cmd : Cmd = record { header = h; payload = payload; payload_len = length payload } in
      let (cmds, k, e) = read_thread-Stream behind fuel (push_cmd cmd s) st in
      (
        cmd ∷ cmds,
        submitted h payload k,
        queue_more ms fuel ((rs ++ (rs' ++ more)) ++ behind) (more ++ behind) behind cmd s cmds
            (ap (read_cmd little) (
                append_assoc rs (rs' ++ more) behind
                ∙ ap (λ l. rs ++ l) (append_assoc rs' more behind))
              ∙ read_cmd_submit little h v (more ++ behind) c n small t t')
            e,
      )
  read_thread-Stream behind fuel s (unlink h rs more {ms} v c t st) =
      let (cmd, r, b, q, z) = read_cmd_unlink little h v (more ++ behind) c t in
      let (cmds, k, e) = read_thread-Stream behind fuel (push_cmd cmd s) st in
      (
        cmd ∷ cmds,
        unlinked h cmd b q z k,
        queue_more ms fuel ((rs ++ more) ++ behind) (more ++ behind) behind cmd s cmds
            (ap (read_cmd little) (append_assoc rs more behind) ∙ r) e,
      )
