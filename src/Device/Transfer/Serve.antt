-- ===== src/Device/Transfer/Serve.antt =====
-- What the loop of `_sendDataForInEndpoint` does to one endpoint: a function of its two queues.
use virtual_usb.Base.{
  ℕ, ◌+◌, ◌-◌, ◌^◌, ◌≤◌, ◌<◌, ◌++◌, ◌≡◌, refl, ap, sym, ◌∙◌, Bool, List, [], ◌∷◌, map, ◌⊎◌, inl,
  inr, arith, length, take, drop, All, take-append-drop, drop-drop, drop_all,
}
use mathlib.Core.List.{append_assoc}
use virtual_usb.Endian.{bfh_u32}
use virtual_usb.Device.State.{Cmd, Data}
use virtual_usb.Device.Reply.{submit_reply, reply_base}
use virtual_usb.Device.Transfer.{send_len, advance}

-- A queued buffer: its length is a `size_t`, and the offset lies within it.
pub record IsData (d : Data) : Type 0 where
  pub full : d.len ≡ length d.bytes
  pub size : d.len < 2 ^ 64
  pub within : d.off ≤ d.len

-- The bytes that are still to be sent, in order.
abbrev pub pending : List Data → List ℕ
pending [] = []
pending (d ∷ rest) = drop d.off d.bytes ++ pending rest

abbrev pub payloads : List Cmd → List ℕ
payloads [] = []
payloads (rep ∷ reps) = rep.payload ++ payloads reps

pub payloads-append : (xs ys : List Cmd) → payloads (xs ++ ys) ≡ payloads xs ++ payloads ys
payloads-append [] ys = refl
payloads-append (x ∷ xs) ys =
    ap (λ t. x.payload ++ t) (payloads-append xs ys) ∙ sym (append_assoc x.payload _ _)

pub send_len-le : (cmd : Cmd) {d : Data} → IsData d → send_len cmd d ≤ d.len - d.off
send_len-le cmd v = omega arith

pub advance-All :
    (d : Data) (rest : List Data) (cmd : Cmd)
    → IsData d
    → All IsData rest
    → All IsData (advance d rest (send_len cmd d))
advance-All d rest cmd v vs = ground arith

-- What a reply takes from the front buffer and what it leaves are what was there.
pub advance-pending :
    (d : Data) (rest : List Data) (n : ℕ)
    → IsData d
    → n ≤ d.len - d.off
    → take n (drop d.off d.bytes) ++ pending (advance d rest n) ≡ pending (d ∷ rest)
advance-pending d rest n v h = ground (
  arith,
  take-append-drop n (drop d.off d.bytes),
  drop-drop d.off n d.bytes,
  drop_all (d.off + n) d.bytes,
  append_assoc (take n (drop d.off d.bytes)) (drop (d.off + n) d.bytes) (pending rest),
)

module _ (little : Bool) where
  -- The reply that takes `n` bytes from the front buffer.
  abbrev pub data_reply : Cmd → Data → ℕ → Cmd
  data_reply cmd d n = submit_reply little cmd (take n (drop d.off d.bytes)) n n

  -- The replies made, the commands left and the data left.
  unfoldable pub serve : List Cmd → List Data → List Cmd × List Cmd × List Data
  serve [] items = ([], [], items)
  serve (cmd ∷ cmds) [] = ([], cmd ∷ cmds, [])
  serve (cmd ∷ cmds) (d ∷ rest) =
      let (reps, cmds', items') = serve cmds (advance d rest (send_len cmd d)) in
      (data_reply cmd d (send_len cmd d) ∷ reps, cmds', items')

  -- No byte is lost, made up or moved: what the replies carry, and then what is left, is what was
  -- there.
  pub serve_stream :
      (cmds : List Cmd) (items : List Data)
      → All IsData items
      → let (reps, cmds', items') = serve cmds items in
        payloads reps ++ pending items' ≡ pending items
  unfolding serve submit_reply
  serve_stream [] items v = refl
  serve_stream (cmd ∷ cmds) [] v = refl
  serve_stream (cmd ∷ cmds) (d ∷ rest) v =
      append_assoc (take (send_len cmd d) (drop d.off d.bytes)) _ _
      ∙ ap (λ t. take (send_len cmd d) (drop d.off d.bytes) ++ t)
          (serve_stream cmds (advance d rest (send_len cmd d)) (advance-All d rest cmd v.0 v.1))
      ∙ advance-pending d rest (send_len cmd d) v.0 (send_len-le cmd v.0)

  pub serve-All :
      (cmds : List Cmd) (items : List Data) → All IsData items → All IsData (serve cmds items).2
  unfolding serve
  serve-All [] items v = v
  serve-All (cmd ∷ cmds) [] v = v
  serve-All (cmd ∷ cmds) (d ∷ rest) v =
      serve-All cmds (advance d rest (send_len cmd d)) (advance-All d rest cmd v.0 v.1)

  -- The loop stops only when one of the two queues is empty.
  pub serve_exhausts :
      (cmds : List Cmd) (items : List Data)
      → let (reps, cmds', items') = serve cmds items in (cmds' ≡ []) ⊎ (items' ≡ [])
  unfolding serve
  serve_exhausts [] items = inl refl
  serve_exhausts (cmd ∷ cmds) [] = inr refl
  serve_exhausts (cmd ∷ cmds) (d ∷ rest) = serve_exhausts cmds (advance d rest (send_len cmd d))

  -- The number that a reply to a command bears.
  abbrev pub wire_seqnum : Cmd → ℕ
  wire_seqnum cmd = bfh_u32 little cmd.header.base.seqnum

  abbrev pub rep_seqnum : Cmd → ℕ
  rep_seqnum rep = rep.header.base.seqnum

  -- Commands are answered in the order in which they came, each once, and the rest stay queued.
  pub serve_order :
      (cmds : List Cmd) (items : List Data)
      → let (reps, cmds', items') = serve cmds items in
        map rep_seqnum reps ++ map wire_seqnum cmds' ≡ map wire_seqnum cmds
  unfolding serve submit_reply reply_base
  serve_order [] items = refl
  serve_order (cmd ∷ cmds) [] = refl
  serve_order (cmd ∷ cmds) (d ∷ rest) =
      ap (λ t. wire_seqnum cmd ∷ t) (serve_order cmds (advance d rest (send_len cmd d)))
