-- ===== src/Device/Socket/Writing.antt =====
-- `_Write`: the socket takes the bytes in pieces of any size, and calls are interrupted.
use virtual_usb.Base.{
  ℕ, zero, suc, ◌%◌, ◌^◌, subst, replicate, ◌+◌, ◌≤◌, ◌++◌, ◌≡◌, refl, ap, ap₂, sym, ◌∙◌, Bool,
  true, false, List, [], ◌∷◌, arith, lt→ltb, length, take, drop, drop-drop, take_all, take_add,
}
use mathlib.Core.List.{append_assoc, append-nil}
use virtual_usb.Endian.{bfh_u32}
use virtual_usb.Endian.Swap.{swap32_lem}
use virtual_usb.Usbip
use virtual_usb.Usbip.Wire.{wire_header, to_wire, store_header-to_wire}
use virtual_usb.Usbip.{Header, zero_header, store_header}
use virtual_usb.Device.Reply.{submit_reply, unlink_reply, reply_base}
use virtual_usb.Device.State.{Cmd}
use virtual_usb.Device.Socket.{
  Send, took, send_fails, Io, done, eintr, write_loop, write, write_rep, then_write, header_size,
}

-- The events take just so many bytes: each call takes one byte or more, or is interrupted while
-- bytes are left. `send` never takes more than it is given.
pub data Takes : ℕ → List Send → Type 0 where
  all : Takes 0 []
  piece :
      (n : ℕ) {more : ℕ} {rs : List Send} → Takes more rs → Takes (suc n + more) (took (suc n) ∷ rs)
  interrupted : {n : ℕ} {rs : List Send} → Takes (suc n) rs → Takes (suc n) (send_fails eintr ∷ rs)

write_loop_full :
    (bytes : List ℕ) (len : ℕ) (rs : List Send) → write_loop bytes len len rs ≡ (done tt, [], rs)
unfolding write_loop
write_loop_full bytes len [] = ground arith
write_loop_full bytes len (took zero ∷ rs) = ground arith
write_loop_full bytes len (took (suc n) ∷ rs) = ground arith
write_loop_full bytes len (send_fails errno ∷ rs) = ground arith

-- Bytes put on the wire before what the rest of the loop puts there.
abbrev prefix : List ℕ → Io (Unit {0}) × List ℕ × List Send → Io (Unit {0}) × List ℕ × List Send
prefix bs (end, wire, rs) = (end, bs ++ wire, rs)

prefix-prefix :
    (xs ys : List ℕ) (r : Io (Unit {0}) × List ℕ × List Send)
    → prefix xs (prefix ys r) ≡ prefix (xs ++ ys) r
prefix-prefix xs ys r = λ i. (r.0, sym (append_assoc xs ys r.1) i, r.2)

write_loop-Takes :
    {n : ℕ} {rs : List Send} (bytes : List ℕ) (off len : ℕ) (behind : List Send)
    → Takes n rs
    → off + n ≤ len
    → len ≤ length bytes
    → write_loop bytes len off (rs ++ behind)
      ≡ prefix (take n (drop off bytes)) (write_loop bytes len (off + n) behind)
unfolding write_loop
write_loop-Takes bytes off len behind all h k =
    ap (λ i. write_loop bytes len i behind) (let e : off ≡ off + 0 = omega arith in e)
write_loop-Takes bytes off len behind (piece n {more} {rs} t) h k =
    rw (lt→ltb off len (omega (arith, h))) (
      ap (prefix (take (suc n) (drop off bytes)))
        (write_loop-Takes bytes (off + suc n) len behind t (omega (arith, h)) k)
      ∙ prefix-prefix _ (take more (drop (off + suc n) bytes)) _
      ∙ ap₂ (λ l i. prefix l (write_loop bytes len i behind))
          (ap (λ l. take (suc n) (drop off bytes) ++ take more l)
              (sym (drop-drop off (suc n) bytes))
            ∙ sym (take_add (suc n) more (drop off bytes)))
          (let e : off + suc n + more ≡ off + (suc n + more) = omega arith in e))
write_loop-Takes bytes off len behind (interrupted {n} {rs} t) h k =
    rw (lt→ltb off len (omega arith)) (write_loop-Takes bytes off len behind t h k)

-- When the calls of send take just as many bytes as there are, in pieces of any size and with any
-- interruptions, _Write puts the bytes on the wire in order, each once, returns, and makes no call
-- more.
pub write-Takes :
    {rs : List Send} (bytes : List ℕ) (behind : List Send)
    → Takes (length bytes) rs
    → write bytes (length bytes) (rs ++ behind) ≡ (done tt, bytes, behind)
unfolding write
write-Takes bytes behind t =
    write_loop-Takes bytes 0 (length bytes) behind t (omega arith) (omega arith)
    ∙ ap (λ i. prefix (take (length bytes) bytes) (write_loop bytes (length bytes) i behind))
        (let e : 0 + length bytes ≡ length bytes = omega arith in e)
    ∙ ap (prefix (take (length bytes) bytes)) (write_loop_full bytes (length bytes) behind)
    ∙ ap (λ l. (done tt, l, behind)) (append-nil _ ∙ take_all (length bytes) bytes (omega arith))

-- The header of a reply to SUBMIT in host words, which repeats the command's base and reports `len`;
-- and of a reply to UNLINK.
abbrev pub submit_header : Cmd → ℕ → Header
submit_header cmd len = record {
  base = record (cmd.header.base) { command = Usbip.ret_submit };
  cmd_submit = record {
    transfer_flags = 0;
    transfer_buffer_length = len % 2 ^ 32;
    start_frame = 0;
    number_of_packets = 0;
    interval = 0;
    setup = replicate 8 0;
  };
}

abbrev pub unlink_header : Cmd → ℕ → Header
unlink_header cmd status = record {
  base = record (cmd.header.base) { command = Usbip.ret_unlink };
  cmd_submit = record (zero_header.cmd_submit) { transfer_flags = status };
}

bfh_u32_zero : (little : Bool) → bfh_u32 little 0 ≡ 0
unfolding bfh_u32
bfh_u32_zero true = omega (arith, swap32_lem 0)
bfh_u32_zero false = refl

module _ (little : Bool) where
  write_header :
      (h : Header) {rs : List Send} (behind : List Send)
      → length h.cmd_submit.setup ≡ 8
      → Takes header_size rs
      → write (store_header little (to_wire little h)) header_size (rs ++ behind)
        ≡ (done tt, wire_header h, behind)
  write_header h {rs} behind e t =
      let n : length (wire_header h) ≡ header_size = omega (arith, e) in
      ap (λ l. write l header_size (rs ++ behind)) (store_header-to_wire little h)
      ∙ ap (λ k. write (wire_header h) k (rs ++ behind)) (sym n)
      ∙ write-Takes (wire_header h) behind (subst (λ k. Takes k rs) (sym n) t)

  pub write_rep_lem :
      (h : Header) (rep : Cmd) {rs rs' : List Send} (behind : List Send)
      → rep.header ≡ to_wire little h
      → length h.cmd_submit.setup ≡ 8
      → rep.payload_len ≡ length rep.payload
      → Takes header_size rs
      → Takes rep.payload_len rs'
      → write_rep little rep (rs ++ (rs' ++ behind))
        ≡ (done tt, wire_header h ++ rep.payload, behind)
  unfolding write_rep
  write_rep_lem h rep {rs} {rs'} behind e n m t t' =
      ap
        (λ k.
          then_write (write rep.payload rep.payload_len)
            (write (store_header little k) header_size (rs ++ (rs' ++ behind))))
        e
      ∙ ap (then_write (write rep.payload rep.payload_len)) (write_header h (rs' ++ behind) n t)
      ∙ ap (λ k. prefix (wire_header h) (write rep.payload k (rs' ++ behind))) m
      ∙ ap (prefix (wire_header h)) (write-Takes rep.payload behind (subst (λ k. Takes k rs') m t'))

  unlink_reply-header :
      (cmd : Cmd) (status : ℕ)
      → (unlink_reply little cmd status).header ≡ to_wire little (unlink_header cmd status)
  unfolding unlink_reply reply_base
  unlink_reply-header cmd status =
      let filled : ℕ → Header = λ z. record {
        base = reply_base little Usbip.ret_unlink cmd;
        cmd_submit = record {
          transfer_flags = bfh_u32 little status;
          transfer_buffer_length = z;
          start_frame = z;
          number_of_packets = z;
          interval = z;
          setup = replicate 8 0;
        };
      } in
      ap filled (sym (bfh_u32_zero little))

  -- On a host of either byte order, whatever pieces of the header and of the payload send takes and
  -- however often it is interrupted, the write thread puts on the wire the big-endian header
  -- RET_SUBMIT with the sequence number, device, direction and endpoint of the command, status 0
  -- and the length, and then the payload, and makes no call more.
  pub write_rep-submit_reply :
      (cmd : Cmd) (payload : List ℕ) (len : ℕ) {rs rs' : List Send} (behind : List Send)
      → Takes header_size rs
      → Takes (length payload) rs'
      → write_rep little
          (submit_reply little cmd payload (length payload) len)
          (rs ++ (rs' ++ behind))
        ≡ (done tt, wire_header (submit_header cmd len) ++ payload, behind)
  unfolding submit_reply reply_base
  write_rep-submit_reply cmd payload len behind t t' =
      write_rep_lem (submit_header cmd len) (submit_reply little cmd payload (length payload) len)
        behind refl refl refl t t'

  -- On a host of either byte order, whatever pieces send takes, the write thread puts on the wire
  -- the big-endian header RET_UNLINK with the sequence number, device, direction and endpoint of
  -- the command and the status, and nothing more.
  pub write_rep-unlink_reply :
      (cmd : Cmd) (status : ℕ) {rs : List Send} (behind : List Send)
      → Takes header_size rs
      → write_rep little (unlink_reply little cmd status) (rs ++ behind)
        ≡ (done tt, wire_header (unlink_header cmd status), behind)
  unfolding unlink_reply reply_base
  write_rep-unlink_reply cmd status {rs} behind t =
      write_rep_lem (unlink_header cmd status) (unlink_reply little cmd status) {rs = rs} {rs' = []}
        behind (unlink_reply-header cmd status) refl refl t all
      ∙ ap (λ l. (done tt, l, behind)) (append-nil (wire_header (unlink_header cmd status)))
