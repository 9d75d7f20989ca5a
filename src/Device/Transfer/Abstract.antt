-- ===== src/Device/Transfer/Abstract.antt =====
-- The IN endpoint in terms of what is left to send: each buffer is the list of its unsent bytes.
use virtual_usb.Base.{
  ℕ, ◌+◌, ◌-◌, ◌≤◌, ◌++◌, ◌≡◌, refl, ap, sym, ◌∙◌, min, Bool, List, [], ◌∷◌, map, All, arith,
  length, take, drop, drop-drop, drop_all, length-drop, ==_iff, ==_false, ℕ_discrete,
}
use virtual_usb.Device.State.{Cmd, Data, Shared, ok, size_of_int32}
use virtual_usb.Device.Reply.{submit_reply}
use virtual_usb.Device.Transfer.{send_len, advance, send_data_for_in_endpoint}
use virtual_usb.Device.Transfer.Serve.{IsData, serve, advance-All, send_len-le, data_reply}
use virtual_usb.Device.Transfer.Refine.{IsPending, update_self, send_data-serve}

abbrev pub unsent_bytes : Data → List ℕ
unsent_bytes d = drop d.off d.bytes

-- The number of bytes that a command asks for.
abbrev pub requested : Cmd → ℕ
requested cmd = size_of_int32 cmd.header.cmd_submit.transfer_buffer_length

-- A buffer that is all sent is gone.
abbrev pub keep : List ℕ → List (List ℕ) → List (List ℕ)
keep [] rest = rest
keep (b ∷ bs) rest = (b ∷ bs) ∷ rest

module _ (little : Bool) where
  -- Each command takes from the front buffer as much as it asks for, or all there is.
  pub serve_bytes : List Cmd → List (List ℕ) → List Cmd × List Cmd × List (List ℕ)
  serve_bytes [] bufs = ([], [], bufs)
  serve_bytes (cmd ∷ cmds) [] = ([], cmd ∷ cmds, [])
  serve_bytes (cmd ∷ cmds) (bs ∷ rest) =
      let n = min (requested cmd) (length bs) in
      let (reps, cmds', bufs) = serve_bytes cmds (keep (drop n bs) rest) in
      (submit_reply little cmd (take n bs) n n ∷ reps, cmds', bufs)

  send_len_lem :
      (cmd : Cmd) (d : Data)
      → IsData d
      → send_len cmd d ≡ min (requested cmd) (length (unsent_bytes d))
  send_len_lem cmd d v = omega (arith, length-drop d.off d.bytes)

  keep_some : (l : List ℕ) (rest : List (List ℕ)) → 1 ≤ length l → keep l rest ≡ l ∷ rest
  keep_some [] rest h = absurd (omega arith)
  keep_some (b ∷ bs) rest h = refl

  advance_lem :
      (d : Data) (rest : List Data) (n : ℕ)
      → IsData d
      → n ≤ d.len - d.off
      → map unsent_bytes (advance d rest n) ≡ keep (drop n (unsent_bytes d)) (map unsent_bytes rest)
  advance_lem d rest n v h = elim (ℕ_discrete (d.off + n) d.len) [
    | yes e ↦ rw ((==_iff (d.off + n) d.len).1 e) (
        ap (λ l. keep l (map unsent_bytes rest))
          (sym (drop-drop d.off n d.bytes ∙ drop_all (d.off + n) d.bytes (omega (arith, v)))))
    | no e ↦ rw (==_false (d.off + n) d.len e) (
        sym (
          keep_some (drop n (unsent_bytes d)) (map unsent_bytes rest)
            (omega (arith, v, length-drop n (unsent_bytes d), length-drop d.off d.bytes))
          ∙ ap (λ l. l ∷ map unsent_bytes rest) (drop-drop d.off n d.bytes)))
  ]

  -- One reply before those that follow.
  abbrev attach : Cmd → List Cmd × List Cmd × List (List ℕ) → List Cmd × List Cmd × List (List ℕ)
  attach rep (reps, cmds, bufs) = (rep ∷ reps, cmds, bufs)

  serve-serve_bytes :
      (cmds : List Cmd) (items : List Data)
      → All IsData items
      → (let (reps, cmds', items') = serve little cmds items in
          (reps, cmds', map unsent_bytes items') ≡ serve_bytes cmds (map unsent_bytes items))
  unfolding serve serve_bytes
  serve-serve_bytes [] items v = refl
  serve-serve_bytes (cmd ∷ cmds) [] v = refl
  serve-serve_bytes (cmd ∷ cmds) (d ∷ rest) v =
      let n = send_len cmd d in
      ap (attach (data_reply little cmd d n))
        (serve-serve_bytes cmds (advance d rest n) (advance-All d rest cmd v.0 v.1))
      ∙ ap (λ bufs. attach (data_reply little cmd d n) (serve_bytes cmds bufs))
          (advance_lem d rest n v.0 (send_len-le cmd v.0))
      ∙ ap
          (λ k.
            attach (submit_reply little cmd (take k (unsent_bytes d)) k k)
              (serve_bytes cmds (keep (drop k (unsent_bytes d)) (map unsent_bytes rest))))
          (send_len_lem cmd d v.0)

  -- On a queue of IN commands of its endpoint and data with sound offsets, _sendDataForInEndpoint
  -- returns and implements serve_bytes on the commands and the lists of unsent bytes, where each
  -- command takes from the front list as many bytes as it asks for, or all, and an empty list is
  -- dropped: it queues those replies and leaves those commands and those unsent bytes.
  pub send_data-serve_bytes :
      (ep : ℕ) (s : Shared)
      → All (IsPending ep) (s.in_cmds ep)
      → All IsData (s.in_data ep)
      → (let (reps, cmds, bufs) = serve_bytes (s.in_cmds ep) (map unsent_bytes (s.in_data ep)) in
          let (end, t) = send_data_for_in_endpoint little ep s in
          (end ≡ ok tt)
          × (t.reps ≡ s.reps ++ reps)
          × (t.in_cmds ep ≡ cmds)
          × (map unsent_bytes (t.in_data ep) ≡ bufs))
  send_data-serve_bytes ep s p v =
      let q = send_data-serve little ep s p v in
      let e = serve-serve_bytes (s.in_cmds ep) (s.in_data ep) v in
      (
        ap (λ o. o.0) q,
        ap (λ o. o.1.reps) q ∙ ap (λ t. s.reps ++ t.0) e,
        ap (λ o. o.1.in_cmds ep) q ∙ update_self s.in_cmds ep _ ∙ ap (λ t. t.1) e,
        ap (λ o. map unsent_bytes (o.1.in_data ep)) q
            ∙ ap (map unsent_bytes) (update_self s.in_data ep _)
            ∙ ap (λ t. t.2) e,
      )
