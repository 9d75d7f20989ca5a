-- ===== src/Device/Transfer/Refine.antt =====
-- The loop of `_sendDataForInEndpoint` computes `serve` on the two queues of its endpoint.
use virtual_usb.Base.{
  ℕ, ◌<◌, ◌^◌, ◌++◌, inl, inr, Bool-cases, ==_iff, ◌≡◌, ◌≢◌, refl, ap, sym, fun_ext, ◌∙◌, Bool,
  List, [], ◌∷◌, some, ◌==◌, arith, drop, length-drop, All,
}
use mathlib.Core.List.{append_assoc, append-nil}
use virtual_usb.Usbip
use virtual_usb.Device.State.{Cmd, Data, Shared, ok, update, >>=_ok}
use virtual_usb.Device.Reply.{reply}
use virtual_usb.Device.Reply.Laws.{reply_in}
use virtual_usb.Device.Transfer.{send_loop, send_data_for_in_endpoint, send_len, advance, ep_idx}
use virtual_usb.Device.Transfer.Serve.{IsData, send_len-le, advance-All, serve, data_reply}

-- What the queue of an endpoint holds: IN commands to it. The endpoint is a 32-bit field.
pub record IsPending (ep : ℕ) (cmd : Cmd) : Type 0 where
  pub command : cmd.header.base.command ≡ Usbip.cmd_submit
  pub direction : cmd.header.base.direction ≡ Usbip.dir_in
  pub endpoint : ep_idx cmd ≡ ep
  pub word : cmd.header.base.ep < 2 ^ 32

pub update_same : {A : Type 0} (f : ℕ → A) (i : ℕ) → update f i (f i) ≡ f
update_same f i =
    fun_ext λ j. elim (Bool-cases (j == i)) [
      | inl e ↦ rw e (ap f (sym ((==_iff j i).0 e)))
      | inr e ↦ rw e
    ]

pub update_twice :
    {A : Type 0} (f : ℕ → A) (i : ℕ) (v w : A) → update (update f i v) i w ≡ update f i w
update_twice f i v w = fun_ext λ j. ground arith

pub update_self : {A : Type 0} (f : ℕ → A) (i : ℕ) (v : A) → update f i v i ≡ v
update_self f i v = ground arith

pub update_ne : {A : Type 0} (f : ℕ → A) (i j : ℕ) (v : A) → j ≢ i → update f i v j ≡ f j
update_ne f i j v h = ground arith

-- The state after an endpoint was served.
abbrev pub served : ℕ → Shared → List Cmd × List Cmd × List Data → Shared
served ep s (reps, cmds, items) = record s {
  reps = s.reps ++ reps;
  in_cmds = update s.in_cmds ep cmds;
  in_data = update s.in_data ep items;
}

served_none :
    (ep : ℕ) (s : Shared) (cmds : List Cmd) (items : List Data)
    → s.in_cmds ep ≡ cmds
    → s.in_data ep ≡ items
    → s ≡ served ep s ([], cmds, items)
served_none ep s cmds items c d = sym λ i. record s {
  reps = append-nil s.reps i;
  in_cmds = (ap (update s.in_cmds ep) (sym c) ∙ update_same s.in_cmds ep) i;
  in_data = (ap (update s.in_data ep) (sym d) ∙ update_same s.in_data ep) i;
}

-- One round, and then what the rest of the loop does.
served-served :
    (ep : ℕ) (s : Shared) (rep : Cmd) (cmds : List Cmd) (items : List Data) (reps cmds' : List Cmd)
    (items' : List Data)
    → served ep (served ep s (rep ∷ [], cmds, items)) (reps, cmds', items')
      ≡ served ep s (rep ∷ reps, cmds', items')
served-served ep s rep cmds items reps cmds' items' = λ i. record s {
  reps = append_assoc s.reps (rep ∷ []) reps i;
  in_cmds = update_twice s.in_cmds ep cmds cmds' i;
  in_data = update_twice s.in_data ep items items' i;
}

module _ (little : Bool) (ep : ℕ) where
  round :
      (cmd : Cmd) (cmds : List Cmd) (d : Data) (rest : List Data) (s : Shared)
      → s.in_data ep ≡ d ∷ rest
      → IsPending ep cmd
      → IsData d
      → send_loop little ep (cmd ∷ cmds) s
        ≡ send_loop little ep cmds (
            served ep s (
              data_reply little cmd d (send_len cmd d) ∷ [],
              cmds,
              advance d rest (send_len cmd d),
            ))
  unfolding send_loop
  round cmd cmds d rest s e p v =
      rw (e, send_loop)
        (>>=_ok (reply little cmd (some (drop d.off d.bytes)) (send_len cmd d) 0) _ s (
          reply_in little cmd 0 s (drop d.off d.bytes) (send_len cmd d) p.command p.direction
            (omega (arith, send_len-le cmd v, length-drop d.off d.bytes))))

  pub send_loop-serve :
      (cmds : List Cmd) (items : List Data) (s : Shared)
      → s.in_cmds ep ≡ cmds
      → s.in_data ep ≡ items
      → All (IsPending ep) cmds
      → All IsData items
      → send_loop little ep cmds s ≡ (ok tt, served ep s (serve little cmds items))
  unfolding send_loop serve
  send_loop-serve [] items s c d p v = ap (λ t. (ok tt, t)) (served_none ep s [] items c d)
  send_loop-serve (cmd ∷ cmds) [] s c d p v =
      rw (d, send_loop) (ap (λ t. (ok tt, t)) (served_none ep s (cmd ∷ cmds) [] c d))
  send_loop-serve (cmd ∷ cmds) (d ∷ rest) s c e p v =
      round cmd cmds d rest s e p.0 v.0
      ∙ send_loop-serve cmds (advance d rest (send_len cmd d)) _ (update_self s.in_cmds ep cmds)
          (update_self s.in_data ep (advance d rest (send_len cmd d))) p.1
          (advance-All d rest cmd v.0 v.1)
      ∙ ap (λ t. (ok tt, t)) (served-served ep s _ _ _ _ _ _)

  -- On a queue of IN commands of its endpoint and data with sound offsets, the loop of
  -- _sendDataForInEndpoint computes the function serve of the two queues: it queues the replies of
  -- serve, leaves its two queues, and changes nothing else.
  pub send_data-serve :
      (s : Shared)
      → All (IsPending ep) (s.in_cmds ep)
      → All IsData (s.in_data ep)
      → send_data_for_in_endpoint little ep s
        ≡ (ok tt, served ep s (serve little (s.in_cmds ep) (s.in_data ep)))
  unfolding send_data_for_in_endpoint
  send_data-serve s p v = send_loop-serve (s.in_cmds ep) (s.in_data ep) s refl refl p v
