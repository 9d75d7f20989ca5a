-- ===== src/Device/Transfer/Delivered.antt =====
-- The bytes that the replies to one endpoint carry.
use virtual_usb.Base.{
  ℕ, ◌%◌, ◌++◌, ◌≡◌, ◌≢◌, refl, ap, ◌∙◌, Bool, List, [], ◌∷◌, ◌==◌, if◌then◌else◌, arith, All,
}
use mathlib.Core.List.{append_assoc}
use virtual_usb.Endian.{hfb_u32}
use virtual_usb.Endian.Swap.{hfb_u32-bfh_u32}
use virtual_usb.Device.State.{Cmd, Data}
use virtual_usb.Device.Reply.{submit_reply, reply_base}
use virtual_usb.Device.Transfer.{send_len, advance}
use virtual_usb.Device.Transfer.Serve.{payloads, serve}
use virtual_usb.Device.Transfer.Refine.{IsPending}

module _ (little : Bool) where
  -- The endpoint that a queued reply names, as an index.
  abbrev pub rep_ep : Cmd → ℕ
  rep_ep rep = hfb_u32 little rep.header.base.ep % 256

  pub delivered : ℕ → List Cmd → List ℕ
  delivered ep [] = []
  delivered ep (rep ∷ reps) =
      if rep_ep rep == ep then rep.payload ++ delivered ep reps else delivered ep reps

  pub delivered-nil : (ep : ℕ) → delivered ep [] ≡ []
  unfolding delivered
  delivered-nil ep = refl

  pub delivered-append :
      (ep : ℕ) (xs ys : List Cmd) → delivered ep (xs ++ ys) ≡ delivered ep xs ++ delivered ep ys
  unfolding delivered
  delivered-append ep [] ys = refl
  delivered-append ep (x ∷ xs) ys =
      ground (
        arith,
        delivered-append ep xs ys,
        append_assoc x.payload (delivered ep xs) (delivered ep ys),
      )

  pub delivered_own :
      (ep : ℕ) (reps : List Cmd)
      → All (λ rep. rep_ep rep ≡ ep) reps
      → delivered ep reps ≡ payloads reps
  unfolding delivered
  delivered_own ep [] h = refl
  delivered_own ep (rep ∷ reps) h = ground (arith, delivered_own ep reps h.1)

  pub delivered_other :
      (ep e : ℕ) (reps : List Cmd)
      → All (λ rep. rep_ep rep ≡ e) reps
      → ep ≢ e
      → delivered ep reps ≡ []
  unfolding delivered
  delivered_other ep e [] h ne = refl
  delivered_other ep e (rep ∷ reps) h ne = ground (arith, delivered_other ep e reps h.1 ne)

  pub delivered_empty : (ep : ℕ) (rep : Cmd) → rep.payload ≡ [] → delivered ep (rep ∷ []) ≡ []
  unfolding delivered
  delivered_empty ep rep e = ground arith

  -- The replies to an endpoint's commands name it, and the commands left are its own.
  pub serve-IsPending :
      (ep : ℕ) (cmds : List Cmd) (items : List Data)
      → All (IsPending ep) cmds
      → All (λ rep. rep_ep rep ≡ ep) (serve little cmds items).0
        × All (IsPending ep) (serve little cmds items).1
  unfolding serve submit_reply reply_base
  serve-IsPending ep [] items p = (tt, tt)
  serve-IsPending ep (cmd ∷ cmds) [] p = (tt, p)
  serve-IsPending ep (cmd ∷ cmds) (d ∷ rest) p =
      let later = serve-IsPending ep cmds (advance d rest (send_len cmd d)) p.1 in
      (
        (
          ap (λ w. w % 256) (hfb_u32-bfh_u32 little cmd.header.base.ep p.0.word) ∙ p.0.endpoint,
          later.0,
        ),
        later.1,
      )
