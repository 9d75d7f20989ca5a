-- ===== src/Device/Moves/Dispatch.antt =====
-- `_handleCmd` keeps the invariant of the queues, and moves the bytes of every stream in order,
-- whatever the command.
use virtual_usb.Base.{
  ℕ, ◌%◌, ◌^◌, ◌<◌, ◌++◌, ◌≡◌, ◌≢◌, refl, ap, sym, subst, ◌∙◌, inl, inr, Bool, List, [], ◌∷◌, none,
  some, arith, All, All-remove, Bool-cases, ==_iff, bit_and, leb, ◌==◌, ℕ_discrete,
}
use mathlib.Core.List.{append-nil}
use virtual_usb.Endian.{hfb_u32, bfh_u32}
use virtual_usb.Endian.Swap.{hfb_u32-bfh_u32}
use virtual_usb.Usb.Endpoint
use virtual_usb.Usb.RequestType
use virtual_usb.Usbip
use virtual_usb.Usbip.{cmd_unlink_seqnum}
use virtual_usb.Device.State.{
  Cmd, Info, Shared, Result, ok, throws, aborts, undefined, continue, update,
}
use virtual_usb.Device.Reply.{submit_reply, unlink_reply, reply_base}
use virtual_usb.Device.Reply.Laws.{reply_out}
use virtual_usb.Device.Reply.Ends.{IsEndAt, answered, refused}
use virtual_usb.Device.Transfer.{ep_idx, handle_cmd_submit_epx_out, handle_cmd_submit_epx_in}
use virtual_usb.Device.Transfer.Refine.{IsPending, update_self, update_ne}
use virtual_usb.Device.Transfer.Delivered.{delivered-nil, delivered_empty, delivered_other}
use virtual_usb.Device.Unlink.{handle_cmd_unlink}
use virtual_usb.Device.Unlink.Laws.{
  IsErasedFrom, Unlinked, removed, absent, handle_cmd_unlink-Unlinked,
}
use virtual_usb.Device.Standard.{handle_standard_request}
use virtual_usb.Device.Standard.Ends.{handle_standard_request-IsEnd}
use virtual_usb.Device.Command.{
  get_setup_request, handle_cmd_submit_epx, handle_cmd_submit_ep0, handle_cmd, set_setup_req,
}
use virtual_usb.Device.Moves.{IsIdle, IsWf, Moves, quiet-Moves}
use virtual_usb.Device.Moves.Inbound.{still-Moves, handle_in-Moves}

abbrev none_gained : ℕ → List ℕ
none_gained e = []

append_cons_ne : (xs : List Cmd) (y : Cmd) (ys : List Cmd) → xs ++ (y ∷ ys) ≢ []
append_cons_ne [] y ys e = cc
append_cons_ne (x ∷ xs) y ys e = cc

module _ (little : Bool) (s : Shared) (w : IsWf s) (cmd : Cmd) where
  -- What is done with the result of a handler does not touch the state.
  then-Moves :
      {A B : Type 0} (f : A → Result B) (o : Result A × Shared)
      → Moves little s o.1 none_gained
      → Moves little s (continue (λ a s'. (f a, s')) o).1 none_gained
  then-Moves f (ok a, s') m = m
  then-Moves f (throws e, s') m = m
  then-Moves f (aborts, s') m = m
  then-Moves f (undefined, s') m = m

  end-Moves :
      (o : Result (Unit {0}) × Shared)
      → cmd.header.base.ep ≡ 0
      → IsEndAt little cmd s o
      → Moves little s o.1 none_gained
  unfolding reply_base
  end-Moves o z (answered rep c a e) =
      subst (λ p. Moves little s p.1 none_gained) (sym e)
        (quiet-Moves little (rep ∷ [])
          (record {
            queued = record { pendings = w.queued.pendings; items = w.queued.items };
            idle = w.idle;
          })
          refl refl λ ep ne. delivered_other little ep 0 (rep ∷ []) (named, tt) ne)
    where
      named : hfb_u32 little rep.header.base.ep % 256 ≡ 0
      named =
          ap (λ b. hfb_u32 little b.ep % 256) a.base
          ∙ ap (λ e. hfb_u32 little (bfh_u32 little e) % 256) z
          ∙ ap (λ k. k % 256) (hfb_u32-bfh_u32 little 0 (omega arith))
  end-Moves o z (refused x c e) =
      subst (λ p. Moves little s p.1 none_gained) (sym e)
        (quiet-Moves little []
          (record {
            queued = record { pendings = w.queued.pendings; items = w.queued.items };
            idle = w.idle;
          })
          (sym (append-nil s.reps)) refl λ ep _. delivered-nil little ep)

  out-Moves :
      cmd.header.base.command ≡ Usbip.cmd_submit
      → cmd.header.base.direction ≡ Usbip.dir_out
      → Moves little s (handle_cmd_submit_epx_out little cmd s).1 none_gained
  unfolding handle_cmd_submit_epx_out submit_reply
  out-Moves c d = elim (Bool-cases (leb Endpoint.max_count (ep_idx cmd))) [
    | inl bad ↦ rw bad (still-Moves little s w)
    | inr good ↦
        rw (good, reply_out little cmd 0 s cmd.payload_len c d)
          (quiet-Moves little (submit_reply little cmd [] 0 cmd.payload_len ∷ [])
            (record {
              queued = record { pendings = w.queued.pendings; items = w.queued.items };
              idle = w.idle;
            })
            refl refl λ ep _. delivered_empty little ep _ refl)
  ]

  module _ (n seqnum : ℕ) (queues : ℕ → List Cmd)
      (x : IsErasedFrom seqnum 0 n s.in_cmds queues) where
    abbrev erased : Shared
    erased = record s { in_cmds = queues }

    left-IsPending : All (IsPending x.at) x.left
    left-IsPending = subst (All (IsPending x.at)) (sym x.erased.rest) (
        All-remove (IsPending x.at) x.erased.before x.erased.cmd x.erased.behind
          (subst (All (IsPending x.at)) x.erased.whole (w.queued.pendings x.at)))

    erased-pendings : (e : ℕ) → All (IsPending e) (queues e)
    erased-pendings e =
        subst (λ q. All (IsPending e) (q e)) (sym x.updated)
          (elim (ℕ_discrete e x.at) [
            | yes h ↦
                subst (λ k. All (IsPending k) (update s.in_cmds x.at x.left k)) (sym h)
                  (subst (All (IsPending x.at)) (sym (update_self s.in_cmds x.at x.left))
                    left-IsPending)
            | no h ↦
                subst (All (IsPending e)) (sym (update_ne s.in_cmds x.at e x.left h))
                  (w.queued.pendings e)
          ])

    erased-IsIdle : (e : ℕ) → IsIdle erased e
    erased-IsIdle e = elim (w.idle e) [
      | inr d ↦ inr d
      | inl c ↦ elim (ℕ_discrete e x.at) [
        | yes h ↦
            absurd
              (append_cons_ne x.erased.before _ _ (sym x.erased.whole ∙ ap s.in_cmds (sym h) ∙ c))
        | no h ↦ inl (ap (λ q. q e) x.updated ∙ update_ne s.in_cmds x.at e x.left h ∙ c)
      ]
    ]

  unlink-Moves :
      cmd.header.base.command ≡ Usbip.cmd_unlink
      → Moves little s (handle_cmd_unlink little cmd s).1 none_gained
  unfolding handle_cmd_unlink unlink_reply
  unlink-Moves c = elim (Bool-cases (leb Endpoint.max_count (ep_idx cmd))) [
    | inl bad ↦ rw (bad, handle_cmd_unlink) (still-Moves little s w)
    | inr good ↦ step _ (handle_cmd_unlink-Unlinked little cmd s c (ground arith))
  ]
    where
      step :
          (o : Result (Unit {0}) × Shared)
          → Unlinked little cmd s o
          → Moves little s o.1 none_gained
      step o (removed queues x e) =
          subst (λ p. Moves little s p.1 none_gained) (sym e)
            (quiet-Moves little (unlink_reply little cmd _ ∷ [])
              (record {
                queued = record { pendings = erased-pendings _ _ queues x; items = w.queued.items };
                idle = erased-IsIdle _ _ queues x;
              })
              refl refl λ ep _. delivered_empty little ep _ refl)
      step o (absent all e) =
          subst (λ p. Moves little s p.1 none_gained) (sym e)
            (quiet-Moves little (unlink_reply little cmd 0 ∷ [])
              (record {
                queued = record { pendings = w.queued.pendings; items = w.queued.items };
                idle = w.idle;
              })
              refl refl λ ep _. delivered_empty little ep _ refl)

  module _ (word : cmd.header.base.ep < 2 ^ 32) where
    epx-Moves :
        cmd.header.base.command ≡ Usbip.cmd_submit
        → Moves little s (handle_cmd_submit_epx little cmd s).1 none_gained
    unfolding handle_cmd_submit_epx
    epx-Moves c = elim (Bool-cases (cmd.header.base.direction == Usbip.dir_out)) [
      | inl out ↦ rw out (
          then-Moves (λ xfer. ok (some xfer)) (handle_cmd_submit_epx_out little cmd s)
            (out-Moves c ((==_iff _ _).0 out)))
      | inr not_out ↦ rw not_out (elim (Bool-cases (cmd.header.base.direction == Usbip.dir_in)) [
        | inl din ↦ rw din (
            then-Moves (λ _. ok none) (handle_cmd_submit_epx_in little cmd s)
              (handle_in-Moves little cmd
                (record { command = c; direction = (==_iff _ _).0 din; word = word }) s w))
        | inr bad ↦ rw bad (still-Moves little s w)
      ])
    ]

    module _ (info : Info) where
      ep0-Moves :
          cmd.header.base.command ≡ Usbip.cmd_submit
          → cmd.header.base.ep ≡ 0
          → Moves little s (handle_cmd_submit_ep0 little info cmd s).1 none_gained
      unfolding handle_cmd_submit_ep0
      ep0-Moves c z =
          let req = get_setup_request little cmd in
          elim (Bool-cases
            (bit_and req.bm_request_type RequestType.type_mask == RequestType.type_standard)) [
              | inl std ↦ rw std (
                  then-Moves (λ _. ok none) (handle_standard_request little info cmd req s)
                    (end-Moves _ z (handle_standard_request-IsEnd little info cmd req s)))
              | inr other ↦ rw other (
                  then-Moves (λ xfer. ok (set_setup_req little req xfer))
                    (handle_cmd_submit_epx little cmd s) (epx-Moves c))
            ]

      -- From a state with well-formed queues, a command to a 32-bit endpoint, however it ends,
      -- leaves well-formed queues and only adds replies; at each endpoint but 0 the payloads of the
      -- new replies and the bytes that still wait are the bytes that waited.
      pub handle_cmd-Moves : Moves little s (handle_cmd little info cmd s).1 none_gained
      unfolding handle_cmd
      handle_cmd-Moves = elim (Bool-cases (cmd.header.base.command == Usbip.cmd_submit)) [
        | inl sub ↦ rw sub (elim (Bool-cases (cmd.header.base.ep == 0)) [
          | inl z ↦ rw z (ep0-Moves ((==_iff _ _).0 sub) ((==_iff _ _).0 z))
          | inr nz ↦ rw nz (epx-Moves ((==_iff _ _).0 sub))
        ])
        | inr not_sub ↦
            rw not_sub (elim (Bool-cases (cmd.header.base.command == Usbip.cmd_unlink)) [
              | inl unl ↦ rw unl (
                  then-Moves (λ _. ok none) (handle_cmd_unlink little cmd s)
                    (unlink-Moves ((==_iff _ _).0 unl)))
              | inr bad ↦ rw bad (still-Moves little s w)
            ])
      ]
