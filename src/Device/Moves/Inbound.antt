-- ===== src/Device/Moves/Inbound.antt =====
-- The operations on the data queues move bytes in order: an IN command, and a write by the client.
use virtual_usb.Base.{
  ℕ, ◌^◌, ◌<◌, ◌++◌, ◌≡◌, ◌≢◌, refl, ap, sym, subst, ◌∙◌, inl, inr, Bool, List, [], ◌∷◌, Option,
  none, some, arith, All, All-append, ℕ_discrete, Bool-cases, leb, ◌==◌, if◌then◌else◌, length,
  take, drop,
}
use mathlib.Core.List.{append_assoc, append-nil}
use virtual_usb.Usb.Endpoint
use virtual_usb.Usbip
use virtual_usb.Device.State.{Cmd, Data, Shared, Result, ok, throws, aborts, undefined, update}
use virtual_usb.Device.Transfer.{ep_idx, handle_cmd_submit_epx_in, send_data_for_in_endpoint}
use virtual_usb.Device.Transfer.Serve.{IsData, pending}
use virtual_usb.Device.Transfer.Refine.{IsPending, update_self, update_ne, send_data-serve}
use virtual_usb.Device.Transfer.Delivered.{delivered-nil}
use virtual_usb.Device.Moves.{IsQueued, IsIdle, IsWf, Moves, quiet-Moves, after-Moves}

-- A command that the host may send to an endpoint, for IN data.
pub record IsInSubmit (cmd : Cmd) : Type 0 where
  pub command : cmd.header.base.command ≡ Usbip.cmd_submit
  pub direction : cmd.header.base.direction ≡ Usbip.dir_in
  pub word : cmd.header.base.ep < 2 ^ 32

pub still-Moves : (little : Bool) (s : Shared) → IsWf s → Moves little s s (λ _. [])
still-Moves little s w =
    quiet-Moves little [] w (sym (append-nil s.reps)) refl (λ ep _. delivered-nil little ep)

module _ (little : Bool) (cmd : Cmd) (c : IsInSubmit cmd) (s : Shared) (w : IsWf s) where
  abbrev pushed : Shared
  pushed = record s {
    in_cmds = update s.in_cmds (ep_idx cmd) (s.in_cmds (ep_idx cmd) ++ (cmd ∷ []));
  }

  pushed-IsQueued : IsQueued pushed
  pushed-IsQueued = record {
    pendings = λ e. elim (ℕ_discrete e (ep_idx cmd)) [
      | yes h ↦
          subst (λ k. All (IsPending k) (pushed.in_cmds k)) (sym h)
            (subst (All (IsPending (ep_idx cmd))) (sym (update_self s.in_cmds (ep_idx cmd) _)) (
              All-append (IsPending (ep_idx cmd)) (s.in_cmds (ep_idx cmd)) (cmd ∷ [])
                (w.queued.pendings (ep_idx cmd))
                (
                  record {
                    command = c.command;
                    direction = c.direction;
                    endpoint = refl;
                    word = c.word;
                  },
                  tt,
                )))
      | no h ↦
          subst (All (IsPending e)) (sym (update_ne s.in_cmds (ep_idx cmd) e _ h))
            (w.queued.pendings e)
    ];
    items = w.queued.items;
  }

  pushed-IsIdle : (e : ℕ) → e ≢ ep_idx cmd → IsIdle pushed e
  pushed-IsIdle e h = ground (arith, w.idle e)

  -- An IN command: it waits, or data is sent for it.
  pub handle_in-Moves : Moves little s (handle_cmd_submit_epx_in little cmd s).1 (λ _. [])
  unfolding handle_cmd_submit_epx_in
  handle_in-Moves = elim (Bool-cases (leb Endpoint.max_count (ep_idx cmd))) [
    | inl bad ↦ rw bad (still-Moves little s w)
    | inr good ↦ rw good (
        subst (λ o. Moves little s o.1 (λ _. []))
          (sym (
            send_data-serve little (ep_idx cmd) pushed (pushed-IsQueued.pendings _)
              (pushed-IsQueued.items _)))
          (after-Moves little (ep_idx cmd) s pushed (λ _. []) pushed-IsQueued pushed-IsIdle refl
            (λ e. sym (append-nil (pending (s.in_data e))))))
  ]

-- At one endpoint, the bytes that a write adds.
abbrev pub at_endpoint : ℕ → List ℕ → ℕ → List ℕ
at_endpoint idx bs e = if e == idx then bs else []

abbrev pub copied : Option (List ℕ) → ℕ → List ℕ
copied none len = []
copied (some m) len = take len m

-- What a write takes on: all that it was given, if it returns.
abbrev pub taken : Result (Unit {0}) → Option (List ℕ) → ℕ → List ℕ
taken (ok r) p len = copied p len
taken (throws e) p len = []
taken aborts p len = []
taken undefined p len = []

pending-append : (xs ys : List Data) → pending (xs ++ ys) ≡ pending xs ++ pending ys
pending-append [] ys = refl
pending-append (d ∷ xs) ys =
    ap (λ t. drop d.off d.bytes ++ t) (pending-append xs ys)
    ∙ sym (append_assoc (drop d.off d.bytes) _ _)

abbrev pub item : List ℕ → ℕ → Data
item bs len = record { bytes = bs; len = len; off = 0 }

module _ (little : Bool) (s : Shared) (w : IsWf s) (idx : ℕ) (bs : List ℕ) (len : ℕ)
    (size : len < 2 ^ 64) (full : len ≡ length bs) where
  abbrev pub enqueued : Shared
  enqueued = record s { in_data = update s.in_data idx (s.in_data idx ++ (item bs len ∷ [])) }

  enqueued-IsQueued : IsQueued enqueued
  enqueued-IsQueued = record {
    pendings = w.queued.pendings;
    items = λ e. elim (ℕ_discrete e idx) [
      | yes h ↦
          subst (λ k. All IsData (enqueued.in_data k)) (sym h)
            (subst (All IsData) (sym (update_self s.in_data idx _)) (
              All-append IsData (s.in_data idx) (item bs len ∷ []) (w.queued.items idx)
                (record { full = full; size = size; within = omega arith }, tt)))
      | no h ↦ subst (All IsData) (sym (update_ne s.in_data idx e _ h)) (w.queued.items e)
    ];
  }

  enqueued-IsIdle : (e : ℕ) → e ≢ idx → IsIdle enqueued e
  enqueued-IsIdle e h = ground (arith, w.idle e)

  enqueued-pending :
      (e : ℕ) → pending (enqueued.in_data e) ≡ pending (s.in_data e) ++ at_endpoint idx bs e
  enqueued-pending e = ground (
    arith,
    pending-append (s.in_data e) (item bs len ∷ []),
    append-nil bs,
    append-nil (pending (s.in_data e)),
  )

  pub enqueued-Moves :
      Moves little s (send_data_for_in_endpoint little idx enqueued).1 (at_endpoint idx bs)
      × ((send_data_for_in_endpoint little idx enqueued).0 ≡ ok tt)
  enqueued-Moves =
      let e =
        send_data-serve little idx enqueued (enqueued-IsQueued.pendings idx)
          (enqueued-IsQueued.items idx) in
      (
        subst (λ o. Moves little s o.1 (at_endpoint idx bs)) (sym e)
            (after-Moves little idx s enqueued (at_endpoint idx bs) enqueued-IsQueued
              enqueued-IsIdle refl enqueued-pending),
        ap (λ o. o.0) e,
      )
