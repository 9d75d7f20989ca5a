-- ===== src/Device/History.antt =====
-- The device over time: the client's writes, the host's commands and the two threads in any order.
use virtual_usb.Base.{
  ℕ, ◌^◌, ◌<◌, ◌++◌, ◌≡◌, ◌≢◌, fun_ext, refl, ap, sym, subst, ◌∙◌, inl, Bool, List, [], ◌∷◌, Option,
  bit_and,
}
use mathlib.Core.List.{append_assoc, append-nil}
use virtual_usb.Usb.Endpoint
use virtual_usb.Device.State.{Cmd, Error, Info, Shared, initial}
use virtual_usb.Device.Transfer.{write_body}
use virtual_usb.Device.Transfer.Serve.{pending}
use virtual_usb.Device.Transfer.Delivered.{delivered, delivered-nil, delivered-append}
use virtual_usb.Device.Command.{handle_cmd}
use virtual_usb.Device.Moves.{IsWf, Moves}
use virtual_usb.Device.Moves.Inbound.{at_endpoint, taken}
use virtual_usb.Device.Moves.Write.{write-Moves}
use virtual_usb.Device.Moves.Dispatch.{handle_cmd-Moves}

-- The shared state, the replies that the write thread has taken for the socket, oldest first, and
-- for each endpoint all bytes that writes have taken on.
pub record System : Type 0 where
  pub shared : Shared
  pub wire : List Cmd
  pub written : ℕ → List ℕ

abbrev pub start : System
start = record { shared = initial; wire = []; written = λ _. [] }

abbrev pub write_idx : ℕ → ℕ
write_idx ep = bit_and ep Endpoint.index_mask

module _ (little : Bool) (info : Info) where
  -- One critical section. A handler that throws counts too: its changes stay.
  pub data Step (t u : System) : Type 0 where
    handles :
        (cmd : Cmd)
        → cmd.header.base.ep < 2 ^ 32
        → u ≡ record t { shared = (handle_cmd little info cmd t.shared).1 }
        → Step t u
    writes :
        (ep : ℕ) (p : Option (List ℕ)) (len : ℕ)
        → len < 2 ^ 64
        → (let o = write_body little ep p len t.shared in
            u ≡ record t {
              shared = o.1;
              written = λ e. t.written e ++ at_endpoint (write_idx ep) (taken o.0 p len) e;
            })
        → Step t u
    -- The write thread dequeues a reply.
    dequeues :
        (rep : Cmd) (reps : List Cmd)
        → t.shared.reps ≡ rep ∷ reps
        → u ≡ record t { shared = record (t.shared) { reps = reps }; wire = t.wire ++ (rep ∷ []) }
        → Step t u
    -- The read thread queues a command, a command is dequeued, or `_reset` runs.
    changes :
        (state : ℕ) (err : Option Error) (socket usbip_socket : Option ℕ) (shut_down : List ℕ)
        (cmds : List Cmd)
        → u ≡ record t {
          shared = record (t.shared) {
            state = state;
            err = err;
            socket = socket;
            usbip_socket = usbip_socket;
            shut_down = shut_down;
            cmds = cmds;
          };
        }
        → Step t u

  pub data Reach : System → Type 0 where
    begins : Reach start
    next : {t u : System} → Reach t → Step t u → Reach u

  pub record IsFaithful (t : System) : Type 0 where
    pub wf : IsWf t.shared
    pub stream :
        (ep : ℕ)
        → ep ≢ 0
        → delivered little ep (t.wire ++ t.shared.reps) ++ pending (t.shared.in_data ep)
          ≡ t.written ep

  start-IsFaithful : IsFaithful start
  start-IsFaithful = record {
    wf = record { queued = record { pendings = λ _. tt; items = λ _. tt }; idle = λ _. inl refl };
    stream = λ ep _. ap (λ l. l ++ []) (delivered-nil little ep);
  }

  -- What an operation moves fits onto what went before.
  moved-IsFaithful :
      (t : System) (s' : Shared) (gain : ℕ → List ℕ)
      → IsFaithful t
      → Moves little t.shared s' gain
      → IsFaithful (record t { shared = s'; written = λ e. t.written e ++ gain e })
  moved-IsFaithful t s' gain f m = record {
    wf = m.wf;
    stream = λ ep ne.
        let old = delivered little ep (t.wire ++ t.shared.reps) in
        ap (λ l. delivered little ep (t.wire ++ l) ++ pending (s'.in_data ep)) m.reps
        ∙ ap (λ l. delivered little ep l ++ pending (s'.in_data ep))
            (sym (append_assoc t.wire t.shared.reps m.new))
        ∙ ap (λ l. l ++ pending (s'.in_data ep)) (delivered-append little ep _ m.new)
        ∙ append_assoc old (delivered little ep m.new) (pending (s'.in_data ep))
        ∙ ap (λ l. old ++ l) (m.stream ep ne)
        ∙ sym (append_assoc old (pending (t.shared.in_data ep)) (gain ep))
        ∙ ap (λ l. l ++ gain ep) (f.stream ep ne);
  }

  Step-IsFaithful : {t u : System} → Step t u → IsFaithful t → IsFaithful u
  Step-IsFaithful {t} (handles cmd word e) f =
      let s' = (handle_cmd little info cmd t.shared).1 in
      subst IsFaithful (sym e) (
        subst (λ w. IsFaithful (record t { shared = s'; written = w }))
          (fun_ext λ ep. append-nil (t.written ep))
          (moved-IsFaithful t s' (λ _. []) f (handle_cmd-Moves little t.shared f.wf cmd word info)))
  Step-IsFaithful {t} (writes ep p len h e) f =
      subst IsFaithful (sym e)
        (moved-IsFaithful t _ _ f (write-Moves little t.shared f.wf ep p len h))
  Step-IsFaithful {t} (dequeues rep reps r e) f = subst IsFaithful (sym e) (record {
    wf = record {
      queued = record { pendings = f.wf.queued.pendings; items = f.wf.queued.items };
      idle = f.wf.idle;
    };
    stream = λ ep ne.
        ap (λ l. delivered little ep l ++ pending (t.shared.in_data ep))
          (append_assoc t.wire (rep ∷ []) reps ∙ ap (λ l. t.wire ++ l) (sym r))
        ∙ f.stream ep ne;
  })
  Step-IsFaithful {t} (changes a b c d l cmds e) f = subst IsFaithful (sym e) (record {
    wf = record {
      queued = record { pendings = f.wf.queued.pendings; items = f.wf.queued.items };
      idle = f.wf.idle;
    };
    stream = f.stream;
  })

  -- In every history of commands (each to a 32-bit endpoint), writes (of less than 2^64 bytes),
  -- dequeued replies and changes of the state bits, error, sockets and command queue, from the
  -- initial state, the queues stay well-formed, and for each endpoint but 0 the payloads of the
  -- replies that name it, taken for the socket or still queued, followed by the bytes that wait,
  -- are the bytes that the writes took on, in order.
  pub Reach-IsFaithful : {t : System} → Reach t → IsFaithful t
  Reach-IsFaithful begins = start-IsFaithful
  Reach-IsFaithful (next r st) = Step-IsFaithful st (Reach-IsFaithful r)
