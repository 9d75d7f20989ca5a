-- ===== src/Device/Moves.antt =====
-- What one operation of the device does to the data streams of its endpoints, and the invariant of
-- its queues.
pub mod Inbound
pub mod Write
pub mod Dispatch
use virtual_usb.Base.{
  ℕ, ◌+◌, ◌++◌, ◌≡◌, ◌≢◌, refl, ap, sym, subst, ◌∙◌, ◌⊎◌, inl, inr, Bool, List, [], ◌∷◌, arith, All,
  All-append, ℕ_discrete,
}
use mathlib.Core.List.{append_assoc, append-nil}
use virtual_usb.Device.State.{Cmd, Data, Shared, update}
use virtual_usb.Device.Transfer.Serve.{
  IsData, pending, payloads, serve, serve_stream, serve-All, serve_exhausts,
}
use virtual_usb.Device.Transfer.Refine.{IsPending, served, update_self, update_ne}
use virtual_usb.Device.Transfer.Delivered.{
  delivered, delivered_own, delivered_other, serve-IsPending,
}

-- Every queue holds IN commands of its endpoint, and data with sound offsets.
pub record IsQueued (s : Shared) : Type 0 where
  pub pendings : (ep : ℕ) → All (IsPending ep) (s.in_cmds ep)
  pub items : (ep : ℕ) → All IsData (s.in_data ep)

-- Nothing waits that could be served.
abbrev pub IsIdle : Shared → ℕ → Type 0
IsIdle s ep = (s.in_cmds ep ≡ []) ⊎ (s.in_data ep ≡ [])

pub record IsWf (s : Shared) : Type 0 where
  pub queued : IsQueued s
  pub idle : (ep : ℕ) → IsIdle s ep

module _ (little : Bool) where
  -- From `s` to `s'` replies are queued, at each endpoint `gain` bytes are taken on, and what the
  -- replies carry leaves the front of what was waiting. Endpoint 0 also carries control replies.
  pub record Moves (s s' : Shared) (gain : ℕ → List ℕ) : Type 0 where
    pub wf : IsWf s'
    pub new : List Cmd
    pub reps : s'.reps ≡ s.reps ++ new
    pub stream :
        (ep : ℕ)
        → ep ≢ 0
        → delivered little ep new ++ pending (s'.in_data ep) ≡ pending (s.in_data ep) ++ gain ep

  -- An operation that leaves the data queues alone.
  pub quiet-Moves :
      {s s' : Shared} (new : List Cmd)
      → IsWf s'
      → s'.reps ≡ s.reps ++ new
      → s'.in_data ≡ s.in_data
      → ((ep : ℕ) → ep ≢ 0 → delivered little ep new ≡ [])
      → Moves s s' (λ _. [])
  quiet-Moves {s} {s'} new w r d e = record {
    wf = w;
    new = new;
    reps = r;
    stream = λ ep ne.
        ap (λ t. t ++ pending (s'.in_data ep)) (e ep ne)
        ∙ ap (λ q. pending (q ep)) d
        ∙ sym (append-nil (pending (s.in_data ep)));
  }

  module _ (ep : ℕ) (s : Shared) (q : IsQueued s) where
    abbrev after : Shared
    after = served ep s (serve little (s.in_cmds ep) (s.in_data ep))

    after-IsQueued : IsQueued after
    after-IsQueued = record {
      pendings = λ e. elim (ℕ_discrete e ep) [
        | yes h ↦
            subst (λ k. All (IsPending k) (after.in_cmds k)) (sym h)
              (subst (All (IsPending ep)) (sym (update_self s.in_cmds ep _))
                (serve-IsPending little ep _ (s.in_data ep) (q.pendings ep)).1)
        | no h ↦ subst (All (IsPending e)) (sym (update_ne s.in_cmds ep e _ h)) (q.pendings e)
      ];
      items = λ e. elim (ℕ_discrete e ep) [
        | yes h ↦
            subst (λ k. All IsData (after.in_data k)) (sym h)
              (subst (All IsData) (sym (update_self s.in_data ep _))
                (serve-All little (s.in_cmds ep) _ (q.items ep)))
        | no h ↦ subst (All IsData) (sym (update_ne s.in_data ep e _ h)) (q.items e)
      ];
    }

    after-IsIdle : ((e : ℕ) → e ≢ ep → IsIdle s e) → (e : ℕ) → IsIdle after e
    after-IsIdle others e = elim (ℕ_discrete e ep) [
      | yes h ↦ ground (arith, serve_exhausts little (s.in_cmds ep) (s.in_data ep))
      | no h ↦ ground (arith, others e h)
    ]

    after_stream :
        (e : ℕ)
        → delivered little e (serve little (s.in_cmds ep) (s.in_data ep)).0
            ++ pending (after.in_data e)
          ≡ pending (s.in_data e)
    after_stream e = elim (ℕ_discrete e ep) [
      | yes h ↦
          let own = delivered_own little ep _ (serve-IsPending little ep _ _ (q.pendings ep)).0 in
          subst
            (λ k.
              delivered little k (serve little (s.in_cmds ep) (s.in_data ep)).0
                ++ pending (after.in_data k)
              ≡ pending (s.in_data k))
            (sym h)
            (ap (λ t. t ++ pending (after.in_data ep)) own
              ∙ ap (λ t. payloads (serve little (s.in_cmds ep) (s.in_data ep)).0 ++ pending t)
                  (update_self s.in_data ep (serve little (s.in_cmds ep) (s.in_data ep)).2)
              ∙ serve_stream little (s.in_cmds ep) (s.in_data ep) (q.items ep))
      | no h ↦
          ap (λ t. t ++ pending (after.in_data e))
            (delivered_other little e ep _ (serve-IsPending little ep _ _ (q.pendings ep)).0 h)
          ∙ ap pending (update_ne s.in_data ep e _ h)
    ]

  -- Serving an endpoint after its queues grew.
  pub after-Moves :
      (ep : ℕ) (s t : Shared) (gain : ℕ → List ℕ)
      → IsQueued t
      → ((e : ℕ) → e ≢ ep → IsIdle t e)
      → t.reps ≡ s.reps
      → ((e : ℕ) → pending (t.in_data e) ≡ pending (s.in_data e) ++ gain e)
      → Moves s (served ep t (serve little (t.in_cmds ep) (t.in_data ep))) gain
  after-Moves ep s t gain q others r p = record {
    wf = record { queued = after-IsQueued ep t q; idle = after-IsIdle ep t q others };
    new = (serve little (t.in_cmds ep) (t.in_data ep)).0;
    reps = ap (λ l. l ++ (serve little (t.in_cmds ep) (t.in_data ep)).0) r;
    stream = λ e _. after_stream ep t q e ∙ p e;
  }
