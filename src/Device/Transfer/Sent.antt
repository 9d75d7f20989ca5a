-- ===== src/Device/Transfer/Sent.antt =====
-- `_sendDataForInEndpoint`: which bytes go out under which command.
use virtual_usb.Base.{
  ℕ, ◌++◌, ◌≡◌, ◌≢◌, refl, ap, sym, subst, ◌∙◌, ◌⊎◌, inl, inr, Bool, List, [], map, All,
}
use virtual_usb.Device.State.{Cmd, Shared, Result, ok}
use virtual_usb.Device.Transfer.{send_data_for_in_endpoint}
use virtual_usb.Device.Transfer.Serve.{
  IsData, pending, payloads, serve, serve_stream, serve_exhausts, serve_order, wire_seqnum,
  rep_seqnum,
}
use virtual_usb.Device.Transfer.Refine.{IsPending, update_self, update_ne, send_data-serve}

module _ (little : Bool) (ep : ℕ) where
  -- From `s` the loop returns and leaves `s'`, having queued the replies `new`.
  pub record IsSent (s : Shared) (o : Result (Unit {0}) × Shared) : Type 0 where
    pub new : List Cmd
    pub returns : o.0 ≡ ok tt
    pub reps : o.1.reps ≡ s.reps ++ new
    -- The bytes of the replies and those still pending are the bytes that were pending.
    pub stream : payloads new ++ pending (o.1.in_data ep) ≡ pending (s.in_data ep)
    -- Each reply answers a command, in the order of the commands, and the others wait on.
    pub order :
        map (rep_seqnum little) new ++ map (wire_seqnum little) (o.1.in_cmds ep)
        ≡ map (wire_seqnum little) (s.in_cmds ep)
    -- No command waits beside data.
    pub idle : (o.1.in_cmds ep ≡ []) ⊎ (o.1.in_data ep ≡ [])
    pub others : (e : ℕ) → e ≢ ep → (o.1.in_cmds e ≡ s.in_cmds e) × (o.1.in_data e ≡ s.in_data e)
    pub active : o.1.config_desc ≡ s.config_desc

  -- On a queue of IN commands of its endpoint and data with sound offsets, _sendDataForInEndpoint
  -- returns; its replies and what still waits carry the bytes that waited, in order; its replies
  -- answer the first commands in order, each once, and the others stay; one of the two queues is
  -- empty; and no other endpoint changes.
  pub send_data-IsSent :
      (s : Shared)
      → All (IsPending ep) (s.in_cmds ep)
      → All IsData (s.in_data ep)
      → IsSent s (send_data_for_in_endpoint little ep s)
  send_data-IsSent s p v =
      let (reps, cmds, items) = serve little (s.in_cmds ep) (s.in_data ep) in
      subst (IsSent s) (sym (send_data-serve little ep s p v)) (record {
        new = reps;
        returns = refl;
        reps = refl;
        stream =
            ap (λ l. payloads reps ++ pending l) (update_self s.in_data ep items)
            ∙ serve_stream little (s.in_cmds ep) (s.in_data ep) v;
        order =
            ap (λ l. map (rep_seqnum little) reps ++ map (wire_seqnum little) l)
              (update_self s.in_cmds ep cmds)
            ∙ serve_order little (s.in_cmds ep) (s.in_data ep);
        idle = elim (serve_exhausts little (s.in_cmds ep) (s.in_data ep)) [
          | inl e ↦ inl (update_self s.in_cmds ep cmds ∙ e)
          | inr e ↦ inr (update_self s.in_data ep items ∙ e)
        ];
        others = λ e ne. (update_ne s.in_cmds ep e cmds ne, update_ne s.in_data ep e items ne);
        active = refl;
      })
