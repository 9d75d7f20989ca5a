-- ===== src/Device/Unlink/Laws.antt =====
-- What `_handleCmdUnlink` removes: the first command of the number, in the first queue that has one.
use virtual_usb.Base.{
  ℕ, zero, suc, ◌+◌, ◌≤◌, ◌<◌, ◌++◌, ◌≡◌, ◌≢◌, refl, ap, sym, subst, ◌∙◌, ◌⊎◌, inl, inr, Bool, List,
  [], ◌∷◌, Option, none, some, arith, All, Bool-cases, ◌==◌, ==_iff, leb-false, ℕ_discrete,
}
use virtual_usb.Usb.Endpoint
use virtual_usb.Usbip
use virtual_usb.Usbip.{cmd_unlink_seqnum}
use virtual_usb.Device.State.{Cmd, Shared, Result, ok, update, ◌>>◌}
use virtual_usb.Device.Reply.{unlink_reply, reply}
use virtual_usb.Device.Reply.Laws.{reply_unlink}
use virtual_usb.Device.Transfer.{ep_idx}
use virtual_usb.Device.Unlink.{
  erase_seqnum, erase_from, econnreset_status, set_in_cmds, unlink_status, handle_cmd_unlink,
}

module _ (seqnum : ℕ) where
  abbrev pub IsOther : Cmd → Type 0
  IsOther cmd = cmd.header.base.seqnum ≢ seqnum

  -- `cmds'` is `cmds` without its first command of the number.
  pub record IsErased (cmds cmds' : List Cmd) : Type 0 where
    pub before : List Cmd
    pub cmd : Cmd
    pub behind : List Cmd
    pub whole : cmds ≡ before ++ (cmd ∷ behind)
    pub rest : cmds' ≡ before ++ behind
    pub hit : cmd.header.base.seqnum ≡ seqnum
    pub first : All IsOther before

  -- What the search in one queue comes to.
  abbrev pub Search : List Cmd → Option (List Cmd) → Type 0
  Search cmds r =
      ((r ≡ none) × All IsOther cmds)
      ⊎ ((cmds' : List Cmd) × (r ≡ some cmds') × IsErased cmds cmds')

  pub erase-Search : (cmds : List Cmd) → Search cmds (erase_seqnum seqnum cmds)
  unfolding erase_seqnum
  erase-Search [] = inl (refl, tt)
  erase-Search (c ∷ cmds) = elim (Bool-cases (c.header.base.seqnum == seqnum)) [
    | inl e ↦ inr (
      cmds,
      rw e,
      record {
        before = [];
        cmd = c;
        behind = cmds;
        whole = refl;
        rest = refl;
        hit = (==_iff _ _).0 e;
        first = tt;
      },
    )
    | inr e ↦ rw e (miss (λ h. cc (sym e ∙ (==_iff _ _).1 h)) (erase-Search cmds))
  ]
    where
      miss :
          IsOther c
          → Search cmds (erase_seqnum seqnum cmds)
          → Search
              (c ∷ cmds)
              (elim (erase_seqnum seqnum cmds) [ none ↦ none | some cmds' ↦ some (c ∷ cmds') ])
      miss n (inl (e, all)) = inl (
        ap (λ (r : Option (List Cmd)). elim r [ none ↦ none | some l ↦ some (c ∷ l) ]) e,
        (n, all),
      )
      miss n (inr (cmds', e, x)) = inr (
        c ∷ cmds',
        ap (λ (r : Option (List Cmd)). elim r [ none ↦ none | some l ↦ some (c ∷ l) ]) e,
        record {
          before = c ∷ x.before;
          cmd = x.cmd;
          behind = x.behind;
          whole = ap (λ l. c ∷ l) x.whole;
          rest = ap (λ l. c ∷ l) x.rest;
          hit = x.hit;
          first = (n, x.first);
        },
      )

  -- `queues'` is `queues` without the first command of the number, found at or after queue `i`.
  pub record IsErasedFrom (i n : ℕ) (queues queues' : ℕ → List Cmd) : Type 0 where
    pub at : ℕ
    pub left : List Cmd
    pub erased : IsErased (queues at) left
    pub updated : queues' ≡ update queues at left
    pub from : i ≤ at
    pub below : at < n
    pub earlier : (k : ℕ) → i ≤ k → k < at → All IsOther (queues k)

  abbrev pub SearchAll : ℕ → ℕ → (ℕ → List Cmd) → Option (ℕ → List Cmd) → Type 0
  SearchAll i n queues r =
      ((r ≡ none) × ((k : ℕ) → i ≤ k → k < n → All IsOther (queues k)))
      ⊎ ((queues' : ℕ → List Cmd) × (r ≡ some queues') × IsErasedFrom i n queues queues')

  pub erase_from-SearchAll :
      (rounds i n : ℕ) (queues : ℕ → List Cmd)
      → i + rounds ≡ n
      → SearchAll i n queues (erase_from seqnum rounds i queues)
  unfolding erase_from
  erase_from-SearchAll zero i n queues e = inl (refl, λ k a b. absurd (omega arith))
  erase_from-SearchAll (suc rounds) i n queues e =
      step (erase-Search (queues i)) (erase_from-SearchAll rounds (i + 1) n queues (omega arith))
    where
      at_or_after : (P : ℕ → Type 0) (k : ℕ) → P i → (i + 1 ≤ k → P k) → i ≤ k → P k
      at_or_after P k p q h = elim (ℕ_discrete i k) [ yes x ↦ subst P x p | no x ↦ q (omega arith) ]

      extend :
          All IsOther (queues i)
          → SearchAll (i + 1) n queues (erase_from seqnum rounds (i + 1) queues)
          → SearchAll i n queues (erase_from seqnum rounds (i + 1) queues)
      extend a (inl (r, all)) =
          inl (r, λ k h lt. at_or_after (λ m. All IsOther (queues m)) k a (λ h'. all k h' lt) h)
      extend a (inr (queues', r, x)) = inr (
        queues',
        r,
        record {
          at = x.at;
          left = x.left;
          erased = x.erased;
          updated = x.updated;
          below = x.below;
          from = omega (arith, x.from);
          earlier =
              λ k h lt. at_or_after (λ m. All IsOther (queues m)) k a (λ h'. x.earlier k h' lt) h;
        },
      )

      step :
          Search (queues i) (erase_seqnum seqnum (queues i))
          → SearchAll (i + 1) n queues (erase_from seqnum rounds (i + 1) queues)
          → SearchAll i n queues (erase_from seqnum (suc rounds) i queues)
      step (inl (r, all)) later = rw (r, erase_from) (extend all later)
      step (inr (cmds', r, x)) later =
          rw (r, erase_from)
            (inr (
              update queues i cmds',
              refl,
              record {
                at = i;
                left = cmds';
                erased = x;
                updated = refl;
                from = omega arith;
                below = omega arith;
                earlier = λ k a b. absurd (omega arith);
              },
            ))

-- The outcome of an unlink: the command is removed and the reply says so, or no IN command of that
-- number waits at any endpoint and the reply says 0.
pub data Unlinked (little : Bool) (cmd : Cmd) (s : Shared) (o : Result (Unit {0}) × Shared)
    : Type 0 where
  removed :
      (queues : ℕ → List Cmd)
      → IsErasedFrom (cmd_unlink_seqnum cmd.header) 0 Endpoint.max_count s.in_cmds queues
      → o ≡ (
        ok tt,
        record s {
          in_cmds = queues;
          reps = s.reps ++ (unlink_reply little cmd econnreset_status ∷ []);
        },
      )
      → Unlinked little cmd s o
  absent :
      ((k : ℕ)
        → k < Endpoint.max_count
        → All (IsOther (cmd_unlink_seqnum cmd.header)) (s.in_cmds k))
      → o ≡ (ok tt, record s { reps = s.reps ++ (unlink_reply little cmd 0 ∷ []) })
      → Unlinked little cmd s o

-- An UNLINK command to an endpoint below 32 returns with one reply: it removes exactly the first IN
-- command of its number, in the lowest endpoint that has one, and answers -ECONNRESET, or no
-- endpoint has such a command, no queue changes, and it answers 0.
pub handle_cmd_unlink-Unlinked :
    (little : Bool) (cmd : Cmd) (s : Shared)
    → cmd.header.base.command ≡ Usbip.cmd_unlink
    → ep_idx cmd < Endpoint.max_count
    → Unlinked little cmd s (handle_cmd_unlink little cmd s)
unfolding handle_cmd_unlink
handle_cmd_unlink-Unlinked little cmd s c h = rw (leb-false Endpoint.max_count (ep_idx cmd) h) (
    conclude (
      erase_from-SearchAll (cmd_unlink_seqnum cmd.header) Endpoint.max_count 0 Endpoint.max_count
        s.in_cmds refl))
  where
    found : Option (ℕ → List Cmd)
    found = erase_from (cmd_unlink_seqnum cmd.header) Endpoint.max_count 0 s.in_cmds

    finish : Option (ℕ → List Cmd) → Result (Unit {0}) × Shared
    finish r = (set_in_cmds r >> reply little cmd none 0 (unlink_status r)) s

    conclude :
        SearchAll (cmd_unlink_seqnum cmd.header) 0 Endpoint.max_count s.in_cmds found
        → Unlinked little cmd s (finish found)
    conclude (inl (e, all)) =
        absent (λ k lt. all k (omega arith) lt) (ap finish e ∙ reply_unlink little cmd 0 s none 0 c)
    conclude (inr (queues, e, x)) = removed queues x (
        ap finish e
        ∙ reply_unlink little cmd econnreset_status (record s { in_cmds = queues }) none 0 c)
