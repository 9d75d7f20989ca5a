-- ===== src/Device/Moves/Write.antt =====
-- `write`: a client's data goes to the end of its endpoint's stream, or nothing happens.
use virtual_usb.Base.{
  ℕ, ◌^◌, ◌<◌, ◌≤◌, ◌≡◌, refl, sym, subst, inl, inr, if◌then◌else◌, Bool, true, List, [], ◌∷◌, ◌++◌,
  Option, none, some, arith, Bool-cases, bit_and, leb, ltb, ◌==◌, ==_iff, leb→le, le→leb, length,
  take, length-take, fun_ext,
}
use virtual_usb.Base.Bits.{bit_and_mask}
use virtual_usb.Usb.Endpoint
use virtual_usb.Device.State.{Shared, Error, Result, ok, throws, bad_array_length, update, ◌>>◌}
use virtual_usb.Device.Reply.{memcpy}
use virtual_usb.Device.Transfer.{
  write_body, send_data_for_in_endpoint, write_copy, write_item, rethrow,
}
use virtual_usb.Device.Moves.{IsWf, Moves}
use virtual_usb.Device.Moves.Inbound.{at_endpoint, taken, copied, still-Moves, item, enqueued-Moves}

-- The data at the end of its queue.
abbrev queue : Shared → ℕ → List ℕ → ℕ → Shared
queue s idx bs len = record s {
  in_data = update s.in_data idx (s.in_data idx ++ (item bs len ∷ []));
}

-- How `write` ends when nothing else is in its way.
abbrev pub array_result : ℕ → Result (Unit {0})
array_result len = if leb (2 ^ 63) len then throws bad_array_length else ok tt

module _ (little : Bool) (s : Shared) (w : IsWf s) where
  -- A write of nothing.
  none-Moves : (idx : ℕ) → Moves little s s (at_endpoint idx [])
  none-Moves idx =
      subst (Moves little s s)
        (fun_ext λ e. elim (Bool-cases (e == idx)) [ inl h ↦ rw h | inr h ↦ rw h ])
        (still-Moves little s w)

  abbrev WriteMoves : ℕ → Option (List ℕ) → ℕ → Result (Unit {0}) × Shared → Type 0
  WriteMoves idx p len o = Moves little s o.1 (at_endpoint idx (taken o.0 p len))

  some-Moves :
      (idx : ℕ) (p : Option (List ℕ)) (bs : List ℕ) (len : ℕ)
      → len < 2 ^ 64
      → len ≡ length bs
      → bs ≡ copied p len
      → WriteMoves idx p len (send_data_for_in_endpoint little idx (queue s idx bs len))
  some-Moves idx p bs len h e c =
      let sent = enqueued-Moves little s w idx bs len h e in
      let s' = (send_data_for_in_endpoint little idx (queue s idx bs len)).1 in
      subst (λ r. Moves little s s' (at_endpoint idx (taken r p len))) (sym sent.1)
        (subst (λ b. Moves little s s' (at_endpoint idx b)) c sent.0)

  copy-Moves :
      (idx : ℕ) (p : Option (List ℕ)) (len : ℕ)
      → len < 2 ^ 64
      → WriteMoves idx p len (write_copy little idx p len s)
  unfolding memcpy
  copy-Moves idx none len h = elim (Bool-cases (len == 0)) [
    | inl e ↦ rw e (some-Moves idx none [] len h ((==_iff len 0).0 e) refl)
    | inr e ↦ rw e (none-Moves idx)
  ]
  copy-Moves idx (some m) len h = elim (Bool-cases (leb len (length m))) [
    | inl e ↦ rw e (
        some-Moves idx (some m) (take len m) len h
          (omega (arith, length-take len m, leb→le len (length m) e)) refl)
    | inr e ↦ rw e (none-Moves idx)
  ]

  item-Moves :
      (idx : ℕ) (p : Option (List ℕ)) (len : ℕ)
      → len < 2 ^ 64
      → WriteMoves idx p len (write_item little idx p len s)
  item-Moves idx p len h = elim (Bool-cases (leb (2 ^ 63) len)) [
    | inl e ↦ rw e (none-Moves idx)
    | inr e ↦ rw e (copy-Moves idx p len h)
  ]

  attempt-Moves :
      (err : Option Error) (idx : ℕ) (p : Option (List ℕ)) (len : ℕ)
      → len < 2 ^ 64
      → WriteMoves idx p len ((rethrow err >> write_item little idx p len) s)
  attempt-Moves none idx p len h = item-Moves idx p len h
  attempt-Moves (some e) idx p len h = none-Moves idx

  -- From a state with well-formed queues, a write of less than 2^64 bytes, however it ends, leaves
  -- well-formed queues and only adds replies; at each endpoint but 0 the payloads of the new
  -- replies and the bytes that still wait are the bytes that waited and then, at the endpoint
  -- written to, the bytes that the write took on.
  pub write-Moves :
      (ep : ℕ) (p : Option (List ℕ)) (len : ℕ)
      → len < 2 ^ 64
      → let o = write_body little ep p len s in
        Moves little s o.1 (at_endpoint (bit_and ep Endpoint.index_mask) (taken o.0 p len))
  unfolding write_body
  write-Moves ep p len h =
      elim (Bool-cases (bit_and ep Endpoint.direction_mask == Endpoint.direction_in)) [
        | inr bad ↦ rw bad (none-Moves _)
        | inl dir ↦
            rw dir (elim (Bool-cases (ltb (bit_and ep Endpoint.index_mask) Endpoint.max_count)) [
              | inr bad ↦ rw bad (none-Moves _)
              | inl small ↦ rw small (attempt-Moves s.err (bit_and ep Endpoint.index_mask) p len h)
            ])
      ]

  item_returns :
      (idx len : ℕ) (m : List ℕ)
      → len ≤ length m
      → len < 2 ^ 64
      → (write_item little idx (some m) len s).0 ≡ array_result len
  unfolding memcpy
  item_returns idx len m fits h = elim (Bool-cases (leb (2 ^ 63) len)) [
    | inl e ↦ rw e refl
    | inr e ↦
        rw (e, le→leb len (length m) fits)
          (enqueued-Moves little s w idx (take len m) len h (omega (arith, length-take len m))).1
  ]

  attempt_returns :
      (err : Option Error) (idx len : ℕ) (m : List ℕ)
      → err ≡ none
      → len ≤ length m
      → len < 2 ^ 64
      → ((rethrow err >> write_item little idx (some m) len) s).0 ≡ array_result len
  attempt_returns none idx len m e fits h = item_returns idx len m fits h
  attempt_returns (some x) idx len m e fits h = absurd (cc)

  -- From a state with well-formed queues and no error, a write of less than 2^64 bytes that are
  -- there to an IN endpoint address returns if they are less than 2^63, and otherwise throws the
  -- exception of make_unique.
  pub write_returns :
      (ep len : ℕ) (m : List ℕ)
      → bit_and ep Endpoint.direction_mask ≡ Endpoint.direction_in
      → s.err ≡ none
      → len ≤ length m
      → len < 2 ^ 64
      → (write_body little ep (some m) len s).0 ≡ array_result len
  unfolding write_body
  write_returns ep len m d err fits h =
      let small : ltb (bit_and ep Endpoint.index_mask) Endpoint.max_count ≡ true =
        ground (arith, bit_and_mask 4 ep) in
      rw ((==_iff _ _).1 d, small) (attempt_returns s.err _ len m err fits h)
