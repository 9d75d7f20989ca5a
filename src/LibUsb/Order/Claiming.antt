-- ===== src/LibUsb/Order/Claiming.antt =====
-- `_claimInterfaceForEndpointAddr` claims the interface of the endpoint, unless it has been claimed.
use virtual_usb.Base.{
  ℕ, zero, suc, arith, ◌≡◌, refl, ap, sym, ◌∙◌, List, [], ◌∷◌, Bool, true, false, Option, some,
  none, if◌then◌else◌, ◌==◌, ==_iff, ==_false, get_elem?,
}
use virtual_usb.LibUsb.{
  Interface, EndpointInfo, claims, Globals, ok, fails, offset_for_endpoint_addr, ep_info, found,
  interface_at, set_claimed, Answers, open_if_needed, claimed_now, unless_claimed,
  claim_interface_for_endpoint_addr, invalid_endpoint,
}
use virtual_usb.LibUsb.Order.{
  was_opened, was_claimed, iface_of, IsOrdered, After, After-continue, Opened, log-IsOrdered,
  open-After,
}

some_inj : {x y : Interface} → some x ≡ some y → x ≡ y
some_inj e = cc

no_interface : {x : Interface} → none ≡ some x → ⊥
no_interface e = cc

suc-== : (i j : ℕ) → (suc i == suc j) ≡ (i == j)
suc-== i j = ground arith

-- The flags after `set_claimed`.
set_claimed_lem :
    (p : ℕ → Bool) (idx : ℕ) (ifaces : List Interface)
    → ((i : ℕ) (x : Interface) → get_elem? ifaces i ≡ some x → x.claimed ≡ p i)
    → (i : ℕ) (x : Interface) → get_elem? (set_claimed idx ifaces) i ≡ some x
    → x.claimed ≡ (if i == idx then true else p i)
set_claimed_lem p idx [] h i x e = absurd (no_interface e)
set_claimed_lem p zero (y ∷ ifaces) h zero x e = sym (ap (λ z. z.claimed) (some_inj e))
set_claimed_lem p zero (y ∷ ifaces) h (suc i) x e =
    h (suc i) x e ∙ sym (ap (λ t. if t then true else p (suc i)) (==_false (suc i) 0 (omega arith)))
set_claimed_lem p (suc idx) (y ∷ ifaces) h zero x e =
    h zero x e ∙ sym (ap (λ t. if t then true else p 0) (==_false 0 (suc idx) (omega arith)))
set_claimed_lem p (suc idx) (y ∷ ifaces) h (suc i) x e =
    set_claimed_lem (λ j. p (suc j)) idx ifaces (λ j z q. h (suc j) z q) i x e
    ∙ sym (ap (λ t. if t then true else p (suc i)) (suc-== i idx))

module _ (infos : ℕ → EndpointInfo) (a : Answers) where
  -- The interface of an endpoint has been claimed.
  abbrev pub Claimed : ℕ → Unit {0} → Globals → Type 0
  Claimed ep u g = (was_opened g.calls ≡ true) × (was_claimed (iface_of infos ep) g.calls ≡ true)

  abbrev IsInfo : ℕ → EndpointInfo → Globals → Type 0
  IsInfo ep info g = (was_opened g.calls ≡ true) × (info.iface_idx ≡ iface_of infos ep)

  abbrev IsAt : ℕ → Interface → Globals → Type 0
  IsAt idx iface g = (was_opened g.calls ≡ true) × (get_elem? g.interfaces idx ≡ some iface)

  IsInfo-or_fail :
      (t : Bool) (ep : ℕ) (info : EndpointInfo) (g : Globals)
      → IsOrdered infos g
      → IsInfo ep info g
      → After infos (IsInfo ep) (if t then ok info else fails (invalid_endpoint ep), g)
  IsInfo-or_fail true ep info g k h = (k, h)
  IsInfo-or_fail false ep info g k h = k

  ep_info-After :
      (ep : ℕ) (g : Globals)
      → IsOrdered infos g
      → was_opened g.calls ≡ true
      → After infos (IsInfo ep) (ep_info ep g)
  unfolding ep_info
  ep_info-After ep g k o =
      IsInfo-or_fail (g.ep_infos (offset_for_endpoint_addr ep)).valid ep
        (g.ep_infos (offset_for_endpoint_addr ep)) g k
        (o, ap (λ t. (t (offset_for_endpoint_addr ep)).iface_idx) k.table)

  found-After :
      (o : Option Interface) (idx : ℕ) (g : Globals)
      → get_elem? g.interfaces idx ≡ o
      → IsOrdered infos g
      → was_opened g.calls ≡ true
      → After infos (IsAt idx) (found o, g)
  found-After none idx g e k o = k
  found-After (some iface) idx g e k o = (k, (o, e))

  claimed_now-After :
      (ep idx number : ℕ) (b : Bool) (g : Globals)
      → IsOrdered infos g
      → was_opened g.calls ≡ true
      → was_claimed idx g.calls ≡ false
      → idx ≡ iface_of infos ep
      → After infos (Claimed ep) (claimed_now a idx number b g)
  claimed_now-After ep idx number false g k o n q =
      log-IsOrdered infos (claims idx number false) g refl (λ i. refl) (o, n) k
  claimed_now-After ep idx number true g k o n q = (
    record {
      table = k.table;
      handle = k.handle;
      claimed = set_claimed_lem (λ i. was_claimed i g.calls) idx g.interfaces k.claimed;
      allowed = ((o, n), k.allowed);
    },
    (
      o,
      ap (λ t. if t then true else was_claimed (iface_of infos ep) g.calls)
          ((==_iff (iface_of infos ep) idx).1 (sym q)),
    ),
  )

  unless_claimed-After :
      (ep idx number : ℕ) (b : Bool) (g : Globals)
      → IsOrdered infos g
      → was_opened g.calls ≡ true
      → was_claimed idx g.calls ≡ b
      → idx ≡ iface_of infos ep
      → After infos (Claimed ep) (unless_claimed a idx number b g)
  unless_claimed-After ep idx number true g k o n q =
      (k, (o, ap (λ i. was_claimed i g.calls) (sym q) ∙ n))
  unless_claimed-After ep idx number false g k o n q =
      claimed_now-After ep idx number (a.claim g.calls number) g k o n q

  pub claim-After :
      (ep : ℕ) (g : Globals)
      → IsOrdered infos g
      → After infos (Claimed ep) (claim_interface_for_endpoint_addr a ep g)
  unfolding claim_interface_for_endpoint_addr
  claim-After ep g k =
      After-continue infos (Opened infos) (Claimed ep) _ (open_if_needed a g)
        (open-After infos a g k)
        λ u g1 k1 o.
          After-continue infos (IsInfo ep) (Claimed ep) _ (ep_info ep g1) (ep_info-After ep g1 k1 o)
            λ info g2 k2 h.
              After-continue infos (IsAt info.iface_idx) (Claimed ep) _
                (interface_at info.iface_idx g2)
                (found-After (get_elem? g2.interfaces info.iface_idx) info.iface_idx g2 refl k2 h.0)
                λ iface g3 k3 l.
                  unless_claimed-After ep info.iface_idx iface.b_interface_number iface.claimed g3
                    k3 l.0 (sym (k3.claimed info.iface_idx iface l.1)) h.1
