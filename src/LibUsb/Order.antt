-- ===== src/LibUsb/Order.antt =====
-- The order of the calls of libusb, in any sequence of transfers.
pub mod Claiming
pub mod Runs
use virtual_usb.Base.{
  ℕ, zero, suc, ◌%◌, ◌^◌, arith, ◌≡◌, ◌≢◌, refl, ap, sym, subst, ◌∙◌, List, [], ◌∷◌, Bool, true,
  false, Option, some, none, if◌then◌else◌, ◌==◌, ==_iff, ==_false, get_elem?, ℕ_discrete,
}
use virtual_usb.LibUsb
use virtual_usb.LibUsb.{
  Interface, EndpointInfo, Call, opens, claims, transfers, clears, controls, Globals, Failure,
  Outcome, ok, fails, M, continue, pure, throw, offset_for_endpoint_addr, ep_info, log, found,
  interface_at, set_claimed, Answers, opened, unless_open, open_if_needed, claimed_now,
  unless_claimed, claim_interface_for_endpoint_addr, transferred, bulk_transfer, read, read_object,
  write, clear_halt, reset, control_transfer, vendor_request_out, no_altsettings, short_read,
  short_write, invalid_endpoint, open_failed, claim_failed, transfer_failed, clear_failed,
  out_of_range,
}

abbrev pub was_opened : List Call → Bool
was_opened [] = false
was_opened (opens true ∷ calls) = true
was_opened (opens false ∷ calls) = was_opened calls
was_opened (claims i n b ∷ calls) = was_opened calls
was_opened (transfers ep ∷ calls) = was_opened calls
was_opened (clears ep ∷ calls) = was_opened calls
was_opened (controls req ∷ calls) = was_opened calls

abbrev pub was_claimed : ℕ → List Call → Bool
was_claimed i [] = false
was_claimed i (claims j n true ∷ calls) = if i == j then true else was_claimed i calls
was_claimed i (claims j n false ∷ calls) = was_claimed i calls
was_claimed i (opens b ∷ calls) = was_claimed i calls
was_claimed i (transfers ep ∷ calls) = was_claimed i calls
was_claimed i (clears ep ∷ calls) = was_claimed i calls
was_claimed i (controls req ∷ calls) = was_claimed i calls

module _ (infos : ℕ → EndpointInfo) where
  abbrev pub iface_of : ℕ → ℕ
  iface_of ep = (infos (offset_for_endpoint_addr ep)).iface_idx

  -- What must have been called before a call, and what not.
  abbrev pub Allowed : Call → List Call → Type 0
  Allowed (opens b) before = was_opened before ≡ false
  Allowed (claims i n b) before = (was_opened before ≡ true) × (was_claimed i before ≡ false)
  Allowed (transfers ep) before =
      (was_opened before ≡ true) × (was_claimed (iface_of ep) before ≡ true)
  Allowed (clears ep) before =
      (was_opened before ≡ true) × (was_claimed (iface_of ep) before ≡ true)
  Allowed (controls req) before = was_opened before ≡ true

  abbrev pub AllAllowed : List Call → Type 0
  AllAllowed [] = Unit
  AllAllowed (call ∷ before) = Allowed call before × AllAllowed before

  abbrev pub is_some : Option ℕ → Bool
  is_some none = false
  is_some (some h) = true

  -- The handle and the flags say what has been called.
  pub record IsOrdered (g : Globals) : Type 0 where
    pub table : g.ep_infos ≡ infos
    pub handle : is_some g.handle ≡ was_opened g.calls
    pub claimed :
        (i : ℕ) (iface : Interface)
        → get_elem? g.interfaces i ≡ some iface
        → iface.claimed ≡ was_claimed i g.calls
    pub allowed : AllAllowed g.calls

  -- The order holds after a step, and something besides if it succeeds.
  abbrev pub After : {A : Type 0} → (A → Globals → Type 0) → Outcome A × Globals → Type 0
  After P (ok x, g) = IsOrdered g × P x g
  After P (fails e, g) = IsOrdered g

  pub After-continue :
      {A B : Type 0} (P : A → Globals → Type 0) (Q : B → Globals → Type 0) (f : A → M B)
      (r : Outcome A × Globals)
      → After P r
      → ((x : A) (g : Globals) → IsOrdered g → P x g → After Q (f x g))
      → After Q (continue f r)
  After-continue P Q f (ok x, g) h k = k x g h.0 h.1
  After-continue P Q f (fails e, g) h k = h

  abbrev pub Opened : Unit {0} → Globals → Type 0
  Opened u g = was_opened g.calls ≡ true

  -- A call that leaves the handle and the flags alone.
  pub log-IsOrdered :
      (call : Call) (g : Globals)
      → was_opened (call ∷ g.calls) ≡ was_opened g.calls
      → ((i : ℕ) → was_claimed i (call ∷ g.calls) ≡ was_claimed i g.calls)
      → Allowed call g.calls
      → IsOrdered g
      → IsOrdered (log call g)
  log-IsOrdered call g o c a k = record {
    table = k.table;
    handle = k.handle ∙ sym o;
    claimed = λ i iface e. k.claimed i iface e ∙ sym (c i);
    allowed = (a, k.allowed);
  }

  module _ (a : Answers) where
    opened-After :
        (o : Option ℕ) (g : Globals) → IsOrdered g → g.handle ≡ none → After Opened (opened a o g)
    opened-After none g k e =
        log-IsOrdered (opens false) g refl (λ i. refl) (sym k.handle ∙ ap is_some e) k
    opened-After (some h) g k e = (
      record {
        table = k.table;
        handle = refl;
        claimed = k.claimed;
        allowed = (sym k.handle ∙ ap is_some e, k.allowed);
      },
      refl,
    )

    unless_open-After :
        (o : Option ℕ) (g : Globals) → IsOrdered g → g.handle ≡ o → After Opened (unless_open a o g)
    unless_open-After none g k e = opened-After (a.device_handle g.calls) g k e
    unless_open-After (some h) g k e = (k, sym k.handle ∙ ap is_some e)

    pub open-After : (g : Globals) → IsOrdered g → After Opened (open_if_needed a g)
    unfolding open_if_needed
    open-After g k = unless_open-After g.handle g k refl
