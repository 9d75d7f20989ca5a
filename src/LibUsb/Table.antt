-- ===== src/LibUsb/Table.antt =====
-- The table of endpoints: its places, and what the constructor puts there.
use virtual_usb.Base.{
  ℕ, suc, ◌+◌, ◌*◌, ◌/◌, ◌%◌, ◌^◌, ◌<◌, ◌≡◌, ◌≢◌, refl, ap, ap₂, sym, ◌∙◌, List, [], ◌∷◌, ◌++◌,
  true, bit_and, bit_or, if◌then◌else◌, ==_iff, ==_false, All, map, arith,
}
use virtual_usb.Base.Bits.{bit_and_mask, bit_and_shifted, bit_or_step, bit_or-zero}
use virtual_usb.LibUsb.{
  EndpointInfo, Globals, ok, offset_for_endpoint_addr, AltSetting, add_endpoint, add_endpoints,
  add_interface, Failure, fails, invalid_endpoint, populate, construct, ep_info,
}

bit_or_above : (c d : ℕ) → d < 16 → bit_or (c * 16) d ≡ c * 16 + d
bit_or_above c d h = omega (
  arith,
  bit_or_step (c * 16) d,
  bit_or_step (c * 16 / 2) (d / 2),
  bit_or_step (c * 16 / 2 / 2) (d / 2 / 2),
  bit_or_step (c * 16 / 2 / 2 / 2) (d / 2 / 2 / 2),
  top,
)
  where
    top : bit_or (c * 16 / 2 / 2 / 2 / 2) (d / 2 / 2 / 2 / 2) ≡ c
    top =
        ap₂ bit_or (let e : c * 16 / 2 / 2 / 2 / 2 ≡ c = omega arith in e)
          (let e : d / 2 / 2 / 2 / 2 ≡ 0 = omega (arith, h) in e)
        ∙ bit_or-zero c

-- The direction bit above the four bits of the number.
pub offset_lem : (a : ℕ) → offset_for_endpoint_addr a ≡ a / 2 ^ 7 % 2 * 2 ^ 4 + a % 2 ^ 4
unfolding offset_for_endpoint_addr
offset_lem a =
    ap₂ bit_or high (bit_and_mask 4 a) ∙ bit_or_above (a / 128 % 2) (a % 16) (omega arith)
  where
    high : bit_and a 128 / 8 ≡ a / 128 % 2 * 16
    high = omega (arith, bit_and_shifted 7 a 1, bit_and_mask 1 (a / 128))

-- The reserved bits of an address are zero.
abbrev pub IsAddress : ℕ → Type 0
IsAddress a = (a < 2 ^ 8) × (a / 2 ^ 4 % 2 ^ 3 ≡ 0)

pub offset-lt : (a : ℕ) → offset_for_endpoint_addr a < 32
offset-lt a = omega (arith, offset_lem a)

pub offset_inj :
    (a b : ℕ)
    → IsAddress a
    → IsAddress b
    → offset_for_endpoint_addr a ≡ offset_for_endpoint_addr b
    → a ≡ b
offset_inj a b h k e = omega (arith, offset_lem a, offset_lem b, h, k, e)

-- The endpoints that a device lists: the number of the interface, the address and the packet size.
abbrev pub listed : ℕ → List (List AltSetting) → List (ℕ × ℕ × ℕ)
listed i [] = []
listed i ([] ∷ rest) = []
listed i ((alt ∷ alts) ∷ rest) = map (λ e. (i, e.0, e.1)) alt.endpoints ++ listed (suc i) rest

-- The info_of of an address that no later endpoint has taken.
abbrev pub info_of : ℕ × ℕ × ℕ → EndpointInfo
info_of e = record { valid = true; iface_idx = e.0; ep_addr = e.1; max_packet_size = e.2 }

abbrev pub Differs : ℕ → ℕ × ℕ × ℕ → Type 0
Differs a e = IsAddress e.1 × (e.1 ≢ a)

-- The table after endpoints have been entered one after the other.
abbrev fill : List (ℕ × ℕ × ℕ) → (ℕ → EndpointInfo) → ℕ → EndpointInfo
fill [] infos = infos
fill (e ∷ es) infos = fill es (add_endpoint e.0 (e.1, e.2) infos)

fill-append :
    (es fs : List (ℕ × ℕ × ℕ)) (infos : ℕ → EndpointInfo)
    → fill (es ++ fs) infos ≡ fill fs (fill es infos)
fill-append [] fs infos = refl
fill-append (e ∷ es) fs infos = fill-append es fs (add_endpoint e.0 (e.1, e.2) infos)

add_endpoints-fill :
    (i : ℕ) (es : List (ℕ × ℕ)) (infos : ℕ → EndpointInfo)
    → add_endpoints i es infos ≡ fill (map (λ e. (i, e.0, e.1)) es) infos
add_endpoints-fill i [] infos = refl
add_endpoints-fill i (e ∷ es) infos = add_endpoints-fill i es (add_endpoint i e infos)

not_ok : {A : Type 0} {f : Failure} {x : A} → fails f ≡ ok x → ⊥
not_ok e = cc

populate-fill :
    (i : ℕ) (ifaces : List (List AltSetting)) (g g' : Globals)
    → populate i ifaces g ≡ (ok tt, g')
    → g'.ep_infos ≡ fill (listed i ifaces) g.ep_infos
populate-fill i [] g g' e = ap (λ p. p.1.ep_infos) (sym e)
populate-fill i ([] ∷ rest) g g' e = absurd (not_ok (ap (λ p. p.0) e))
populate-fill i ((alt ∷ alts) ∷ rest) g g' e =
    populate-fill (suc i) rest (add_interface i alt g) g' e
    ∙ (ap (fill (listed (suc i) rest)) (add_endpoints-fill i alt.endpoints g.ep_infos)
        ∙ sym
            (fill-append (map (λ e. (i, e.0, e.1)) alt.endpoints) (listed (suc i) rest) g.ep_infos))

module _ (a : ℕ) (h : IsAddress a) where
  other_place :
      (e : ℕ × ℕ × ℕ) (infos : ℕ → EndpointInfo)
      → Differs a e
      → add_endpoint e.0 (e.1, e.2) infos (offset_for_endpoint_addr a)
        ≡ infos (offset_for_endpoint_addr a)
  other_place e infos d =
      rw
        (==_false (offset_for_endpoint_addr a) (offset_for_endpoint_addr e.1)
          (λ q. d.1 (sym (offset_inj a e.1 h d.0 q))))
        refl

  others_kept :
      (es : List (ℕ × ℕ × ℕ)) (infos : ℕ → EndpointInfo)
      → All (Differs a) es
      → fill es infos (offset_for_endpoint_addr a) ≡ infos (offset_for_endpoint_addr a)
  others_kept [] infos d = refl
  others_kept (e ∷ es) infos d =
      others_kept es (add_endpoint e.0 (e.1, e.2) infos) d.1 ∙ other_place e infos d.0

  own_place :
      (i size : ℕ) (infos : ℕ → EndpointInfo)
      → add_endpoint i (a, size) infos (offset_for_endpoint_addr a) ≡ info_of (i, a, size)
  own_place i size infos =
      rw ((==_iff (offset_for_endpoint_addr a) (offset_for_endpoint_addr a)).1 refl) refl

  fill-info_of :
      (before : List (ℕ × ℕ × ℕ)) (i size : ℕ) (after : List (ℕ × ℕ × ℕ)) (infos : ℕ → EndpointInfo)
      → All (Differs a) after
      → fill (before ++ ((i, a, size) ∷ after)) infos (offset_for_endpoint_addr a)
        ≡ info_of (i, a, size)
  fill-info_of before i size after infos d =
      ap (λ t. t (offset_for_endpoint_addr a)) (fill-append before ((i, a, size) ∷ after) infos)
      ∙ (others_kept after (add_endpoint i (a, size) (fill before infos)) d
          ∙ own_place i size (fill before infos))

  -- When the constructor succeeds on the interfaces of a device, _epInfo of an address whose
  -- reserved bits are zero, which the first altsettings list and which no endpoint listed later
  -- has, all those having zero reserved bits too, gives the interface and the packet size that were
  -- listed with it.
  pub ep_info-construct :
      (ifaces : List (List AltSetting)) (before : List (ℕ × ℕ × ℕ)) (i size : ℕ)
      (after : List (ℕ × ℕ × ℕ)) (g g' : Globals)
      → construct ifaces g ≡ (ok tt, g')
      → listed 0 ifaces ≡ before ++ ((i, a, size) ∷ after)
      → All (Differs a) after
      → ep_info a g' ≡ (ok (info_of (i, a, size)), g')
  unfolding ep_info construct
  ep_info-construct ifaces before i size after g g' e l d =
      ap (λ info. (if info.valid then ok info else fails (invalid_endpoint a), g'))
        (ap (λ t. t (offset_for_endpoint_addr a))
            (populate-fill 0 ifaces g g' e ∙ ap (λ es. fill es g.ep_infos) l)
          ∙ fill-info_of before i size after g.ep_infos d)
