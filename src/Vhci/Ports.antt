-- ===== src/Vhci/Ports.antt =====
-- The free port that is found, and what it says about the list of ports.
pub mod Numbers
pub mod Open
use virtual_usb.Base.{
  ℕ, zero, suc, ◌+◌, ◌-◌, ◌%◌, ◌/◌, ◌≤◌, ◌<◌, ◌≡◌, ◌≢◌, ◌⊎◌, inl, inr, refl, ap, sym, subst, ◌∙◌,
  List, [], ◌∷◌, ◌++◌, Bool, true, false, not, ◌&&◌, Option, some, none, if◌then◌else◌, ltb, ◌==◌,
  ==_iff, length, get_elem?, get_elem?-end, replicate, All, arith, Bool-cases, Option-cases,
}
use virtual_usb.Vhci.{
  HubSpeed, hub_speed_high, hub_speed_super, ImportedDevice, UdevDevice, zero_imported_device,
  vdev_st_null, usb_speed_super,
}
use virtual_usb.Vhci.Device.{read_usb_device}
use virtual_usb.Vhci.Status.{
  Row, entry, put, scan_row, Parsed, done, failed, bug, undefined, go_on, store_row, store_init,
  look_up, row_or_bug, parse_rows, parse_status, parse_after_header, imported_device_init,
}
use virtual_usb.Vhci.Driver.{Driver, free_port, hub_for, same_hub, usbip_vhci_get_free_port}

-- A port that is free and on the hub for the speed.
pub record IsFree (speed : ℕ) (d : ImportedDevice) : Type 0 where
  pub hub : d.hub ≡ hub_for speed
  pub status : d.status ≡ vdev_st_null

-- What the search finds: the number of the first free port, or none where no port is free.
pub data Found (speed : ℕ) (idevs : List ImportedDevice) : Option ℕ → Type 0 where
  at :
      (before : List ImportedDevice) (d : ImportedDevice) (after : List ImportedDevice)
      → idevs ≡ before ++ (d ∷ after)
      → All (λ e. ¬ IsFree speed e) before
      → IsFree speed d
      → Found speed idevs (some d.port)
  nowhere : All (λ e. ¬ IsFree speed e) idevs → Found speed idevs none

same_hub→≡ : (g h : HubSpeed) → same_hub g h ≡ true → g ≡ h
same_hub→≡ hub_speed_high hub_speed_high e = refl
same_hub→≡ hub_speed_super hub_speed_super e = refl
same_hub→≡ hub_speed_high hub_speed_super e = cc
same_hub→≡ hub_speed_super hub_speed_high e = cc

same_hub_self : (h : HubSpeed) → same_hub h h ≡ true
same_hub_self hub_speed_high = refl
same_hub_self hub_speed_super = refl

true_not_false : true ≡ false → ⊥
true_not_false e = cc

module _ (speed : ℕ) where
  later :
      (d : ImportedDevice) (idevs : List ImportedDevice) {o : Option ℕ}
      → ¬ IsFree speed d
      → Found speed idevs o
      → Found speed (d ∷ idevs) o
  later d idevs n (at before e after q none_free f) =
      at (d ∷ before) e after (ap (λ t. d ∷ t) q) (n, none_free) f
  later d idevs n (nowhere none_free) = nowhere (n, none_free)

  -- The two tests of the loop on one port.
  decide :
      (d : ImportedDevice) (idevs : List ImportedDevice) (h : Bool) (s : Bool)
      → same_hub d.hub (hub_for speed) ≡ h
      → (d.status == vdev_st_null) ≡ s
      → Found speed idevs (free_port speed idevs)
      → Found speed (d ∷ idevs) (
          if not h then free_port speed idevs else if s then some d.port else free_port speed idevs)
  decide d idevs false s p q f =
      later d idevs
        (λ k. true_not_false (
          sym (same_hub_self (hub_for speed))
          ∙ (ap (λ g. same_hub g (hub_for speed)) (sym k.hub) ∙ p)))
        f
  decide d idevs true false p q f =
      later d idevs (λ k. true_not_false (sym ((==_iff d.status 4).1 k.status) ∙ q)) f
  decide d idevs true true p q f =
      at [] d idevs refl tt
        (record { hub = same_hub→≡ d.hub (hub_for speed) p; status = (==_iff d.status 4).0 q })

  free_port-Found : (idevs : List ImportedDevice) → Found speed idevs (free_port speed idevs)
  free_port-Found [] = nowhere tt
  free_port-Found (d ∷ idevs) =
      decide d idevs (same_hub d.hub (hub_for speed)) (d.status == vdev_st_null) refl refl
        (free_port-Found idevs)

  pub get_free_port_lem : (d : Driver) → Found speed d.idev (usbip_vhci_get_free_port speed d)
  unfolding usbip_vhci_get_free_port
  get_free_port_lem d = free_port-Found d.idev
