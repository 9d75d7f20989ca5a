-- ===== src/Vhci/Ports/Open.antt =====
-- What `usbip_vhci_driver_open` leaves, whatever libudev and the kernel answer.
use virtual_usb.Base.{
  ℕ, suc, ◌+◌, ◌%◌, ◌<◌, ◌≡◌, refl, ap, sym, subst, ◌∙◌, List, [], ◌∷◌, ◌++◌, Bool, true, false,
  not, Option, some, none, if◌then◌else◌, length, length-append, All, replicate, arith,
}
use virtual_usb.Vhci.{ImportedDevice, UdevDevice, zero_imported_device}
use virtual_usb.Vhci.Status.{Parsed, done, failed, bug, undefined}
use virtual_usb.Vhci.Driver.{
  Driver, one, World, Answers, Opened, returns, stops, open_fails, open_refreshed, open_driver,
  open_ports, open_device, not_positive, get_nports, get_ncontrollers, refresh_imported_device_list,
  usbip_vhci_driver_open, usbip_vhci_driver_close, usbip_vhci_get_free_port,
}
use virtual_usb.Vhci.Ports.{IsFree, Found, at, nowhere, get_free_port_lem}
use virtual_usb.Vhci.Ports.Numbers.{Numbered, IsTable, zeros-IsTable, refresh_list-IsTable, OnDone}

abbrev pub closed : Bool → World → World
closed true w = usbip_vhci_driver_close w
closed false w = w

abbrev HasTable : Bool → Option Driver → Type 0
HasTable false o = Unit
HasTable true none = ⊥
HasTable true (some d) = IsTable d.nports d.idev

-- The driver is open with its table and what it holds, or nothing more is held than before.
abbrev Balanced : World → Opened → Type 0
Balanced w (returns ok w') = (closed ok w' ≡ w) × HasTable ok w'.vhci_driver
Balanced w (stops p) = Unit

branch :
    (t : Bool) (w : World) (x y : Opened)
    → Balanced w x
    → Balanced w y
    → Balanced w (if t then x else y)
branch true w x y h k = h
branch false w x y h k = k

module _ (w : World) (e : w.vhci_driver ≡ none) where
  abbrev held : Option Driver → ℕ → World
  held o blocks = record {
    vhci_driver = o;
    contexts = w.contexts + 1;
    devices = w.devices + 1;
    blocks = blocks;
  }

  world_ext :
      {c d b : ℕ}
      → c ≡ w.contexts
      → d ≡ w.devices
      → b ≡ w.blocks
      → record { vhci_driver = none; contexts = c; devices = d; blocks = b } ≡ w
  world_ext p q r = cc (p, q, r, e)

  nothing : one w.vhci_driver ≡ 0
  nothing = ap one e

  refreshed :
      (d : Driver) (o : Parsed)
      → OnDone (IsTable d.nports) o
      → Balanced w (open_refreshed d (held (some d) (w.blocks + 1)) o)
  unfolding usbip_vhci_driver_close
  refreshed d (done idevs) t = (world_ext (omega arith) (omega arith) (omega arith), t)
  refreshed d (failed idevs) t = (world_ext (omega arith) (omega arith) (omega arith), tt)
  refreshed d bug t = tt
  refreshed d undefined t = tt

  driver_opened :
      (a : Answers) (d : Driver)
      → IsTable d.nports d.idev
      → Balanced w (open_driver a d (held (some d) (w.blocks + 1)))
  driver_opened a d t =
      branch (not_positive d.ncontrollers) w
        (open_fails (some d.hc_device) (held (some d) (w.blocks + 1)))
        (open_refreshed d (held (some d) (w.blocks + 1)) (refresh_imported_device_list a.find d))
        (world_ext (omega arith) (omega arith) (omega arith), tt)
        (refreshed d (refresh_imported_device_list a.find d)
          (refresh_list-IsTable a.find d.nports d t))

  ports_opened :
      (a : Answers) (hc : UdevDevice) (n : ℕ)
      → Balanced w (open_ports a hc n (held w.vhci_driver w.blocks))
  ports_opened a hc n =
      branch (not_positive n) w (open_fails (some hc) (held w.vhci_driver w.blocks)) _
        (world_ext (omega arith) (omega arith) (omega (arith, nothing)), tt)
        (branch (not a.calloc) w (open_fails (some hc) (held none w.blocks)) _
          (world_ext (omega arith) (omega arith) (omega arith), tt)
          (driver_opened a
            (record {
              hc_device = hc;
              ncontrollers = get_ncontrollers a;
              nports = n;
              idev = replicate n zero_imported_device;
            })
            (zeros-IsTable n)))

  device_opened :
      (a : Answers) (o : Option UdevDevice)
      → Balanced w (open_device a o (record w { contexts = w.contexts + 1 }))
  device_opened a none = (world_ext (omega arith) (omega arith) (omega (arith, nothing)), tt)
  device_opened a (some hc) = ports_opened a hc (get_nports hc)

  open-Balanced : (a : Answers) → Balanced w (usbip_vhci_driver_open a w)
  unfolding usbip_vhci_driver_open
  open-Balanced a =
      branch (not a.udev_new) w (returns false w)
        (open_device a a.hc_device (record w { contexts = w.contexts + 1 })) (refl, tt)
        (device_opened a a.hc_device)

  -- When no driver is open, whatever libudev and the system answer: if usbip_vhci_driver_open
  -- fails, no driver is open and the program holds the contexts, devices and blocks that it held
  -- before, and if it succeeds, that is so after usbip_vhci_driver_close.
  pub open_close :
      (a : Answers) (ok : Bool) (w' : World)
      → usbip_vhci_driver_open a w ≡ returns ok w'
      → closed ok w' ≡ w
  open_close a ok w' q = (subst (Balanced w) q (open-Balanced a)).0

-- Places in a numbered list.
number_at :
    (k : ℕ) (before : List ImportedDevice) (d : ImportedDevice) (after : List ImportedDevice)
    → Numbered k (before ++ (d ∷ after))
    → d.status ≡ 4
    → d.port ≡ (k + length before) % 256
number_at k [] d after h s = omega (arith, h.0 s)
number_at k (b ∷ before) d after h s = omega (arith, number_at (suc k) before d after h.1 s)

-- The port `p` of the search is the number of the first free place.
pub record IsFirstFree (speed : ℕ) (d : Driver) (p : ℕ) : Type 0 where
  pub before : List ImportedDevice
  pub place : ImportedDevice
  pub after : List ImportedDevice
  pub split : d.idev ≡ before ++ (place ∷ after)
  pub none_free : All (λ e. ¬ IsFree speed e) before
  pub free : IsFree speed place
  pub number : p ≡ length before % 256
  pub in_list : length before < d.nports

some_inj : {p q : ℕ} → some p ≡ some q → p ≡ q
some_inj e = cc

no_port : {p : ℕ} → none ≡ some p → ⊥
no_port e = cc

first_free :
    (speed : ℕ) (d : Driver) (o : Option ℕ) (p : ℕ)
    → IsTable d.nports d.idev
    → Found speed d.idev o
    → o ≡ some p
    → IsFirstFree speed d p
first_free speed d o p t (at before e after q none_free f) h = record {
  before = before;
  place = e;
  after = after;
  split = q;
  none_free = none_free;
  free = f;
  number =
      omega
        (arith, some_inj h, number_at 0 before e after (subst (Numbered 0) q t.numbers) f.status);
  in_list = omega (arith, sym t.size ∙ ap length q, length-append before (e ∷ after));
}
first_free speed d o p t (nowhere none_free) h = absurd (no_port h)

-- When no driver was open, and usbip_vhci_driver_open succeeds, whatever libudev answers and the
-- status files say, then a port number that usbip_vhci_get_free_port returns is the place in the
-- list, modulo 256, of the first port that is in the state NULL on the hub for the speed, and that
-- place is below the number of ports.
pub open_free_port :
    (w : World) (a : Answers) (w' : World) (d : Driver) (speed p : ℕ)
    → w.vhci_driver ≡ none
    → usbip_vhci_driver_open a w ≡ returns true w'
    → w'.vhci_driver ≡ some d
    → usbip_vhci_get_free_port speed d ≡ some p
    → IsFirstFree speed d p
open_free_port w a w' d speed p e q f g =
    let t = subst (HasTable true) f (subst (Balanced w) q (open-Balanced w e a)).1 in
    first_free speed d (usbip_vhci_get_free_port speed d) p t (get_free_port_lem speed d) g
