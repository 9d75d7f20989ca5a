-- ===== src/Device/Start/Ends.antt =====
-- How `start` ends, on every path.
use virtual_usb.Base.{
  ℕ, ◌≡◌, refl, ap, sym, subst, ◌∙◌, Bool, true, false, Option, some, none, bit_or, ◌==◌, not,
  if◌then◌else◌,
}
use virtual_usb.Vhci.Status.{done, failed, bug, undefined}
use virtual_usb.Vhci.Driver.{
  Driver, World, Opened, returns, stops, usbip_vhci_driver_open, usbip_vhci_driver_close,
}
use virtual_usb.Vhci.Ports.Open.{open_close}
use virtual_usb.Device.State
use virtual_usb.Device.State.{
  Info, Error, Result, ok, throws, aborts, Shared, invalid_bcd_usb, socketpair_failed,
  driver_open_failed, no_free_port, attach_failed,
}
use virtual_usb.Device.Client.{speed_from_bcd_usb}
use virtual_usb.Device.Reset.{reset_enter, shut}
use virtual_usb.Device.Start.{
  System, Attached, attached, no_port, refused, attach_loop, rethrown, caught, start_attached,
  start_driver, start_opened, start_sockets, start_speed, start,
}

-- Both threads run with a socket of the pair, and the program holds what it held before; or the
-- device is reset with the error that is thrown; or `start` does not return.
pub data StartEnd (w : World) : Result (Unit {0}) × World × Shared → Type 0 where
  runs :
      (s : Shared) (socket : ℕ)
      → s.state ≡ 7
      → s.socket ≡ some socket
      → s.usbip_socket ≡ none
      → StartEnd w (ok tt, w, s)
  resets :
      (e : Error) (w' : World) (s : Shared)
      → s.state ≡ 9
      → s.socket ≡ none
      → s.usbip_socket ≡ none
      → s.err ≡ some e
      → StartEnd w (throws e, w', s)
  assert_fails : (w' : World) (s : Shared) → StartEnd w (aborts, w', s)
  goes_astray : (w' : World) (s : Shared) → StartEnd w (State.undefined, w', s)

-- The attachment comes after the driver has been opened.
abbrev pub in_attachment : Error → Bool
in_attachment e = elim e [ no_free_port ↦ true | attach_failed ↦ true | _ ↦ false ]

-- What the program holds where `start` throws: the open driver, or what it held before.
abbrev pub Held : World → World → Bool → Type 0
Held w w' true = ((d : Driver) × (w'.vhci_driver ≡ some d)) × (usbip_vhci_driver_close w' ≡ w)
Held w w' false = w' ≡ w

abbrev OnThrow : World → Result (Unit {0}) × World × Shared → Type 0
OnThrow w (ok u, w', s) = Unit
OnThrow w (throws e, w', s) = Held w w' (in_attachment e)
OnThrow w (aborts, w', s) = Unit
OnThrow w (State.undefined, w', s) = Unit

abbrev OnEnd : World → Option (Result (Unit {0}) × World × Shared) → Type 0
OnEnd w none = Unit
OnEnd w (some x) = StartEnd w x × OnThrow w x

abbrev begun : Shared → Shared
begun s = record s { state = 1 }

abbrev pub ended : Error → Shared → Shared
ended e s = record s {
  state = 9;
  err = some e;
  socket = none;
  usbip_socket = none;
  shut_down = shut s.usbip_socket (shut s.socket s.shut_down);
}

abbrev running : Shared → Shared
running s = record s { state = 7; usbip_socket = none }

module _ (little : Bool) (info : Info) (sys : System) (fuel : ℕ) (w : World)
    (q : info.throw_on_err ≡ true) where
  caught_end :
      (e : Error) (w' : World) (s : Shared)
      → Held w w' (in_attachment e)
      → OnEnd w (caught little info sys fuel e w' (begun s))
  unfolding reset_enter
  caught_end e w' s h =
      subst (λ t. OnEnd w (some (rethrown t (some e), w', ended e s))) (sym q)
        (resets e w' (ended e s) refl refl refl refl, h)

  attached_end :
      (w' : World) (s : Shared) (socket : ℕ) (d : Driver) (o : Option Attached)
      → w'.vhci_driver ≡ some d
      → usbip_vhci_driver_close w' ≡ w
      → s.socket ≡ some socket
      → OnEnd w (start_attached little info sys fuel w' (begun s) o)
  attached_end w' s socket d none e c k = tt
  attached_end w' s socket d (some no_port) e c k = caught_end no_free_port w' s ((d, e), c)
  attached_end w' s socket d (some refused) e c k = caught_end attach_failed w' s ((d, e), c)
  attached_end w' s socket d (some attached) e c k =
      subst (λ x. OnEnd w (some (ok tt, x, running s))) (sym c)
        (runs (running s) socket refl k refl, tt)

  driver_end :
      (speed usbip : ℕ) (w' : World) (s : Shared) (socket : ℕ) (o : Option Driver)
      → w'.vhci_driver ≡ o
      → usbip_vhci_driver_close w' ≡ w
      → s.socket ≡ some socket
      → OnEnd w (start_driver little info sys fuel speed usbip w' (begun s) o)
  driver_end speed usbip w' s socket none e c k = (goes_astray w' (begun s), tt)
  driver_end speed usbip w' s socket (some d) e c k =
      attached_end w' s socket d (attach_loop sys.files d usbip speed fuel 0) e c k

  opened_end :
      (speed usbip : ℕ) (s : Shared) (socket : ℕ) (o : Opened)
      → w.vhci_driver ≡ none
      → usbip_vhci_driver_open sys.answers w ≡ o
      → s.socket ≡ some socket
      → OnEnd w (start_opened little info sys fuel speed usbip w (begun s) o)
  opened_end speed usbip s socket (returns true w') e r k =
      driver_end speed usbip w' s socket w'.vhci_driver refl (open_close w e sys.answers true w' r)
        k
  opened_end speed usbip s socket (returns false w') e r k =
      caught_end driver_open_failed w' s (open_close w e sys.answers false w' r)
  opened_end speed usbip s socket (stops bug) e r k = (assert_fails w (begun s), tt)
  opened_end speed usbip s socket (stops undefined) e r k = (goes_astray w (begun s), tt)
  opened_end speed usbip s socket (stops (done idevs)) e r k = (goes_astray w (begun s), tt)
  opened_end speed usbip s socket (stops (failed idevs)) e r k = (goes_astray w (begun s), tt)

  sockets_end :
      (speed : ℕ) (s : Shared) (o : Option (ℕ × ℕ))
      → w.vhci_driver ≡ none
      → OnEnd w (start_sockets little info sys fuel speed w (begun s) o)
  sockets_end speed s none e = caught_end socketpair_failed w s refl
  sockets_end speed s (some (a, b)) e =
      opened_end speed b (record s { socket = some a; usbip_socket = some b }) a
        (usbip_vhci_driver_open sys.answers w) e refl refl

  speed_end :
      (s : Shared) (o : Option ℕ)
      → w.vhci_driver ≡ none
      → OnEnd w (start_speed little info sys fuel w (begun s) o)
  speed_end s none e = caught_end invalid_bcd_usb w s refl
  speed_end s (some speed) e = sockets_end speed s sys.socketpair e

  start-OnEnd :
      (s : Shared) → w.vhci_driver ≡ none → s.state ≡ 0 → OnEnd w (start little info sys fuel w s)
  unfolding start
  start-OnEnd s e z =
      subst
        (λ k. OnEnd w (
          if not (k == 0)
          then some (aborts, w, s)
          else start_speed little info sys fuel w (record s { state = bit_or k 1 })
              (speed_from_bcd_usb little info.device_desc.bcd_device)))
        (sym z) (speed_end s (speed_from_bcd_usb little info.device_desc.bcd_device) e)

  -- With throwOnErr, from an idle device and no open driver, where start ends, either it returns,
  -- both threads run, the device has a socket, the other one is closed, and the program holds of
  -- the driver what it held before; or it throws, and the device is reset with both sockets closed
  -- and with the error that is thrown; or an assert or BUG() fails or the behaviour is undefined.
  pub start_lem :
      (s : Shared) (x : Result (Unit {0}) × World × Shared)
      → w.vhci_driver ≡ none
      → s.state ≡ 0
      → start little info sys fuel w s ≡ some x
      → StartEnd w x
  start_lem s x e z h = (subst (OnEnd w) h (start-OnEnd s e z)).0

  -- With throwOnErr, from an idle device and no open driver, where start throws because no port is
  -- free or the attachment is refused, the driver is still open, and what the program holds is what
  -- it held before only after usbip_vhci_driver_close; where start throws anything else, the
  -- program holds what it held before.
  pub start_leaks :
      (s : Shared) (e : Error) (w' : World) (s' : Shared)
      → w.vhci_driver ≡ none
      → s.state ≡ 0
      → start little info sys fuel w s ≡ some (throws e, w', s')
      → Held w w' (in_attachment e)
  start_leaks s e w' s' n z h = (subst (OnEnd w) h (start-OnEnd s n z)).1

-- `_s` as the loop of attempts finds it.
abbrev pub with_sockets : ℕ → ℕ → Shared → Shared
with_sockets a b s = record s { state = 1; socket = some a; usbip_socket = some b }

module _ (little : Bool) (info : Info) (sys : System) (fuel : ℕ) (w w' : World) (s : Shared)
    (d : Driver) (speed a b : ℕ) (z : s.state ≡ 0)
    (sp : speed_from_bcd_usb little info.device_desc.bcd_device ≡ some speed)
    (pair : sys.socketpair ≡ some (a, b)) (e : w.vhci_driver ≡ none)
    (op : usbip_vhci_driver_open sys.answers w ≡ returns true w')
    (dr : w'.vhci_driver ≡ some d) where
  -- `start`, as far as the loop of attempts.
  pub start_to_loop :
      start little info sys fuel w s
      ≡ start_attached little info sys fuel w'
          (with_sockets a b s)
          (attach_loop sys.files d b speed fuel 0)
  unfolding start
  start_to_loop =
      ap
        (λ k.
          if not (k == 0)
          then some (aborts, w, s)
          else start_speed little info sys fuel w (record s { state = bit_or k 1 })
              (speed_from_bcd_usb little info.device_desc.bcd_device))
        z
      ∙ (ap (start_speed little info sys fuel w (begun s)) sp
          ∙ (ap (start_sockets little info sys fuel speed w (begun s)) pair
              ∙ (ap (start_opened little info sys fuel speed b w (with_sockets a b s)) op
                  ∙ ap (start_driver little info sys fuel speed b w' (with_sockets a b s)) dr)))
