-- ===== src/LibUsb/Order/Runs.antt =====
-- Sequences of transfers.
use virtual_usb.Base.{
  ℕ, ◌%◌, ◌^◌, ◌≡◌, refl, ap, sym, subst, ◌∙◌, List, [], ◌∷◌, Bool, true, false, Option, some, none,
  if◌then◌else◌, ◌==◌, length, take, get_elem?,
}
use virtual_usb.LibUsb.{
  Interface, EndpointInfo, transfers, clears, controls, Globals, Failure, Outcome, ok, fails, pure,
  throw, log, Answers, open_if_needed, claim_interface_for_endpoint_addr, transferred,
  bulk_transfer, read, read_object, write, reset, vendor_request_out, short_read, short_write,
  transfer_failed, clear_failed,
}
use virtual_usb.LibUsb.Order.{
  is_some, was_opened, was_claimed, AllAllowed, IsOrdered, After, After-continue, Opened,
  log-IsOrdered, open-After,
}
use virtual_usb.LibUsb.Order.Claiming.{Claimed, claim-After}

-- The calls of a client.
pub data Op : Type 0 where
  reads : ℕ → ℕ → Op
  reads_object : ℕ → ℕ → Op
  writes : ℕ → ℕ → Op
  resets : ℕ → Op
  requests : ℕ → List ℕ → Op

module _ (a : Answers) where
  abbrev pub step : Op → Globals → Globals
  step (reads ep len) g = (read a ep len g).1
  step (reads_object ep size) g = (read_object a ep size g).1
  step (writes ep len) g = (write a ep len g).1
  step (resets ep) g = (reset a ep g).1
  step (requests req bytes) g = (vendor_request_out a req bytes g).1

  abbrev pub run : List Op → Globals → Globals
  run [] g = g
  run (op ∷ ops) g = run ops (step op g)

module _ (infos : ℕ → EndpointInfo) (a : Answers) where
  abbrev Any : {A : Type 0} → A → Globals → Type 0
  Any x g = Unit

  checked :
      (t : Bool) (e : Failure) (g : Globals)
      → IsOrdered infos g
      → After infos Any ((if t then pure tt else throw e) g)
  checked true e g k = (k, tt)
  checked false e g k = k

  either-After :
      {A : Type 0} (t : Bool) (x : A) (e : Failure) (g : Globals)
      → IsOrdered infos g
      → After infos Any (if t then ok x else fails e, g)
  either-After true x e g k = (k, tt)
  either-After false x e g k = k

  bulk-After :
      (ep len : ℕ) (g : Globals)
      → IsOrdered infos g
      → Claimed infos a ep tt g
      → After infos Any (bulk_transfer a ep len g)
  bulk-After ep len g k c = answered (a.bulk g.calls ep (len % 2 ^ 32))
    where
      logged : IsOrdered infos (log (transfers ep) g)
      logged = log-IsOrdered infos (transfers ep) g refl (λ i. refl) c k

      answered : (o : Option ℕ) → After infos Any (transferred a o, log (transfers ep) g)
      answered none = logged
      answered (some n) = (logged, tt)

  reads-After : (ep len : ℕ) (g : Globals) → IsOrdered infos g → After infos Any (read a ep len g)
  unfolding read
  reads-After ep len g k =
      After-continue infos (Claimed infos a ep) Any _ (claim_interface_for_endpoint_addr a ep g)
        (claim-After infos a ep g k) λ u g1 k1 c. bulk-After ep len g1 k1 c

  object-After :
      (ep size : ℕ) (g : Globals) → IsOrdered infos g → After infos Any (read_object a ep size g)
  unfolding read_object
  object-After ep size g k =
      After-continue infos Any Any _ (read a ep size g) (reads-After ep size g k)
        λ len g1 k1 u. checked (len == size) short_read g1 k1

  writes-After : (ep len : ℕ) (g : Globals) → IsOrdered infos g → After infos Any (write a ep len g)
  unfolding write
  writes-After ep len g k =
      After-continue infos (Claimed infos a ep) Any _ (claim_interface_for_endpoint_addr a ep g)
        (claim-After infos a ep g k)
        λ u g1 k1 c.
          After-continue infos Any Any _ (bulk_transfer a ep len g1) (bulk-After ep len g1 k1 c)
            λ n g2 k2 u2. checked (n == len) short_write g2 k2

  resets-After : (ep : ℕ) (g : Globals) → IsOrdered infos g → After infos Any (reset a ep g)
  unfolding reset
  resets-After ep g k =
      After-continue infos (Claimed infos a ep) Any _ (claim_interface_for_endpoint_addr a ep g)
        (claim-After infos a ep g k)
        λ u g1 k1 c.
          either-After (a.clear_halt g1.calls ep) tt clear_failed (log (clears ep) g1)
            (log-IsOrdered infos (clears ep) g1 refl (λ i. refl) c k1)

  requests-After :
      (req : ℕ) (bytes : List ℕ) (g : Globals)
      → IsOrdered infos g
      → After infos Any (vendor_request_out a req bytes g)
  unfolding vendor_request_out
  requests-After req bytes g k =
      After-continue infos (Opened infos) Any _ (open_if_needed a g) (open-After infos a g k)
        λ u g1 k1 o.
          either-After (a.control g1.calls req (take (length bytes % 2 ^ 16) bytes)) tt
            transfer_failed (log (controls req) g1)
            (log-IsOrdered infos (controls req) g1 refl (λ i. refl) o k1)

  After-IsOrdered : {A : Type 0} (r : Outcome A × Globals) → After infos Any r → IsOrdered infos r.1
  After-IsOrdered (ok x, g) h = h.0
  After-IsOrdered (fails e, g) h = h

  step-IsOrdered : (op : Op) (g : Globals) → IsOrdered infos g → IsOrdered infos (step a op g)
  step-IsOrdered (reads ep len) g k = After-IsOrdered (read a ep len g) (reads-After ep len g k)
  step-IsOrdered (reads_object ep size) g k =
      After-IsOrdered (read_object a ep size g) (object-After ep size g k)
  step-IsOrdered (writes ep len) g k = After-IsOrdered (write a ep len g) (writes-After ep len g k)
  step-IsOrdered (resets ep) g k = After-IsOrdered (reset a ep g) (resets-After ep g k)
  step-IsOrdered (requests req bytes) g k =
      After-IsOrdered (vendor_request_out a req bytes g) (requests-After req bytes g k)

  run-IsOrdered : (ops : List Op) (g : Globals) → IsOrdered infos g → IsOrdered infos (run a ops g)
  run-IsOrdered [] g k = k
  run-IsOrdered (op ∷ ops) g k = run-IsOrdered ops (step a op g) (step-IsOrdered op g k)

-- When the handle is not open, libusb has not been called and no interface is claimed, then in any
-- sequence of reads, writes, resets and vendor requests, whatever libusb answers: the device is not
-- opened again once it is open, an interface is not claimed again once libusb has claimed it, and a
-- transfer or a reset of an endpoint comes only after the device has been opened and the interface
-- that the table has for the endpoint has been claimed.
pub run-AllAllowed :
    (a : Answers) (ops : List Op) (g : Globals)
    → g.handle ≡ none
    → g.calls ≡ []
    → ((i : ℕ) (iface : Interface) → get_elem? g.interfaces i ≡ some iface → iface.claimed ≡ false)
    → AllAllowed g.ep_infos (run a ops g).calls
run-AllAllowed a ops g h c f =
    (run-IsOrdered g.ep_infos a ops g (record {
      table = refl;
      handle = ap (is_some g.ep_infos) h ∙ sym (ap was_opened c);
      claimed = λ i iface e. f i iface e ∙ sym (ap (was_claimed i) c);
      allowed = subst (AllAllowed g.ep_infos) (sym c) tt;
    })).allowed
