-- ===== src/Device/Start/Attaching.antt =====
-- The loop of attempts to attach: it ends at the first answer that is not EBUSY.
use virtual_usb.Base.{
  ℕ, zero, suc, ◌+◌, ◌<◌, ◌≡◌, ◌≢◌, refl, ap, ◌∙◌, Option, some, none, ==_false, arith,
}
use virtual_usb.Vhci.Driver.{Driver, Files, usbip_vhci_get_free_port, usbip_vhci_attach_device2}
use virtual_usb.Device.Start.{
  device_id, ebusy, Attached, attached, refused, attempt, after_answer, attach_loop,
}

module _ (files : ℕ → Files) (d : Driver) (socket speed port : ℕ) where
  -- The answer to an attempt to attach the port.
  abbrev pub answer : ℕ → Option ℕ
  answer i = usbip_vhci_attach_device2 (files i) d port socket device_id speed

  -- What an answer that ends the loop leaves.
  abbrev pub ended_by : Option ℕ → Attached
  ended_by none = attached
  ended_by (some errno) = refused

  abbrev pub IsBusy : ℕ → Type 0
  IsBusy i = answer i ≡ some ebusy

  module _ (p : usbip_vhci_get_free_port speed d ≡ some port) where
    attempts :
        (fuel i : ℕ) (o : Option ℕ)
        → answer i ≡ o
        → attach_loop files d socket speed (suc fuel) i
          ≡ after_answer files d socket speed (attach_loop files d socket speed fuel (suc i)) o
    unfolding attach_loop
    attempts fuel i o a =
        ap (attempt files d socket speed (attach_loop files d socket speed fuel (suc i)) i) p
        ∙ ap (after_answer files d socket speed (attach_loop files d socket speed fuel (suc i))) a

    ends :
        (again : Option Attached) (o : Option ℕ)
        → o ≢ some ebusy
        → after_answer files d socket speed again o ≡ some (ended_by o)
    ends again none n = refl
    ends again (some errno) n = rw (==_false errno 16 (λ e. n (ap some e))) refl

    ends_from :
        (k fuel i : ℕ) (o : Option ℕ)
        → k < fuel
        → ((j : ℕ) → j < k → IsBusy (i + j))
        → answer (i + k) ≡ o
        → o ≢ some ebusy
        → attach_loop files d socket speed fuel i ≡ some (ended_by o)
    ends_from k zero i o h b a n = absurd (omega arith)
    ends_from zero (suc fuel) i o h b a n =
        attempts fuel i o (ap answer (let e : i ≡ i + 0 = omega arith in e) ∙ a)
        ∙ ends (attach_loop files d socket speed fuel (suc i)) o n
    ends_from (suc k) (suc fuel) i o h b a n =
        attempts fuel i (some ebusy)
          (ap answer (let e : i ≡ i + 0 = omega arith in e) ∙ b 0 (omega arith))
        ∙ ends_from k fuel (suc i) o (omega arith)
            (λ j l.
              ap answer (let e : suc i + j ≡ i + suc j = omega arith in e)
              ∙ b (suc j) (omega arith))
            (ap answer (let e : suc i + k ≡ i + suc k = omega arith in e) ∙ a) n

    -- When a port is free in the list of the driver and the attempts to attach it before number k
    -- are answered with EBUSY, and number k is not, the loop of start ends at attempt k: attached
    -- if the answer is no error, and refused otherwise.
    pub attach_loop_ends :
        (k fuel : ℕ) (o : Option ℕ)
        → k < fuel
        → ((j : ℕ) → j < k → IsBusy j)
        → answer k ≡ o
        → o ≢ some ebusy
        → attach_loop files d socket speed fuel 0 ≡ some (ended_by o)
    attach_loop_ends k fuel o h b a n =
        ends_from k fuel 0 o h (λ j l. ap answer (let e : 0 + j ≡ j = omega arith in e) ∙ b j l)
          (ap answer (let e : 0 + k ≡ k = omega arith in e) ∙ a) n

    spins_from :
        ((j : ℕ) → IsBusy j) → (fuel i : ℕ) → attach_loop files d socket speed fuel i ≡ none
    unfolding attach_loop
    spins_from b zero i = refl
    spins_from b (suc fuel) i = attempts fuel i (some ebusy) (b i) ∙ spins_from b fuel (suc i)

    pub attach_loop_spins :
        ((j : ℕ) → IsBusy j) → (fuel : ℕ) → attach_loop files d socket speed fuel 0 ≡ none
    attach_loop_spins b fuel = spins_from b fuel 0
