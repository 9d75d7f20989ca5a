-- ===== src/Vhci/Attach.antt =====
-- What `usbip_vhci_attach_device2` writes for the kernel to read.
use mathlib.Core.List.{append-nil}
use virtual_usb.Base.{
  ℕ, zero, suc, ◌-◌, ◌^◌, ◌/◌, ◌%◌, ◌≤◌, ◌<◌, ◌≡◌, refl, ap, sym, ◌∙◌, List, [], ◌∷◌, ◌++◌, Bool,
  true, false, Option, some, if◌then◌else◌, ltb, lt→ltb, length, length-append, take, take_all,
  arith,
}
use virtual_usb.Text.{◌>>=◌, scan_int, decimal, unpadded, digit}
use virtual_usb.Text.Digits.{IsNumeral, decimal-IsNumeral}
use virtual_usb.Text.Fields.{scan_int-numeral}
use virtual_usb.Vhci.RoundTrip.Fields.{bind_some}
use virtual_usb.Vhci.Driver.{attach_line}

-- `sscanf(line, "%u %u %u %u", ...)`, as the kernel's `attach` attribute does it.
abbrev pub scan_attach : List ℕ → Option (ℕ × ℕ × ℕ × ℕ)
scan_attach line = do
  (port, s1) ← scan_int 10 line
  (sockfd, s2) ← scan_int 10 s1
  (devid, s3) ← scan_int 10 s2
  (speed, s4) ← scan_int 10 s3
  some (port, sockfd, devid, speed)

shorter :
    (t : Bool) (xs : List ℕ) (b c fuel : ℕ)
    → length xs ≤ fuel
    → length (if t then b ∷ [] else xs ++ (c ∷ [])) ≤ suc fuel
shorter true xs b c fuel h = omega arith
shorter false xs b c fuel h = omega (arith, length-append xs (c ∷ []))

length-unpadded : (fuel n : ℕ) → length (unpadded fuel n) ≤ fuel
length-unpadded zero n = omega arith
length-unpadded (suc fuel) n =
    shorter (ltb n 10) (unpadded fuel (n / 10)) (digit n) (digit (n % 10)) fuel
      (length-unpadded fuel (n / 10))

four : List ℕ → List ℕ → List ℕ → List ℕ → List ℕ
four a b c d = a ++ (32 ∷ (b ++ (32 ∷ (c ++ (32 ∷ d)))))

take-four :
    (a b c d : List ℕ)
    → length a ≤ 10
    → length b ≤ 10
    → length c ≤ 10
    → length d ≤ 10
    → take 199 (four a b c d) ≡ four a b c d
unfolding four
take-four a b c d p q r s = take_all 199 (four a b c d) (
    omega (
      arith,
      length-append a (32 ∷ (b ++ (32 ∷ (c ++ (32 ∷ d))))),
      length-append b (32 ∷ (c ++ (32 ∷ d))),
      length-append c (32 ∷ d),
    ))

module _ {a b c d : List ℕ} {p s e v : ℕ} (ka : IsNumeral 10 a p) (kb : IsNumeral 10 b s)
    (kc : IsNumeral 10 c e) (kd : IsNumeral 10 d v) (la : p < 2 ^ 32) (lb : s < 2 ^ 32)
    (lc : e < 2 ^ 32) (ld : v < 2 ^ 32) where
  scan_attach-four : scan_attach (four a b c d) ≡ some (p, s, e, v)
  unfolding scan_int four
  scan_attach-four = bind_some _ (scan_int-numeral 10 a p _ (omega arith) la ka refl) (
      bind_some _ (scan_int-numeral 10 b s _ (omega arith) lb kb refl) (
        bind_some _ (scan_int-numeral 10 c e _ (omega arith) lc kc refl) (
          bind_some _
            (ap (λ t. scan_int 10 (32 ∷ t)) (sym (append-nil d))
              ∙ scan_int-numeral 10 d v [] (omega arith) ld kd tt)
            refl)))

-- The line that usbip_vhci_attach_device2 writes, for a port below 2^8, a socket below 2^31 and a
-- device id and a speed below 2^32, is not cut off, and four conversions %u read the four numbers
-- back.
pub scan_attach-attach_line :
    (port sockfd devid speed : ℕ)
    → port < 2 ^ 8
    → sockfd < 2 ^ 31
    → devid < 2 ^ 32
    → speed < 2 ^ 32
    → scan_attach (attach_line port sockfd devid speed) ≡ some (port, sockfd, devid, speed)
unfolding attach_line four
scan_attach-attach_line port sockfd devid speed p s e v =
    ap
      (λ t. scan_attach (
        take 199 (
          four (decimal port) (if t then decimal sockfd else 45 ∷ decimal (2 ^ 32 - sockfd))
            (decimal devid) (decimal speed))))
      (lt→ltb sockfd (2 ^ 31) s)
    ∙ (ap scan_attach (
          take-four (decimal port) (decimal sockfd) (decimal devid) (decimal speed)
            (length-unpadded 10 port) (length-unpadded 10 sockfd) (length-unpadded 10 devid)
            (length-unpadded 10 speed))
        ∙ scan_attach-four (decimal-IsNumeral port (omega arith))
            (decimal-IsNumeral sockfd (omega arith)) (decimal-IsNumeral devid e)
            (decimal-IsNumeral speed v) (omega arith) (omega arith) e v)
