-- ===== src/Vhci/RoundTrip/Fields.antt =====
-- One row of the table: its fields are read, and its line passed.
use virtual_usb.Base.{
  ℕ, ◌^◌, ◌≤◌, ◌<◌, ◌≡◌, ◌≢◌, refl, ap, ◌∙◌, List, [], ◌∷◌, ◌++◌, true, false, Option, some, All,
  arith, length, ==_false,
}
use virtual_usb.Text.{◌>>=◌, digit_value, scan_word, scan_int}
use virtual_usb.Text.Digits.{IsNumeral}
use virtual_usb.Text.Fields.{IsWord, scan_int-numeral, scan_word_lem}
use virtual_usb.Vhci.{HubSpeed, hub_speed_high, hub_speed_super, ImportedDevice, UdevDevice}
use virtual_usb.Vhci.Status.{scan_row, parse_rows}
use virtual_usb.Vhci.Table.{fields, hub_text}

hub-scanned :
    (h : HubSpeed) (rest : List ℕ)
    → scan_word 2 (hub_text h ++ (32 ∷ rest)) ≡ some (hub_text h, 32 ∷ rest)
unfolding scan_word
hub-scanned hub_speed_high rest = refl
hub-scanned hub_speed_super rest = refl

busid-scanned :
    (w rest : List ℕ)
    → 0 < length w
    → length w ≤ 31
    → IsWord w
    → scan_word 31 (32 ∷ (w ++ (10 ∷ rest))) ≡ some (w, 10 ∷ rest)
unfolding scan_word
busid-scanned [] rest p h k = absurd (omega arith)
busid-scanned (b ∷ w) rest p h k = scan_word_lem 31 b w (10 ∷ rest) h refl k

pub bind_some :
    {A B : Type 0} {o : Option A} (f : A → Option B) {a : A} {b : Option B}
    → o ≡ some a
    → f a ≡ b
    → (o >>= f) ≡ b
bind_some f e h = ap (λ o. o >>= f) e ∙ h

-- A numeral is no line's end.
abbrev pub NoLine : List ℕ → Type 0
NoLine xs = All (λ b. b ≢ 10) xs

digits-NoLine : (xs : List ℕ) → All (λ b. digit_value b < 16) xs → NoLine xs
digits-NoLine [] h = tt
digits-NoLine (b ∷ xs) h = (λ e. ground arith, digits-NoLine xs h.1)

word-NoLine : (xs : List ℕ) → IsWord xs → NoLine xs
word-NoLine [] h = tt
word-NoLine (b ∷ xs) h = (λ e. ground arith, word-NoLine xs h.1)

module _ (find : List ℕ → Option UdevDevice) (idevs : List ImportedDevice) where
  skip :
      (xs rest : List ℕ)
      → NoLine xs
      → parse_rows find false (xs ++ rest) idevs ≡ parse_rows find false rest idevs
  skip [] rest h = refl
  skip (b ∷ xs) rest h =
      ap (λ t. parse_rows find t (xs ++ rest) idevs) (==_false b 10 h.0) ∙ skip xs rest h.1

  behind_hub :
      (h : HubSpeed) (rest : List ℕ)
      → parse_rows find false (hub_text h ++ (32 ∷ 32 ∷ rest)) idevs
        ≡ parse_rows find false rest idevs
  behind_hub hub_speed_high rest = refl
  behind_hub hub_speed_super rest = refl

module _ (h : HubSpeed) {port status speed devid sockfd : List ℕ} {p st sp d so : ℕ}
    (busid rest : List ℕ) (kp : IsNumeral 10 port p) (kst : IsNumeral 10 status st)
    (ksp : IsNumeral 10 speed sp) (kd : IsNumeral 16 devid d) (kso : IsNumeral 10 sockfd so)
    (w0 : 0 < length busid) (w1 : length busid ≤ 31) (w : IsWord busid) (bp : p < 2 ^ 32)
    (bst : st < 2 ^ 32) (bsp : sp < 2 ^ 32) (bd : d < 2 ^ 32) (bso : so < 2 ^ 32) where
  pub scan_row-fields :
      scan_row (fields h port status speed devid sockfd busid rest)
      ≡ some (record {
        hub = hub_text h;
        port = p;
        status = st;
        speed = sp;
        devid = d;
        lbusid = some busid;
      })
  unfolding scan_row scan_int
  scan_row-fields = bind_some _ (hub-scanned h _) (
      bind_some _ (scan_int-numeral 10 port p _ (omega arith) bp kp refl) (
        bind_some _ (scan_int-numeral 10 status st _ (omega arith) bst kst refl) (
          bind_some _ (scan_int-numeral 10 speed sp _ (omega arith) bsp ksp refl) (
            bind_some _ (scan_int-numeral 16 devid d _ (omega arith) bd kd refl) (
              ap
                (λ l. some (record {
                  hub = hub_text h;
                  port = p;
                  status = st;
                  speed = sp;
                  devid = d;
                  lbusid = l;
                }))
                (bind_some _ (scan_int-numeral 10 sockfd so _ (omega arith) bso kso refl)
                  (bind_some _ (busid-scanned busid rest w0 w1 w) refl)))))))

  -- From behind the hub's first byte to the next line.
  pub to_next_line :
      (find : List ℕ → Option UdevDevice) (idevs : List ImportedDevice)
      → parse_rows find false (fields h port status speed devid sockfd busid rest) idevs
        ≡ parse_rows find true rest idevs
  to_next_line find idevs =
      behind_hub find idevs h (port ++ behind_port)
      ∙ (skip find idevs port behind_port (digits-NoLine port kp.digits)
          ∙ (skip find idevs status behind_status (digits-NoLine status kst.digits)
              ∙ (skip find idevs speed behind_speed (digits-NoLine speed ksp.digits)
                  ∙ (skip find idevs devid behind_devid (digits-NoLine devid kd.digits)
                      ∙ (skip find idevs sockfd (32 ∷ (busid ++ (10 ∷ rest)))
                            (digits-NoLine sockfd kso.digits)
                          ∙ skip find idevs busid (10 ∷ rest) (word-NoLine busid w))))))
    where
      behind_devid : List ℕ
      behind_devid = 32 ∷ (sockfd ++ (32 ∷ (busid ++ (10 ∷ rest))))

      behind_speed : List ℕ
      behind_speed = 32 ∷ (devid ++ behind_devid)

      behind_status : List ℕ
      behind_status = 32 ∷ (speed ++ behind_speed)

      behind_port : List ℕ
      behind_port = 32 ∷ (status ++ behind_status)
