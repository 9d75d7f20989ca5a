-- ===== src/Vhci/RoundTrip.antt =====
-- A status file as the kernel prints it is read back, row by row.
pub mod Fields
use virtual_usb.Base.{
  ℕ, zero, suc, ◌/◌, ◌^◌, ◌≤◌, ◌<◌, ◌≡◌, ◌≢◌, refl, ap, sym, ◌∙◌, List, [], ◌∷◌, ◌++◌, Bool, true,
  false, Option, some, none, All, arith, length, ◌==◌, ==_false, fun_ext,
}
use virtual_usb.Text.{◌>>=◌, codes, after, padded, digit_value, is_space, scan_word, scan_int}
use virtual_usb.Text.Digits.{IsNumeral, padded-IsNumeral}
use virtual_usb.Text.Fields.{IsWord, scan_int-numeral, scan_word_lem}
use virtual_usb.Vhci.{HubSpeed, hub_speed_high, hub_speed_super, ImportedDevice, UdevDevice}
use virtual_usb.Vhci.Status.{
  Row, scan_row, Parsed, done, go_on, store_row, row_or_bug, parse_after_header, parse_rows,
  parse_status,
}
use virtual_usb.Vhci.Table.{Listed, IsListed, fields, row_text, row_of, hub_text, table}
use virtual_usb.Vhci.RoundTrip.Fields.{NoLine, scan_row-fields, to_next_line}

module _ (r : Listed) (l : IsListed r) where
  port-IsNumeral : IsNumeral 10 (padded 10 4 r.port) r.port
  port-IsNumeral =
      padded-IsNumeral (omega arith) (omega arith) 3 r.port (omega (arith, l.port_fits))

  status-IsNumeral : IsNumeral 10 (padded 10 3 r.status) r.status
  status-IsNumeral =
      padded-IsNumeral (omega arith) (omega arith) 2 r.status (omega (arith, l.status_fits))

  speed-IsNumeral : IsNumeral 10 (padded 10 3 r.speed) r.speed
  speed-IsNumeral =
      padded-IsNumeral (omega arith) (omega arith) 2 r.speed (omega (arith, l.speed_fits))

  devid-IsNumeral : IsNumeral 16 (padded 16 8 r.devid) r.devid
  devid-IsNumeral =
      padded-IsNumeral (omega arith) (omega arith) 7 r.devid (omega (arith, l.devid_fits))

  sockfd-IsNumeral : IsNumeral 10 (padded 10 6 r.sockfd) r.sockfd
  sockfd-IsNumeral =
      padded-IsNumeral (omega arith) (omega arith) 5 r.sockfd (omega (arith, l.sockfd_fits))

  scan_row-row_text : (rest : List ℕ) → scan_row (row_text r rest) ≡ some (row_of r)
  scan_row-row_text rest =
      scan_row-fields r.hub r.busid rest port-IsNumeral status-IsNumeral speed-IsNumeral
        devid-IsNumeral sockfd-IsNumeral l.busid_some l.busid_fits l.busid_word
        (omega (arith, l.port_fits)) (omega (arith, l.status_fits)) (omega (arith, l.speed_fits))
        l.devid_fits (omega (arith, l.sockfd_fits))

  row_to_next_line :
      (find : List ℕ → Option UdevDevice) (rest : List ℕ) (idevs : List ImportedDevice)
      → parse_rows find false (row_text r rest) idevs ≡ parse_rows find true rest idevs
  row_to_next_line find rest idevs =
      to_next_line r.hub r.busid rest port-IsNumeral status-IsNumeral speed-IsNumeral
        devid-IsNumeral sockfd-IsNumeral l.busid_some l.busid_fits l.busid_word
        (omega (arith, l.port_fits)) (omega (arith, l.status_fits)) (omega (arith, l.speed_fits))
        l.devid_fits (omega (arith, l.sockfd_fits)) find idevs

module _ (find : List ℕ → Option UdevDevice) where
  -- The rows of the table, stored one after the other.
  abbrev pub fill : List Listed → List ImportedDevice → Parsed
  fill [] idevs = done idevs
  fill (r ∷ rows) idevs = go_on (store_row find (row_of r) idevs) (fill rows)

  at_hub :
      (h : HubSpeed) (rest : List ℕ) (idevs : List ImportedDevice)
      → parse_rows find true (hub_text h ++ rest) idevs
        ≡ go_on
            (row_or_bug find (scan_row (hub_text h ++ rest)) idevs)
            (parse_rows find false (hub_text h ++ rest))
  at_hub hub_speed_high rest idevs = refl
  at_hub hub_speed_super rest idevs = refl

  parse_rows-row :
      (r : Listed) (rest : List ℕ) (idevs : List ImportedDevice)
      → parse_rows find true (row_text r rest) idevs
        ≡ go_on
            (row_or_bug find (scan_row (row_text r rest)) idevs)
            (parse_rows find false (row_text r rest))
  parse_rows-row r rest idevs = at_hub r.hub _ idevs

  parse_rows-table :
      (rows : List Listed) (idevs : List ImportedDevice)
      → All IsListed rows
      → parse_rows find true (table rows) idevs ≡ fill rows idevs
  parse_rows-table [] idevs h = refl
  parse_rows-table (r ∷ rows) idevs h =
      parse_rows-row r (table rows) idevs
      ∙ (ap (λ o. go_on (row_or_bug find o idevs) (parse_rows find false (row_text r (table rows))))
            (scan_row-row_text r h.0 (table rows))
          ∙ ap (go_on (store_row find (row_of r) idevs)) (
              fun_ext
                λ i. row_to_next_line r h.0 find (table rows) i ∙ parse_rows-table rows i h.1))

  after-header :
      (header rest : List ℕ) → NoLine header → after 10 (header ++ (10 ∷ rest)) ≡ some rest
  after-header [] rest h = refl
  after-header (b ∷ header) rest h = rw (==_false b 10 h.0) (after-header header rest h.1)

  -- On a header line and the rows of ports as the kernel prints them, with numbers that fit their
  -- columns and bus ids that are words of at most 31 bytes, parse_status stores the values of the
  -- rows, one after the other, until one of them fails.
  pub parse_status-table :
      (header : List ℕ) (rows : List Listed) (idevs : List ImportedDevice)
      → NoLine header
      → All IsListed rows
      → parse_status find (header ++ (10 ∷ table rows)) idevs ≡ fill rows idevs
  unfolding parse_status
  parse_status-table header rows idevs h k =
      ap (λ o. parse_after_header find o idevs) (after-header header (table rows) h)
      ∙ parse_rows-table rows idevs k
