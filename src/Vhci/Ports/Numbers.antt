-- ===== src/Vhci/Ports/Numbers.antt =====
-- Whatever the status files say, a port in the state NULL carries the number of its place.
use virtual_usb.Base.{
  ℕ, zero, suc, ◌+◌, ◌%◌, ◌≡◌, refl, ap, ◌∙◌, List, [], ◌∷◌, Bool, true, false, not, ◌&&◌, Option,
  some, none, if◌then◌else◌, ltb, ◌==◌, length, replicate, arith,
}
use virtual_usb.Text.{after}
use virtual_usb.Vhci.{ImportedDevice, UdevDevice, zero_imported_device, vdev_st_null}
use virtual_usb.Vhci.Device.{read_usb_device}
use virtual_usb.Vhci.Status.{
  Row, entry, put, scan_row, Parsed, done, failed, bug, undefined, go_on, store_row, store_init,
  look_up, row_or_bug, parse_rows, parse_status, parse_after_header, imported_device_init,
}
use virtual_usb.Vhci.Driver.{
  Driver, parse_attr, refresh_from, refresh_imported_device_list, status_name,
}

-- From place `k` of the list on.
abbrev pub Numbered : ℕ → List ImportedDevice → Type 0
Numbered k [] = Unit
Numbered k (d ∷ idevs) = (d.status ≡ vdev_st_null → d.port ≡ k % 256) × Numbered (suc k) idevs

-- The list has `n` ports, numbered from 0 on.
pub record IsTable (n : ℕ) (idevs : List ImportedDevice) : Type 0 where
  pub size : length idevs ≡ n
  pub numbers : Numbered 0 idevs

length-put :
    (i : ℕ) (d : ImportedDevice) (idevs : List ImportedDevice)
    → length (put i d idevs) ≡ length idevs
length-put i d [] = refl
length-put zero d (e ∷ idevs) = refl
length-put (suc i) d (e ∷ idevs) = ap suc (length-put i d idevs)

put-Numbered :
    (k i : ℕ) (d : ImportedDevice) (idevs : List ImportedDevice)
    → d.port ≡ (k + i) % 256
    → Numbered k idevs
    → Numbered k (put i d idevs)
put-Numbered k i d [] e h = tt
put-Numbered k zero d (x ∷ idevs) e h = ((λ _. omega (arith, e)), h.1)
put-Numbered k (suc i) d (x ∷ idevs) e h =
    (h.0, put-Numbered (suc k) i d idevs (omega (arith, e)) h.1)

put-IsTable :
    (n i : ℕ) (d : ImportedDevice) (idevs : List ImportedDevice)
    → d.port ≡ i % 256
    → IsTable n idevs
    → IsTable n (put i d idevs)
put-IsTable n i d idevs e t = record {
  size = length-put i d idevs ∙ t.size;
  numbers = put-Numbered 0 i d idevs (omega (arith, e)) t.numbers;
}

-- When it goes well.
abbrev pub OnDone : (List ImportedDevice → Type 0) → Parsed → Type 0
OnDone P (done idevs) = P idevs
OnDone P (failed idevs) = Unit
OnDone P bug = Unit
OnDone P undefined = Unit

go_on-OnDone :
    (P : List ImportedDevice → Type 0) (next : List ImportedDevice → Parsed) (o : Parsed)
    → ((idevs : List ImportedDevice) → P idevs → OnDone P (next idevs))
    → OnDone P o
    → OnDone P (go_on o next)
go_on-OnDone P next (done idevs) h k = h idevs k
go_on-OnDone P next (failed idevs) h k = tt
go_on-OnDone P next bug h k = tt
go_on-OnDone P next undefined h k = tt

replicate-Numbered : (k n : ℕ) → Numbered k (replicate n zero_imported_device)
replicate-Numbered k zero = tt
replicate-Numbered k (suc n) = ((λ e. cc), replicate-Numbered (suc k) n)

length-replicate : (n : ℕ) → length (replicate n zero_imported_device) ≡ n
length-replicate zero = refl
length-replicate (suc n) = ap suc (length-replicate n)

pub zeros-IsTable : (n : ℕ) → IsTable n (replicate n zero_imported_device)
zeros-IsTable n = record { size = length-replicate n; numbers = replicate-Numbered 0 n }

module _ (find : List ℕ → Option UdevDevice) (n : ℕ) where
  store_init-IsTable :
      (i : ℕ) (d : ImportedDevice) (idevs : List ImportedDevice) (o : Option UdevDevice)
      → d.port ≡ i % 256
      → IsTable n idevs
      → OnDone (IsTable n) (store_init find i d idevs (imported_device_init find d o))
  store_init-IsTable i d idevs none e t = tt
  store_init-IsTable i d idevs (some sudev) e t =
      put-IsTable n i (record d { udev = read_usb_device sudev }) idevs e t

  look_up-IsTable :
      (i : ℕ) (d : ImportedDevice) (idevs : List ImportedDevice) (o : Option (List ℕ))
      → d.port ≡ i % 256
      → IsTable n idevs
      → OnDone (IsTable n) (look_up find i d idevs o)
  look_up-IsTable i d idevs none e t = tt
  look_up-IsTable i d idevs (some lbusid) e t = store_init-IsTable i d idevs (find lbusid) e t

  branch :
      (t u : Bool) (x y z : Parsed)
      → OnDone (IsTable n) x
      → OnDone (IsTable n) y
      → OnDone (IsTable n) z
      → OnDone (IsTable n) (if t then x else if u then y else z)
  branch true u x y z k l m = k
  branch false true x y z k l m = l
  branch false false x y z k l m = m

  store_row-IsTable :
      (r : Row) (idevs : List ImportedDevice)
      → IsTable n idevs
      → OnDone (IsTable n) (store_row find r idevs)
  store_row-IsTable r idevs t =
      branch (not (ltb r.port (length idevs)))
        (not (r.status == vdev_st_null) && not (r.status == 5)) undefined
        (look_up find r.port (entry r) idevs r.lbusid) (done (put r.port (entry r) idevs)) tt
        (look_up-IsTable r.port (entry r) idevs r.lbusid refl t)
        (put-IsTable n r.port (entry r) idevs refl t)

  row_or_bug-IsTable :
      (o : Option Row) (idevs : List ImportedDevice)
      → IsTable n idevs
      → OnDone (IsTable n) (row_or_bug find o idevs)
  row_or_bug-IsTable none idevs t = tt
  row_or_bug-IsTable (some r) idevs t = store_row-IsTable r idevs t

  parse_rows-IsTable :
      (start : Bool) (s : List ℕ) (idevs : List ImportedDevice)
      → IsTable n idevs
      → OnDone (IsTable n) (parse_rows find start s idevs)
  parse_rows-IsTable start [] idevs t = t
  parse_rows-IsTable false (b ∷ s) idevs t = parse_rows-IsTable (b == 10) s idevs t
  parse_rows-IsTable true (b ∷ s) idevs t =
      go_on-OnDone (IsTable n) (parse_rows find (b == 10) s)
        (row_or_bug find (scan_row (b ∷ s)) idevs) (parse_rows-IsTable (b == 10) s)
        (row_or_bug-IsTable (scan_row (b ∷ s)) idevs t)

  after_header-IsTable :
      (o : Option (List ℕ)) (idevs : List ImportedDevice)
      → IsTable n idevs
      → OnDone (IsTable n) (parse_after_header find o idevs)
  after_header-IsTable none idevs t = tt
  after_header-IsTable (some c) idevs t = parse_rows-IsTable true c idevs t

  attr-IsTable :
      (o : Option (List ℕ)) (idevs : List ImportedDevice)
      → IsTable n idevs
      → OnDone (IsTable n) (parse_attr find o idevs)
  unfolding parse_status
  attr-IsTable none idevs t = tt
  attr-IsTable (some value) idevs t = after_header-IsTable (after 10 value) idevs t

  refresh-IsTable :
      (hc : UdevDevice) (i c : ℕ) (idevs : List ImportedDevice)
      → IsTable n idevs
      → OnDone (IsTable n) (refresh_from find hc i c idevs)
  refresh-IsTable hc i zero idevs t = t
  refresh-IsTable hc i (suc c) idevs t =
      go_on-OnDone (IsTable n) (refresh_from find hc (suc i) c)
        (parse_attr find (hc.sysattr (status_name i)) idevs) (refresh-IsTable hc (suc i) c)
        (attr-IsTable (hc.sysattr (status_name i)) idevs t)

  pub refresh_list-IsTable :
      (d : Driver) → IsTable n d.idev → OnDone (IsTable n) (refresh_imported_device_list find d)
  unfolding refresh_imported_device_list
  refresh_list-IsTable d t = refresh-IsTable d.hc_device 0 d.ncontrollers d.idev t
