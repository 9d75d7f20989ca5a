-- ===== src/LibUsb.antt =====
-- LIB/Toastbox/USBDevice.cpp: the table of endpoints, the claims of interfaces and the transfers of the
-- wrapper of libusb. The global variables are the state; what libusb answers to a call is a function
-- of the calls made before, which the state keeps, newest first.
pub mod Table
pub mod Order
mod Tests
use virtual_usb.Base.{
  ℕ, zero, suc, ◌+◌, ◌/◌, ◌%◌, ◌^◌, List, [], ◌∷◌, ◌++◌, Bool, true, false, not, Option, some, none,
  bit_and, bit_or, if◌then◌else◌, ◌==◌, length, take, get_elem?,
}
use virtual_usb.Device.State.{update}

-- `_Interface`
pub record Interface : Type 0 where
  pub b_interface_number : ℕ
  pub claimed : Bool

-- `_EndpointInfo`
pub record EndpointInfo : Type 0 where
  pub valid : Bool
  pub ep_addr : ℕ
  pub iface_idx : ℕ
  pub max_packet_size : ℕ

-- The calls of libusb: `libusb_open`, `libusb_claim_interface` for an interface of the list,
-- `libusb_bulk_transfer`, `libusb_clear_halt` and `libusb_control_transfer`.
pub data Call : Type 0 where
  opens : Bool → Call
  claims : ℕ → ℕ → Bool → Call
  transfers : ℕ → Call
  clears : ℕ → Call
  controls : ℕ → Call

-- `_interfaces`, `_epInfos`, `_handle`, and the calls made.
pub record Globals : Type 0 where
  pub interfaces : List Interface
  pub ep_infos : ℕ → EndpointInfo
  pub handle : Option ℕ
  pub calls : List Call

pub data Failure : Type 0 where
  no_altsettings out_of_range open_failed claim_failed transfer_failed clear_failed : Failure
  short_read short_write : Failure
  invalid_endpoint : ℕ → Failure

pub data Outcome (A : Type 0) : Type 0 where
  ok : A → Outcome A
  fails : Failure → Outcome A

abbrev pub M : Type 0 → Type 0
M A = Globals → Outcome A × Globals

abbrev pub continue : {A B : Type 0} → (A → M B) → Outcome A × Globals → Outcome B × Globals
continue f (ok a, g) = f a g
continue f (fails e, g) = (fails e, g)

infixl 5 ◌>>=◌
abbrev pub ◌>>=◌ : {A B : Type 0} → M A → (A → M B) → M B
◌>>=◌ m f g = continue f (m g)

abbrev pub pure : {A : Type 0} → A → M A
pure a g = (ok a, g)

abbrev pub throw : {A : Type 0} → Failure → M A
throw e g = (fails e, g)

-- `OffsetForEndpointAddr`
unfoldable pub offset_for_endpoint_addr : ℕ → ℕ
offset_for_endpoint_addr ep_addr = bit_or (bit_and ep_addr 0x80 / 2 ^ 3) (bit_and ep_addr 0x0F)

-- What libusb tells of an interface: its altsettings, each with a number and the addresses and
-- packet sizes of its endpoints.
pub record AltSetting : Type 0 where
  pub b_interface_number : ℕ
  pub endpoints : List (ℕ × ℕ)

abbrev pub add_endpoint : ℕ → ℕ × ℕ → (ℕ → EndpointInfo) → ℕ → EndpointInfo
add_endpoint iface_idx (ep_addr, max_packet_size) infos =
    update infos (offset_for_endpoint_addr ep_addr) (record {
      valid = true;
      ep_addr = ep_addr;
      iface_idx = iface_idx;
      max_packet_size = max_packet_size;
    })

abbrev pub add_endpoints : ℕ → List (ℕ × ℕ) → (ℕ → EndpointInfo) → ℕ → EndpointInfo
add_endpoints iface_idx [] infos = infos
add_endpoints iface_idx (endpoint ∷ rest) infos =
    add_endpoints iface_idx rest (add_endpoint iface_idx endpoint infos)

-- One interface of a device, in its first altsetting.
abbrev pub add_interface : ℕ → AltSetting → Globals → Globals
add_interface iface_idx alt g = record g {
  interfaces =
      g.interfaces
      ++ (record { b_interface_number = alt.b_interface_number; claimed = false } ∷ []);
  ep_infos = add_endpoints iface_idx alt.endpoints g.ep_infos;
}

-- The loop of the constructor, from interface `iface_idx` of the device on.
abbrev pub populate : ℕ → List (List AltSetting) → M (Unit {0})
populate iface_idx [] g = (ok tt, g)
populate iface_idx ([] ∷ rest) g = (fails no_altsettings, g)
populate iface_idx ((alt ∷ alts) ∷ rest) g =
    populate (suc iface_idx) rest (add_interface iface_idx alt g)

-- `USBDevice(dev)`, with the interfaces of configuration 0.
unfoldable pub construct : List (List AltSetting) → M (Unit {0})
construct interfaces = populate 0 interfaces

-- `_epInfo`
unfoldable pub ep_info : ℕ → M EndpointInfo
ep_info ep_addr g =
    let info = g.ep_infos (offset_for_endpoint_addr ep_addr) in
    (if info.valid then ok info else fails (invalid_endpoint ep_addr), g)

-- `maxPacketSize`
unfoldable pub max_packet_size : ℕ → M ℕ
max_packet_size ep_addr = do info ← ep_info ep_addr; pure info.max_packet_size

-- The loop of `endpoints`, from place `i` of the table on, with `n` places to go.
abbrev pub endpoints_from : ℕ → ℕ → (ℕ → EndpointInfo) → List ℕ
endpoints_from zero i infos = []
endpoints_from (suc n) i infos =
    let rest = endpoints_from n (suc i) infos in
    if (infos i).valid then (infos i).ep_addr ∷ rest else rest

unfoldable pub endpoints : Globals → List ℕ
endpoints g = endpoints_from 32 0 g.ep_infos

-- `_LibUSBTimeoutFromMs`; `none` is `Forever`.
abbrev pub timeout_from_ms : Option ℕ → ℕ
timeout_from_ms none = 0
timeout_from_ms (some ms) = if ms == 0 then 1 else ms % 2 ^ 32

abbrev pub log : Call → Globals → Globals
log call g = record g { calls = call ∷ g.calls }

-- `_interfaces.at(idx)`
abbrev pub found : Option Interface → Outcome Interface
found none = fails out_of_range
found (some iface) = ok iface

abbrev pub interface_at : ℕ → M Interface
interface_at idx g = (found (get_elem? g.interfaces idx), g)

-- `iface.claimed = true`
abbrev pub set_claimed : ℕ → List Interface → List Interface
set_claimed idx [] = []
set_claimed zero (iface ∷ ifaces) = record iface { claimed = true } ∷ ifaces
set_claimed (suc idx) (iface ∷ ifaces) = iface ∷ set_claimed idx ifaces

-- The answers of libusb.
pub record Answers : Type 0 where
  pub device_handle : List Call → Option ℕ
  pub claim : List Call → ℕ → Bool
  pub bulk : List Call → ℕ → ℕ → Option ℕ
  pub clear_halt : List Call → ℕ → Bool
  pub control : List Call → ℕ → List ℕ → Bool

module _ (a : Answers) where
  abbrev pub opened : Option ℕ → M (Unit {0})
  opened none g = (fails open_failed, log (opens false) g)
  opened (some h) g = (ok tt, record (log (opens true) g) { handle = some h })

  abbrev pub unless_open : Option ℕ → M (Unit {0})
  unless_open none g = opened (a.device_handle g.calls) g
  unless_open (some h) g = (ok tt, g)

  -- `_openIfNeeded`
  unfoldable pub open_if_needed : M (Unit {0})
  open_if_needed g = unless_open g.handle g

  abbrev pub claimed_now : ℕ → ℕ → Bool → M (Unit {0})
  claimed_now idx number false g = (fails claim_failed, log (claims idx number false) g)
  claimed_now idx number true g =
      (ok tt, record (log (claims idx number true) g) { interfaces = set_claimed idx g.interfaces })

  abbrev pub unless_claimed : ℕ → ℕ → Bool → M (Unit {0})
  unless_claimed idx number true g = (ok tt, g)
  unless_claimed idx number false g = claimed_now idx number (a.claim g.calls number) g

  -- `_claimInterfaceForEndpointAddr`
  unfoldable pub claim_interface_for_endpoint_addr : ℕ → M (Unit {0})
  claim_interface_for_endpoint_addr ep_addr = do
    u ← open_if_needed
    info ← ep_info ep_addr
    iface ← interface_at info.iface_idx
    unless_claimed info.iface_idx iface.b_interface_number iface.claimed

  abbrev pub transferred : Option ℕ → Outcome ℕ
  transferred none = fails transfer_failed
  transferred (some len) = ok len

  abbrev pub bulk_transfer : ℕ → ℕ → M ℕ
  bulk_transfer ep_addr len g =
      (transferred (a.bulk g.calls ep_addr (len % 2 ^ 32)), log (transfers ep_addr) g)

  -- `read` with a buffer, and its length.
  unfoldable pub read : ℕ → ℕ → M ℕ
  read ep_addr len = do u ← claim_interface_for_endpoint_addr ep_addr; bulk_transfer ep_addr len

  -- `read` of an object of `size` bytes.
  unfoldable pub read_object : ℕ → ℕ → M (Unit {0})
  read_object ep_addr size = do
    len ← read ep_addr size
    if len == size then pure tt else throw short_read

  unfoldable pub write : ℕ → ℕ → M (Unit {0})
  write ep_addr len = do
    u ← claim_interface_for_endpoint_addr ep_addr
    xfer_len ← bulk_transfer ep_addr len
    if xfer_len == len then pure tt else throw short_write

  abbrev pub clear_halt : ℕ → M (Unit {0})
  clear_halt ep_addr g =
      (if a.clear_halt g.calls ep_addr then ok tt else fails clear_failed, log (clears ep_addr) g)

  unfoldable pub reset : ℕ → M (Unit {0})
  reset ep_addr = do u ← claim_interface_for_endpoint_addr ep_addr; clear_halt ep_addr

  -- `libusb_control_transfer` takes the length as a `uint16_t`.
  abbrev pub control_transfer : ℕ → List ℕ → M (Unit {0})
  control_transfer req bytes g = (
    if a.control g.calls req (take (length bytes % 2 ^ 16) bytes)
        then ok tt
        else fails transfer_failed,
    log (controls req) g,
  )

  unfoldable pub vendor_request_out : ℕ → List ℕ → M (Unit {0})
  vendor_request_out req bytes = do u ← open_if_needed; control_transfer req bytes
