-- ===== src/Device/State.antt =====
-- The types of VirtualUSBDevice.h, the static state `_s` of VirtualUSBDevice.cpp, and the monad in
-- which the handlers run: they hold the lock, change `_s`, and may throw.
use virtual_usb.Base.{
  ℕ, ◌≡◌, ap, ◌+◌, ◌-◌, ◌^◌, Bool, List, [], Option, none, if◌then◌else◌, ltb, ◌==◌,
}
use virtual_usb.Usb.{
  DeviceDescriptor, DeviceQualifierDescriptor, ConfigurationDescriptor, StringDescriptor,
  SetupRequest,
}
use virtual_usb.Usbip.{Header, zero_header}

-- A buffer that an owner holds by a `unique_ptr` is the list of its bytes. `_Cmd`, also `_Rep`.
pub record Cmd : Type 0 where
  pub header : Header
  pub payload : List ℕ
  pub payload_len : ℕ

-- `_Cmd cmd;`
abbrev pub empty_cmd : Cmd
empty_cmd = record { header = zero_header; payload = []; payload_len = 0 }

-- `_Data`: bytes for an IN endpoint, of which `off` are sent.
pub record Data : Type 0 where
  pub bytes : List ℕ
  pub len : ℕ
  pub off : ℕ

pub record Xfer : Type 0 where
  pub ep : ℕ
  pub setup_req : SetupRequest
  pub bytes : List ℕ
  pub len : ℕ

-- `setupReq = {}`
abbrev pub zero_setup : SetupRequest
zero_setup = record { bm_request_type = 0; b_request = 0; w_value = 0; w_index = 0; w_length = 0 }

-- `Info`: the pointer arrays as lists beside their counts. A null `config_descs` is the empty list.
pub record Info : Type 0 where
  pub device_desc : DeviceDescriptor
  pub device_qualifier_desc : Option DeviceQualifierDescriptor
  pub config_descs : List ConfigurationDescriptor
  pub config_descs_count : ℕ
  pub string_descs : Option (List StringDescriptor)
  pub string_descs_count : ℕ
  pub throw_on_err : Bool

-- The exceptions, by their messages.
pub data Error : Type 0 where
  stopped invalid_cmd_direction invalid_ep_idx no_active_configuration unexpected_payload : Error
  invalid_usbip_command invalid_recipient invalid_config_index invalid_string_index : ℕ → Error
  invalid_config_value invalid_in_request invalid_out_request : ℕ → Error
  invalid_bcd_usb socketpair_failed driver_open_failed no_free_port attach_failed : Error
  recv_ended send_ended bad_array_length : Error
  recv_error send_error unknown_command : ℕ → Error

-- How a handler ends: it returns, it throws, an `assert` fails, or it reads memory that is not
-- there, and its behaviour is undefined.
pub data Result {ℓ} (A : Type ℓ) : Type ℓ where
  ok : A → Result A
  throws : Error → Result A
  aborts : Result A
  undefined : Result A

-- `_s`, less the lock, the signal and the threads. A socket of -1 is `none`;
-- `shut_down` are the sockets that `shutdown` has been called on.
pub record Shared : Type 0 where
  pub state : ℕ
  pub err : Option Error
  pub socket : Option ℕ
  pub usbip_socket : Option ℕ
  pub shut_down : List ℕ
  pub config_desc : Option ConfigurationDescriptor
  pub cmds : List Cmd
  pub reps : List Cmd
  pub in_cmds : ℕ → List Cmd
  pub in_data : ℕ → List Data

-- `_s = {}`
abbrev pub initial : Shared
initial = record {
  state = 0;
  err = none;
  socket = none;
  usbip_socket = none;
  shut_down = [];
  config_desc = none;
  cmds = [];
  reps = [];
  in_cmds = λ _. [];
  in_data = λ _. [];
}

abbrev pub M : Type 0 → Type 0
M A = Shared → Result A × Shared

-- What follows a step: an exception leaves the changes made so far.
abbrev pub continue : {A B : Type 0} → (A → M B) → Result A × Shared → Result B × Shared
continue f (ok a, s) = f a s
continue f (throws e, s) = (throws e, s)
continue f (aborts, s) = (aborts, s)
continue f (undefined, s) = (undefined, s)

infixl 5 ◌>>=◌ ◌>>◌
abbrev pub ◌>>=◌ : {A B : Type 0} → M A → (A → M B) → M B
◌>>=◌ m f s = continue f (m s)

abbrev pub ◌>>◌ : {B : Type 0} → M (Unit {0}) → M B → M B
m >> k = m >>= λ _. k

-- A step that returns hands its value and its state on.
pub >>=_ok :
    {A B : Type 0} (m : M A) (f : A → M B) (s : Shared) {a : A} {s' : Shared}
    → m s ≡ (ok a, s')
    → (m >>= f) s ≡ f a s'
>>=_ok m f s e = ap (continue f) e

abbrev pub pure : {A : Type 0} → A → M A
pure a s = (ok a, s)

abbrev pub throw : {A : Type 0} → Error → M A
throw e s = (throws e, s)

-- `assert(b)`
abbrev pub assert : Bool → M (Unit {0})
assert b s = if b then (ok tt, s) else (aborts, s)

-- `if (b) throw e`
abbrev pub throw_if : Bool → Error → M (Unit {0})
throw_if b e s = if b then (throws e, s) else (ok tt, s)

-- `a[i] = v` on an array of queues
abbrev pub update {ℓ} : {A : Type ℓ} → (ℕ → A) → ℕ → A → ℕ → A
update f i v j = if j == i then v else f j

-- `(size_t)x` of an `int32_t`: the sign is extended to 64 bits.
abbrev pub size_of_int32 : ℕ → ℕ
size_of_int32 w = if ltb w (2 ^ 31) then w else w + (2 ^ 64 - 2 ^ 32)
