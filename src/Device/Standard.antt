-- ===== src/Device/Standard.antt =====
-- `_handleCmdSubmitEP0StandardRequest`: the standard requests to endpoint 0.
pub mod Ends
pub mod Descriptors
pub mod Selection
use virtual_usb.Base.{
  ℕ, zero, suc, ◌+◌, ◌/◌, ◌^◌, min, bit_and, bit_or, Bool, List, Option, none, some, if◌then◌else◌,
  leb, ◌==◌, not, get_elem?,
}
use virtual_usb.Endian.{hfl_u16, lfh_u16, store16}
use virtual_usb.Usb.Request
use virtual_usb.Usb.RequestType
use virtual_usb.Usb.DescriptorType
use virtual_usb.Usb.{
  ConfigurationDescriptor, DeviceQualifierDescriptor, StringDescriptor, SetupRequest,
  self_powered_bit, device_memory, configuration_memory, qualifier_memory, string_memory,
}
use virtual_usb.Usbip
use virtual_usb.Device.State.{
  Cmd, Info, M, ok, throws, undefined, ◌>>=◌, ◌>>◌, pure, throw, throw_if, invalid_cmd_direction,
  no_active_configuration, unexpected_payload, invalid_recipient, invalid_config_index,
  invalid_string_index, invalid_config_value, invalid_in_request, invalid_out_request,
  size_of_int32,
}
use virtual_usb.Device.Reply.{is_null, reply}

-- `_SelfPowered`
unfoldable pub self_powered : ConfigurationDescriptor → Bool
self_powered d = not (bit_and d.bm_attributes self_powered_bit == 0)

-- `*p[i]` for an array of pointers
abbrev pub deref : {A : Type 0} → List A → ℕ → M A
deref xs i s = elim (get_elem? xs i) [ none ↦ (undefined, s) | some x ↦ (ok x, s) ]

-- A pointer to reply from, and the number of bytes.
abbrev pub Source : Type 0
Source = Option (List ℕ) × ℕ

module _ (little : Bool) (info : Info) where
  -- `_DescLen` of a configuration
  abbrev pub configuration_len : ConfigurationDescriptor → ℕ
  configuration_len d = hfl_u16 little d.w_total_length

  abbrev pub device_source : ℕ → M Source
  device_source idx = do
    d ← deref info.config_descs idx
    pure (some (device_memory little info.device_desc), configuration_len d)

  abbrev pub configuration_source : ℕ → M Source
  configuration_source idx = do
    throw_if (leb info.config_descs_count idx) (invalid_config_index idx)
    d ← deref info.config_descs idx
    pure (some (configuration_memory little d), configuration_len d)

  abbrev pub string_source : ℕ → Option (List StringDescriptor) → M Source
  string_source idx none = pure (none, 0)
  string_source idx (some descs) = do
    throw_if (leb info.string_descs_count idx) (invalid_string_index idx)
    d ← deref descs idx
    pure (some (string_memory d), d.b_length)

  abbrev pub qualifier_source : Option DeviceQualifierDescriptor → Source
  qualifier_source none = (none, 0)
  qualifier_source (some d) = (some (qualifier_memory little d), d.b_length)

  -- The switch on the descriptor type.
  unfoldable pub descriptor_source : ℕ → ℕ → M Source
  descriptor_source type idx =
      if type == DescriptorType.device
      then device_source idx
      else if type == DescriptorType.configuration
      then configuration_source idx
      else if type == DescriptorType.string
      then string_source idx info.string_descs
      else if type == DescriptorType.device_qualifier
      then pure (qualifier_source info.device_qualifier_desc)
      else pure (none, 0)

  -- `_reply(cmd, replyData, min(replyDataLen, wLength), status)`
  abbrev pub reply_source : Cmd → SetupRequest → Source → M (Unit {0})
  reply_source cmd req (p, len) =
      reply little cmd p (min len req.w_length) (if is_null p then 1 else 0)

  unfoldable pub get_descriptor : Cmd → SetupRequest → M (Unit {0})
  get_descriptor cmd req = do
    source ← descriptor_source (bit_and req.w_value 0xff00 / 2 ^ 8) (bit_and req.w_value 0x00ff)
    reply_source cmd req source

  -- The loop of SetConfiguration, from `i` on: `rounds` are left. `ok` ends it.
  unfoldable pub find_config : ℕ → ℕ → ℕ → M (Option ConfigurationDescriptor)
  find_config zero i value s = (ok none, s)
  find_config (suc rounds) i value s =
      let rest = find_config rounds (i + 1) value s in
      elim (get_elem? info.config_descs i) [
        | none ↦ (undefined, s)
        | some d ↦ if d.b_configuration_value == value then (ok (some d), s) else rest
      ]

  -- `_s.configDesc = &configDesc`
  abbrev pub select_config : ℕ → Option ConfigurationDescriptor → M (Unit {0})
  select_config value none s = (throws (invalid_config_value value), s)
  select_config value (some d) s = (ok tt, record s { config_desc = some d })

  -- SetConfiguration, the same in both directions.
  unfoldable pub set_configuration : Cmd → SetupRequest → ℕ → M (Unit {0})
  set_configuration cmd req len = do
    let value = bit_and req.w_value 0x00ff
    found ← find_config info.config_descs_count 0 value
    select_config value found
    reply little cmd none len 0

  -- GetStatus: bit 0 of the reply says whether the active configuration is self-powered.
  abbrev pub status_reply : Cmd → Option ConfigurationDescriptor → M (Unit {0})
  status_reply cmd none = throw no_active_configuration
  status_reply cmd (some d) =
      let word = lfh_u16 little (if self_powered d then bit_or 0 1 else 0) in
      reply little cmd (some (store16 little word)) 2 0

  unfoldable pub get_status : Cmd → M (Unit {0})
  unfolding self_powered
  get_status cmd s = status_reply cmd s.config_desc s

  unfoldable pub standard_in : Cmd → SetupRequest → M (Unit {0})
  standard_in cmd req =
      if req.b_request == Request.get_status
      then get_status cmd
      else if req.b_request == Request.get_descriptor
      then get_descriptor cmd req
      else if req.b_request == Request.set_configuration
      then set_configuration cmd req 0
      else throw (invalid_in_request req.b_request)

  unfoldable pub standard_out : Cmd → SetupRequest → M (Unit {0})
  standard_out cmd req = do
    let payload_len = size_of_int32 cmd.header.cmd_submit.transfer_buffer_length
    throw_if (not (payload_len == 0)) unexpected_payload
    if req.b_request == Request.set_configuration
        then set_configuration cmd req payload_len
        else throw (invalid_out_request req.b_request)

  unfoldable pub handle_standard_request : Cmd → SetupRequest → M (Unit {0})
  unfolding standard_in standard_out
  handle_standard_request cmd req = do
    let recipient = bit_and req.bm_request_type RequestType.recipient_mask
    throw_if (not (recipient == RequestType.recipient_device)) (invalid_recipient recipient)
    if cmd.header.base.direction == Usbip.dir_in
        then standard_in cmd req
        else if cmd.header.base.direction == Usbip.dir_out
        then standard_out cmd req
        else throw invalid_cmd_direction
