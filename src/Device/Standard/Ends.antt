-- ===== src/Device/Standard/Ends.antt =====
-- How `_handleCmdSubmitEP0StandardRequest` ends: with one reply, or with a failure and none. It
-- leaves the data queues alone.
use virtual_usb.Base.{
  ℕ, zero, suc, ◌+◌, ◌/◌, ◌^◌, refl, Bool, List, Option, none, some, ◌==◌, leb, not, get_elem?,
  bit_and, Option-cases, Bool-cases, inl, inr,
}
use virtual_usb.Usb.Request
use virtual_usb.Usb.RequestType
use virtual_usb.Usb.DescriptorType
use virtual_usb.Usb.{ConfigurationDescriptor, StringDescriptor, SetupRequest}
use virtual_usb.Usbip
use virtual_usb.Device.State.{
  Cmd, Info, throw, throw_if, pure, size_of_int32, invalid_cmd_direction, no_active_configuration,
  unexpected_payload, invalid_recipient, invalid_config_index, invalid_string_index,
  invalid_config_value, invalid_in_request, invalid_out_request,
}
use virtual_usb.Device.Reply.{reply}
use virtual_usb.Device.Reply.Ends.{
  Yields, goes, stops, threw, faulted, Any, pure-Yields, throw_if-Yields, if-Yields, bind-Yields,
  IsEnd, throw-IsEnd, if-IsEnd, bind-IsEnd, reply-IsEnd,
}
use virtual_usb.Device.Standard.{
  deref, device_source, configuration_source, reply_source, qualifier_source, string_source,
  descriptor_source, get_descriptor, find_config, select_config, set_configuration, status_reply,
  get_status, standard_in, standard_out, handle_standard_request,
}

deref-Yields : {A : Type 0} (xs : List A) (i : ℕ) → Yields Any (deref xs i)
deref-Yields xs i s = elim (Option-cases (get_elem? xs i)) [
  | inl e ↦ rw (e, deref) (stops faulted s.config_desc refl)
  | inr (x, e) ↦ rw (e, deref) (goes x s.config_desc tt refl)
]

module _ (little : Bool) (info : Info) where
  device_source-Yields : (idx : ℕ) → Yields Any (device_source little info idx)
  device_source-Yields idx =
      bind-Yields Any Any (deref info.config_descs idx) _ (deref-Yields info.config_descs idx)
        λ d _. pure-Yields Any _ tt

  configuration_source-Yields : (idx : ℕ) → Yields Any (configuration_source little info idx)
  configuration_source-Yields idx =
      bind-Yields Any Any (throw_if (leb info.config_descs_count idx) (invalid_config_index idx)) _
        (throw_if-Yields _ _)
        λ _ _.
          bind-Yields Any Any (deref info.config_descs idx) _ (deref-Yields info.config_descs idx)
            λ d _. pure-Yields Any _ tt

  string_source-Yields :
      (idx : ℕ) (descs : Option (List StringDescriptor))
      → Yields Any (string_source little info idx descs)
  string_source-Yields idx none = pure-Yields Any _ tt
  string_source-Yields idx (some descs) =
      bind-Yields Any Any (throw_if (leb info.string_descs_count idx) (invalid_string_index idx)) _
        (throw_if-Yields _ _)
        λ _ _.
          bind-Yields Any Any (deref descs idx) _ (deref-Yields descs idx)
            λ d _. pure-Yields Any _ tt

  pub descriptor_source-Yields :
      (type idx : ℕ) → Yields Any (descriptor_source little info type idx)
  unfolding descriptor_source
  descriptor_source-Yields type idx =
      if-Yields Any (type == DescriptorType.device) (device_source little info idx) _
        (device_source-Yields idx)
        (if-Yields Any (type == DescriptorType.configuration) (configuration_source little info idx)
          _ (configuration_source-Yields idx)
          (if-Yields Any (type == DescriptorType.string)
            (string_source little info idx info.string_descs) _
            (string_source-Yields idx info.string_descs)
            (if-Yields Any (type == DescriptorType.device_qualifier)
              (pure (qualifier_source little info info.device_qualifier_desc)) (pure (none, 0))
              (pure-Yields Any _ tt) (pure-Yields Any _ tt))))

  find_config-Yields : (rounds i value : ℕ) → Yields Any (find_config little info rounds i value)
  unfolding find_config
  find_config-Yields zero i value s = goes none s.config_desc tt refl
  find_config-Yields (suc rounds) i value s = elim (Option-cases (get_elem? info.config_descs i)) [
    | inl e ↦ rw (e, find_config) (stops faulted s.config_desc refl)
    | inr (d, e) ↦
        rw (e, find_config)
          (elim (Bool-cases (d.b_configuration_value == value)) [
            | inl hit ↦ rw hit (goes (some d) s.config_desc tt refl)
            | inr miss ↦ rw miss (find_config-Yields rounds (i + 1) value s)
          ])
  ]

  select_config-Yields :
      (value : ℕ) (d : Option ConfigurationDescriptor)
      → Yields Any (select_config little info value d)
  select_config-Yields value none s = stops (threw (invalid_config_value value)) s.config_desc refl
  select_config-Yields value (some d) s = goes tt (some d) tt refl

  module _ (cmd : Cmd) where
    get_descriptor-IsEnd :
        (req : SetupRequest) → IsEnd little cmd (get_descriptor little info cmd req)
    unfolding get_descriptor
    get_descriptor-IsEnd req =
        bind-IsEnd little cmd Any
          (descriptor_source little info (bit_and req.w_value 0xff00 / 2 ^ 8)
            (bit_and req.w_value 0x00ff))
          (reply_source little info cmd req) (descriptor_source-Yields _ _)
          λ source _. reply-IsEnd little cmd source.0 _ _

    set_configuration-IsEnd :
        (req : SetupRequest) (len : ℕ)
        → IsEnd little cmd (set_configuration little info cmd req len)
    unfolding set_configuration
    set_configuration-IsEnd req len =
        let value = bit_and req.w_value 0x00ff in
        bind-IsEnd little cmd Any (find_config little info info.config_descs_count 0 value) _
          (find_config-Yields _ _ _)
          λ found _.
            bind-IsEnd little cmd Any (select_config little info value found)
              (λ _. reply little cmd none len 0) (select_config-Yields value found)
              λ _ _. reply-IsEnd little cmd none len 0

    status_reply-IsEnd :
        (d : Option ConfigurationDescriptor) → IsEnd little cmd (status_reply little info cmd d)
    status_reply-IsEnd none = throw-IsEnd little cmd no_active_configuration
    status_reply-IsEnd (some d) = reply-IsEnd little cmd _ 2 0

    standard_in-IsEnd : (req : SetupRequest) → IsEnd little cmd (standard_in little info cmd req)
    unfolding standard_in get_status
    standard_in-IsEnd req =
        if-IsEnd little cmd (req.b_request == Request.get_status) (get_status little info cmd) _
          (λ s. status_reply-IsEnd s.config_desc s)
          (if-IsEnd little cmd (req.b_request == Request.get_descriptor)
            (get_descriptor little info cmd req) _ (get_descriptor-IsEnd req)
            (if-IsEnd little cmd (req.b_request == Request.set_configuration)
              (set_configuration little info cmd req 0) (throw (invalid_in_request req.b_request))
              (set_configuration-IsEnd req 0) (throw-IsEnd little cmd _)))

    standard_out-IsEnd : (req : SetupRequest) → IsEnd little cmd (standard_out little info cmd req)
    unfolding standard_out
    standard_out-IsEnd req =
        let len = size_of_int32 cmd.header.cmd_submit.transfer_buffer_length in
        bind-IsEnd little cmd Any (throw_if (not (len == 0)) unexpected_payload) _
          (throw_if-Yields _ _)
          λ _ _.
            if-IsEnd little cmd (req.b_request == Request.set_configuration)
              (set_configuration little info cmd req len)
              (throw (invalid_out_request req.b_request)) (set_configuration-IsEnd req len)
              (throw-IsEnd little cmd _)

    -- A standard request ends in one of two ways: it returns, having queued exactly one reply,
    -- which names the command and holds as many bytes as it says, or it throws, aborts or is
    -- undefined, having queued none; and it changes nothing else but the active configuration.
    pub handle_standard_request-IsEnd :
        (req : SetupRequest) → IsEnd little cmd (handle_standard_request little info cmd req)
    unfolding handle_standard_request
    handle_standard_request-IsEnd req =
        let recipient = bit_and req.bm_request_type RequestType.recipient_mask in
        bind-IsEnd little cmd Any
          (throw_if (not (recipient == RequestType.recipient_device)) (invalid_recipient recipient))
          _ (throw_if-Yields _ _)
          λ _ _.
            if-IsEnd little cmd (cmd.header.base.direction == Usbip.dir_in)
              (standard_in little info cmd req) _ (standard_in-IsEnd req)
              (if-IsEnd little cmd (cmd.header.base.direction == Usbip.dir_out)
                (standard_out little info cmd req) (throw invalid_cmd_direction)
                (standard_out-IsEnd req) (throw-IsEnd little cmd _))
