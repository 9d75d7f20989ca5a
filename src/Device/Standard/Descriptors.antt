-- ===== src/Device/Standard/Descriptors.antt =====
-- GetDescriptor, for each type of descriptor.
use virtual_usb.Base.{
  ℕ, ◌+◌, ◌*◌, ◌/◌, ◌^◌, ◌≤◌, ◌<◌, ◌++◌, ◌≡◌, ◌≢◌, refl, ap, ◌∙◌, Bool, List, [], ◌∷◌, none, some,
  arith, bit_and, min, get_elem?, length, length-take, ==_false, take, leb-false, le→leb,
}
use virtual_usb.Base.Bits.{bit_and_mask, bit_and_shifted}
use virtual_usb.Endian.{store16}
use virtual_usb.Usb.DescriptorType
use virtual_usb.Usb.{
  DeviceDescriptor, ConfigurationDescriptor, SetupRequest, device_memory, configuration_memory,
}
use virtual_usb.Usbip
use virtual_usb.Device.State.{
  Cmd, Info, Shared, Result, ok, throws, undefined, ◌>>=◌, invalid_config_index,
}
use virtual_usb.Device.Reply.{submit_reply, reply}
use virtual_usb.Device.Reply.Laws.{reply_in, reply_in_empty, reply_overread}
use virtual_usb.Device.Standard.{
  deref, configuration_len, descriptor_source, reply_source, get_descriptor,
}

-- The two bytes of wValue.
w_value_fields :
    (type idx : ℕ)
    → type < 256
    → idx < 256
    → (bit_and (type * 256 + idx) 0xff00 / 2 ^ 8 ≡ type) × (bit_and (type * 256 + idx) 0x00ff ≡ idx)
w_value_fields type idx ht hi =
    let w = type * 256 + idx in
    let high : bit_and w 0xff00 ≡ bit_and (w / 2 ^ 8) 0xff * 2 ^ 8 = bit_and_shifted 8 w 0xff in
    (omega (arith, high, bit_and_mask 8 (w / 2 ^ 8)), bit_and_mask 8 w ∙ omega arith)

module _ (little : Bool) (info : Info) (cmd : Cmd) (req : SetupRequest) (s : Shared) where
  -- A request for the descriptor of a type and an index.
  pub record IsRequest (type idx : ℕ) : Type 0 where
    pub command : cmd.header.base.command ≡ Usbip.cmd_submit
    pub direction : cmd.header.base.direction ≡ Usbip.dir_in
    pub value : req.w_value ≡ type * 256 + idx
    pub type_byte : type < 256
    pub idx_byte : idx < 256

  -- The state with the reply that carries `bytes`.
  abbrev pub replied : List ℕ → Result (Unit {0}) × Shared
  replied bytes = (
    ok tt,
    record s {
      reps = s.reps ++ (submit_reply little cmd bytes (length bytes) (length bytes) ∷ []);
    },
  )

  get_descriptor_lem :
      (type idx : ℕ)
      → IsRequest type idx
      → get_descriptor little info cmd req s
        ≡ (descriptor_source little info type idx >>= reply_source little info cmd req) s
  unfolding get_descriptor
  get_descriptor_lem type idx r =
      let f = w_value_fields type idx r.type_byte r.idx_byte in
      ap
        (λ w.
          (descriptor_source little info (bit_and w 0xff00 / 2 ^ 8) (bit_and w 0x00ff)
              >>= reply_source little info cmd req)
            s)
        r.value
      ∙ ap
          (λ t.
            (descriptor_source little info t (bit_and (type * 256 + idx) 0x00ff)
                >>= reply_source little info cmd req)
              s)
          f.0
      ∙ ap (λ i. (descriptor_source little info type i >>= reply_source little info cmd req) s) f.1

  -- The reply that carries the first bytes at a pointer, as many as the descriptor has and the host
  -- asks for.
  source_reply :
      (m : List ℕ) (len : ℕ)
      → cmd.header.base.command ≡ Usbip.cmd_submit
      → cmd.header.base.direction ≡ Usbip.dir_in
      → min len req.w_length ≤ length m
      → reply_source little info cmd req (some m, len) s ≡ replied (take (min len req.w_length) m)
  source_reply m len c d h =
      let n = min len req.w_length in
      reply_in little cmd 0 s m n c d h
      ∙ ap
          (λ k.
            (ok tt, record s { reps = s.reps ++ (submit_reply little cmd (take n m) k k ∷ []) }))
          (let e : n ≡ length (take n m) = omega (arith, length-take n m) in e)

  -- A request for a configuration descriptor of a valid index, whose total length lies within its
  -- memory, is answered by its first bytes, as many as the total length and the length asked for
  -- allow.
  pub configuration_reply :
      (idx : ℕ) (d : ConfigurationDescriptor)
      → IsRequest DescriptorType.configuration idx
      → idx < info.config_descs_count
      → get_elem? info.config_descs idx ≡ some d
      → configuration_len little info d ≤ length (configuration_memory little d)
      → get_descriptor little info cmd req s
        ≡ replied (
            take
              (min (configuration_len little info d) req.w_length)
              (configuration_memory little d))
  unfolding descriptor_source
  configuration_reply idx d r h e fits =
      get_descriptor_lem DescriptorType.configuration idx r
      ∙ rw (leb-false info.config_descs_count idx h, e, deref)
          (source_reply (configuration_memory little d) (configuration_len little info d) r.command
            r.direction (omega arith))

  -- A request for a configuration descriptor whose index, the low byte of wValue, is not below the
  -- count throws an error that names the index, and changes nothing.
  pub configuration_refused :
      (idx : ℕ)
      → IsRequest DescriptorType.configuration idx
      → info.config_descs_count ≤ idx
      → get_descriptor little info cmd req s ≡ (throws (invalid_config_index idx), s)
  unfolding descriptor_source
  configuration_refused idx r h =
      get_descriptor_lem DescriptorType.configuration idx r
      ∙ rw (le→leb info.config_descs_count idx h) refl

  length-device_memory : (d : DeviceDescriptor) → length (device_memory little d) ≡ 18
  unfolding device_memory store16
  length-device_memory d = ground arith

  -- A request for the device descriptor of more than 18 bytes, where the configuration of the same
  -- index is longer than 18 bytes, reads memory behind the device descriptor: its behaviour is
  -- undefined.
  pub device_overread :
      (idx : ℕ) (c : ConfigurationDescriptor)
      → IsRequest DescriptorType.device idx
      → get_elem? info.config_descs idx ≡ some c
      → 18 < configuration_len little info c
      → 18 < req.w_length
      → get_descriptor little info cmd req s ≡ (undefined, s)
  unfolding descriptor_source
  device_overread idx c r e h k =
      get_descriptor_lem DescriptorType.device idx r
      ∙ rw (e, deref)
          (reply_overread little cmd 0 s (device_memory little info.device_desc)
            (min (configuration_len little info c) req.w_length) r.command r.direction
            (omega (arith, length-device_memory info.device_desc)))

  -- A request for the device descriptor, where the length asked for or the total length of the
  -- configuration of the same index is at most 18, is answered by the first bytes of the device
  -- descriptor, as many as both lengths allow.
  pub device_reply :
      (idx : ℕ) (c : ConfigurationDescriptor)
      → IsRequest DescriptorType.device idx
      → get_elem? info.config_descs idx ≡ some c
      → min (configuration_len little info c) req.w_length ≤ 18
      → get_descriptor little info cmd req s
        ≡ replied (
            take
              (min (configuration_len little info c) req.w_length)
              (device_memory little info.device_desc))
  unfolding descriptor_source
  device_reply idx c r e h =
      get_descriptor_lem DescriptorType.device idx r
      ∙ rw (e, deref)
          (source_reply (device_memory little info.device_desc) (configuration_len little info c)
            r.command r.direction (omega (arith, length-device_memory info.device_desc)))

  -- A request for a descriptor of a type other than device, configuration, string and device
  -- qualifier is answered by an empty transfer with status 0: it reports success.
  pub unknown_type_succeeds :
      (type idx : ℕ)
      → IsRequest type idx
      → type ≢ DescriptorType.device
      → type ≢ DescriptorType.configuration
      → type ≢ DescriptorType.string
      → type ≢ DescriptorType.device_qualifier
      → get_descriptor little info cmd req s ≡ replied []
  unfolding descriptor_source
  unknown_type_succeeds type idx r n1 n2 n3 n6 =
      get_descriptor_lem type idx r
      ∙ rw (==_false type 1 n1, ==_false type 2 n2, ==_false type 3 n3, ==_false type 6 n6)
          (ap (λ n. reply little cmd none n 1 s) (let e : min 0 req.w_length ≡ 0 = omega arith in e)
            ∙ reply_in_empty little cmd 1 s r.command r.direction none)
