-- ===== src/Device/Standard/Selection.antt =====
-- SetConfiguration and GetStatus: the active configuration.
use virtual_usb.Base.{
  ℕ, zero, suc, ◌+◌, ◌≤◌, ◌<◌, ◌++◌, ◌≡◌, ◌≢◌, refl, ap, subst, ◌∙◌, ◌⊎◌, inl, inr, Bool, true,
  false, List, [], ◌∷◌, Option, none, some, arith, bit_and, bit_or, get_elem?, length, take, ==_iff,
  ==_false, if◌then◌else◌, ℕ_discrete,
}
use virtual_usb.Endian.{store16, lfh_u16}
use virtual_usb.Endian.Wire.{store_wire}
use virtual_usb.Usb.{ConfigurationDescriptor, SetupRequest}
use virtual_usb.Usbip
use virtual_usb.Device.State.{
  Cmd, Info, Shared, Result, ok, throws, continue, ◌>>◌, invalid_config_value,
}
use virtual_usb.Device.Reply.{submit_reply, reply}
use virtual_usb.Device.Reply.Laws.{reply_in, reply_out, reply_in_empty}
use virtual_usb.Device.Standard.{
  find_config, select_config, set_configuration, self_powered, status_reply, get_status,
}

module _ (little : Bool) (info : Info) (value : ℕ) (s : Shared) where
  -- At `i` stands a configuration of another value.
  abbrev pub IsPassed : ℕ → Type 0
  IsPassed i =
      (d : ConfigurationDescriptor) × (get_elem? info.config_descs i ≡ some d)
      × (d.b_configuration_value ≢ value)

  -- What the loop comes to: the first configuration of the value, or none of that value.
  pub data IsFound (i n : ℕ) (o : Result (Option ConfigurationDescriptor) × Shared) : Type 0 where
    hit :
        (j : ℕ) (d : ConfigurationDescriptor)
        → j < n
        → get_elem? info.config_descs j ≡ some d
        → d.b_configuration_value ≡ value
        → ((k : ℕ) → i ≤ k → k < j → IsPassed k)
        → o ≡ (ok (some d), s)
        → IsFound i n o
    miss : ((k : ℕ) → i ≤ k → k < n → IsPassed k) → o ≡ (ok none, s) → IsFound i n o

  present :
      (xs : List ConfigurationDescriptor) (i : ℕ)
      → i < length xs
      → (d : ConfigurationDescriptor) × (get_elem? xs i ≡ some d)
  present [] i h = absurd (omega arith)
  present (x ∷ xs) zero h = (x, refl)
  present (x ∷ xs) (suc i) h = present xs i (omega arith)

  find_config-IsFound :
      (rounds i n : ℕ)
      → i + rounds ≡ n
      → n ≤ length info.config_descs
      → IsFound i n (find_config little info rounds i value s)
  unfolding find_config
  find_config-IsFound zero i n e h = miss (λ k a b. absurd (omega arith)) refl
  find_config-IsFound (suc rounds) i n e h =
      step (present info.config_descs i (omega arith))
        (find_config-IsFound rounds (i + 1) n (omega arith) h)
    where
      extend :
          IsPassed i
          → (m : ℕ) → ((k : ℕ) → i + 1 ≤ k → k < m → IsPassed k)
          → (k : ℕ) → i ≤ k
          → k < m
          → IsPassed k
      extend p m all k a b = elim (ℕ_discrete i k) [
        | yes x ↦ subst IsPassed x p
        | no x ↦ all k (omega arith) b
      ]

      pass :
          IsPassed i
          → IsFound (i + 1) n (find_config little info rounds (i + 1) value s)
          → IsFound i n (find_config little info rounds (i + 1) value s)
      pass p (hit j d lt g v all r) = hit j d lt g v (extend p j all) r
      pass p (miss all r) = miss (extend p n all) r

      step :
          ((d : ConfigurationDescriptor) × (get_elem? info.config_descs i ≡ some d))
          → IsFound (i + 1) n (find_config little info rounds (i + 1) value s)
          → IsFound i n (find_config little info (suc rounds) i value s)
      step (d, g) later =
          rw (g, find_config)
            (elim (ℕ_discrete d.b_configuration_value value) [
              | yes x ↦
                  rw ((==_iff d.b_configuration_value value).1 x)
                    (hit i d (omega arith) g x (λ k a b. absurd (omega arith)) refl)
              | no x ↦ rw (==_false d.b_configuration_value value x) (pass (d, g, x) later)
            ])

status_bytes :
    (little b : Bool)
    → store16 little (lfh_u16 little (if b then bit_or 0 1 else 0)) ≡ (if b then 1 else 0) ∷ 0 ∷ []
status_bytes little true = (store_wire little 0 1).2
status_bytes little false = (store_wire little 0 0).2

module _ (little : Bool) (info : Info) (cmd : Cmd) (s : Shared) where
  -- The state with an empty reply.
  abbrev pub acknowledged : Option ConfigurationDescriptor → Shared
  acknowledged d = record s {
    config_desc = d;
    reps = s.reps ++ (submit_reply little cmd [] 0 0 ∷ []);
  }

  pub data IsSelected (value : ℕ) (o : Result (Unit {0}) × Shared) : Type 0 where
    selected :
        (j : ℕ) (d : ConfigurationDescriptor)
        → j < info.config_descs_count
        → get_elem? info.config_descs j ≡ some d
        → d.b_configuration_value ≡ value
        → ((k : ℕ) → k < j → IsPassed little info value s k)
        → o ≡ (ok tt, acknowledged (some d))
        → IsSelected value o
    rejected :
        ((k : ℕ) → k < info.config_descs_count → IsPassed little info value s k)
        → o ≡ (throws (invalid_config_value value), s)
        → IsSelected value o

  acknowledge :
      (t : Shared)
      → cmd.header.base.command ≡ Usbip.cmd_submit
      → (cmd.header.base.direction ≡ Usbip.dir_in) ⊎ (cmd.header.base.direction ≡ Usbip.dir_out)
      → reply little cmd none 0 0 t
        ≡ (ok tt, record t { reps = t.reps ++ (submit_reply little cmd [] 0 0 ∷ []) })
  acknowledge t c (inl d) = reply_in_empty little cmd 0 t c d none
  acknowledge t c (inr d) = reply_out little cmd 0 t 0 c d

  -- SetConfiguration of a SUBMIT command in either direction, where the count does not exceed the
  -- array of configurations, makes the first configuration of the requested value active and queues
  -- an empty reply, or, where none has that value, throws and changes nothing.
  pub set_configuration-IsSelected :
      (req : SetupRequest)
      → cmd.header.base.command ≡ Usbip.cmd_submit
      → (cmd.header.base.direction ≡ Usbip.dir_in) ⊎ (cmd.header.base.direction ≡ Usbip.dir_out)
      → info.config_descs_count ≤ length info.config_descs
      → IsSelected (bit_and req.w_value 0x00ff) (set_configuration little info cmd req 0 s)
  unfolding set_configuration
  set_configuration-IsSelected req c d h = finish (
      find_config-IsFound little info value s info.config_descs_count 0 info.config_descs_count
        (omega arith) h)
    where
      value : ℕ
      value = bit_and req.w_value 0x00ff

      after_search : Result (Option ConfigurationDescriptor) × Shared → Result (Unit {0}) × Shared
      after_search o =
          continue (λ found. select_config little info value found >> reply little cmd none 0 0) o

      finish :
          IsFound little info value s 0 info.config_descs_count
            (find_config little info info.config_descs_count 0 value s)
          → IsSelected value
              (after_search (find_config little info info.config_descs_count 0 value s))
      finish (hit j x lt g v all r) =
          selected j x lt g v (λ k b. all k (omega arith) b)
            (ap after_search r ∙ acknowledge (record s { config_desc = some x }) c d)
      finish (miss all r) = rejected (λ k b. all k (omega arith) b) (ap after_search r)

  -- On a host of either byte order, GetStatus of an IN command, with a configuration active, is
  -- answered by two bytes: the first is 1 or 0 as the configuration is self-powered or not, and the
  -- second is 0.
  pub get_status_lem :
      (d : ConfigurationDescriptor)
      → cmd.header.base.command ≡ Usbip.cmd_submit
      → cmd.header.base.direction ≡ Usbip.dir_in
      → s.config_desc ≡ some d
      → get_status little info cmd s ≡ (
        ok tt,
        record s {
          reps =
              s.reps
              ++ (submit_reply little cmd ((if self_powered d then 1 else 0) ∷ 0 ∷ []) 2 2 ∷ []);
        },
      )
  unfolding get_status
  get_status_lem d c i e =
      let bits = status_bytes little (self_powered d) in
      let m = store16 little (lfh_u16 little (if self_powered d then bit_or 0 1 else 0)) in
      ap (λ o. status_reply little info cmd o s) e
      ∙ reply_in little cmd 0 s m 2 c i (omega (arith, ap length bits))
      ∙ ap
          (λ bs.
            (ok tt, record s { reps = s.reps ++ (submit_reply little cmd (take 2 bs) 2 2 ∷ []) }))
          bits
