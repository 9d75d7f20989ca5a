-- ===== src/Example/Enumeration.antt =====
-- The example's configuration, as the host reads it.
use virtual_usb.Base.{◌≡◌, refl, ap, ◌∙◌, Bool, true, false, arith, min, take, length}
use virtual_usb.Endian.{store16}
use virtual_usb.Endian.Swap.{conversions_cancel}
use virtual_usb.Usb.DescriptorType
use virtual_usb.Usb.{SetupRequest, configuration_memory}
use virtual_usb.Device.State.{Cmd, Shared}
use virtual_usb.Device.Standard.{configuration_len, get_descriptor}
use virtual_usb.Device.Standard.Descriptors.{IsRequest, replied, configuration_reply}
use virtual_usb.Example.Descriptors.{example_configuration, example_info}

length-configuration_memory :
    (little : Bool) → length (configuration_memory little (example_configuration little)) ≡ 67
unfolding configuration_memory store16
length-configuration_memory true = refl
length-configuration_memory false = refl

example_len :
    (little : Bool)
    → configuration_len little (example_info little) (example_configuration little) ≡ 67
example_len little = (conversions_cancel little 0 67 (omega arith) (omega arith)).3

-- On a host of either byte order, the example answers a request for configuration 0 by the first
-- bytes of its configuration with all that follows, as many as the host asks for, up to 67.
pub example_configuration_reply :
    (little : Bool) (cmd : Cmd) (req : SetupRequest) (s : Shared)
    → (let info = example_info little in
        IsRequest little info cmd req s DescriptorType.configuration 0)
    → get_descriptor little (example_info little) cmd req s
      ≡ replied little
          (example_info little)
          cmd
          req
          s
          (take (min 67 req.w_length) (configuration_memory little (example_configuration little)))
example_configuration_reply little cmd req s r =
    let n = example_len little in
    configuration_reply little (example_info little) cmd req s 0 (example_configuration little) r
      (omega arith) refl (omega (arith, n, length-configuration_memory little))
    ∙ ap
        (λ k.
          replied little (example_info little) cmd req s (
            take (min k req.w_length) (configuration_memory little (example_configuration little))))
        n
