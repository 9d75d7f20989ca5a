-- ===== src/Example/Descriptors.antt =====
-- Descriptor.h. A constant in memory is a list of bytes; words are converted by LFH_U16.
use virtual_usb.Base.{ℕ, ◌++◌, Bool, List, [], ◌∷◌, some, true}
use virtual_usb.Endian.{lfh_u16, store16}
use virtual_usb.Usb.DescriptorType
use virtual_usb.Usb.{
  DeviceDescriptor, DeviceQualifierDescriptor, ConfigurationDescriptor, StringDescriptor,
}
use virtual_usb.Usb.Strings.{string_descriptor}
use virtual_usb.Device.State.{Info}

abbrev pub vid : ℕ
vid = 0x1234

abbrev pub pid : ℕ
pid = 0x5678

-- The namespace `Endpoint`
abbrev pub endpoint_out2 : ℕ
endpoint_out2 = 0x02

abbrev pub endpoint_in2 : ℕ
endpoint_in2 = 0x82

-- "ManufacturerString", "ProductString" and "InterfaceString"
abbrev pub manufacturer_text : List ℕ
manufacturer_text =
    77 ∷ 97 ∷ 110 ∷ 117 ∷ 102 ∷ 97 ∷ 99 ∷ 116 ∷ 117 ∷ 114 ∷ 101 ∷ 114 ∷ 83 ∷ 116 ∷ 114 ∷ 105 ∷ 110
    ∷ 103 ∷ []

abbrev pub product_text : List ℕ
product_text = 80 ∷ 114 ∷ 111 ∷ 100 ∷ 117 ∷ 99 ∷ 116 ∷ 83 ∷ 116 ∷ 114 ∷ 105 ∷ 110 ∷ 103 ∷ []

abbrev pub interface_text : List ℕ
interface_text =
    73 ∷ 110 ∷ 116 ∷ 101 ∷ 114 ∷ 102 ∷ 97 ∷ 99 ∷ 101 ∷ 83 ∷ 116 ∷ 114 ∷ 105 ∷ 110 ∷ 103 ∷ []

module _ (little : Bool) where
  -- A word of a packed constant
  abbrev pub word : ℕ → List ℕ
  word w = store16 little (lfh_u16 little w)

  -- `Device`
  abbrev pub example_device : DeviceDescriptor
  example_device = record {
    b_length = 18;
    b_descriptor_type = 0x01;
    bcd_usb = lfh_u16 little 0x0200;
    b_device_class = 0x02;
    b_device_sub_class = 0x00;
    b_device_protocol = 0x00;
    b_max_packet_size_0 = 0x10;
    id_vendor = lfh_u16 little vid;
    id_product = lfh_u16 little pid;
    bcd_device = lfh_u16 little 0x0100;
    i_manufacturer = 0x01;
    i_product = 0x02;
    i_serial_number = 0x00;
    b_num_configurations = 0x01;
  }

  -- `DeviceQualifier`
  abbrev pub example_qualifier : DeviceQualifierDescriptor
  example_qualifier = record {
    b_length = 10;
    b_type = 0x06;
    bcd_usb = lfh_u16 little 0x0200;
    b_device_class = 0x02;
    b_device_sub_class = 0x00;
    b_device_protocol = 0x00;
    b_max_packet_size_0 = 0x10;
    b_num_configurations = 0x01;
    b_reserved = 0x00;
  }

  -- The members of `Configuration` behind `configDesc`, in the order of the struct.
  abbrev pub iface0_desc : List ℕ
  iface0_desc = 9 ∷ 4 ∷ 0x00 ∷ 0x00 ∷ 0x01 ∷ 0x02 ∷ 0x02 ∷ 0x01 ∷ 0x00 ∷ []

  abbrev pub header_func_desc : List ℕ
  header_func_desc = 0x05 ∷ 0x24 ∷ 0x00 ∷ word 0x0110

  abbrev pub call_management_func_desc : List ℕ
  call_management_func_desc = 0x05 ∷ 0x24 ∷ 0x01 ∷ 0x01 ∷ 0x01 ∷ []

  abbrev pub acm_func_desc : List ℕ
  acm_func_desc = 0x04 ∷ 0x24 ∷ 0x02 ∷ 0x02 ∷ []

  abbrev pub union_func_desc : List ℕ
  union_func_desc = 0x05 ∷ 0x24 ∷ 0x06 ∷ 0x00 ∷ 0x01 ∷ []

  abbrev pub ep_in1_desc : List ℕ
  ep_in1_desc = 7 ∷ 5 ∷ 0x81 ∷ 0x03 ∷ (word 0x0008 ++ (0x0a ∷ []))

  abbrev pub iface1_desc : List ℕ
  iface1_desc = 9 ∷ 4 ∷ 0x01 ∷ 0x00 ∷ 0x02 ∷ 0x0a ∷ 0x00 ∷ 0x00 ∷ 0x03 ∷ []

  abbrev pub ep_out2_desc : List ℕ
  ep_out2_desc = 7 ∷ 5 ∷ 0x02 ∷ 0x02 ∷ (word 0x0020 ++ (0x00 ∷ []))

  abbrev pub ep_in2_desc : List ℕ
  ep_in2_desc = 7 ∷ 5 ∷ 0x82 ∷ 0x02 ∷ (word 0x0020 ++ (0x00 ∷ []))

  -- `Configuration`: its size is 67.
  abbrev pub example_configuration : ConfigurationDescriptor
  example_configuration = record {
    b_length = 9;
    b_descriptor_type = DescriptorType.configuration;
    w_total_length = lfh_u16 little 67;
    b_num_interfaces = 0x02;
    b_configuration_value = 0x01;
    i_configuration = 0x00;
    bm_attributes = 0xc0;
    b_max_power = 0x32;
    following =
        iface0_desc
        ++ (header_func_desc
            ++ (call_management_func_desc
                ++ (acm_func_desc
                    ++ (union_func_desc
                        ++ (ep_in1_desc ++ (iface1_desc ++ (ep_out2_desc ++ ep_in2_desc)))))));
  }

  -- `Strings`
  abbrev pub example_strings : List StringDescriptor
  example_strings =
      string_descriptor little (0x0409 ∷ [])
      ∷ string_descriptor little manufacturer_text
      ∷ string_descriptor little product_text
      ∷ string_descriptor little interface_text
      ∷ []

  -- `deviceInfo` of `main`
  abbrev pub example_info : Info
  example_info = record {
    device_desc = example_device;
    device_qualifier_desc = some example_qualifier;
    config_descs = example_configuration ∷ [];
    config_descs_count = 1;
    string_descs = some example_strings;
    string_descs_count = 4;
    throw_on_err = true;
  }
