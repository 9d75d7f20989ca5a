-- ===== src/Usb.antt =====
-- LIB/Toastbox/USB.h: the descriptors and the setup request. A multi-byte field holds the word as
-- the host reads it from memory. A descriptor that is reached through a pointer may be the head of
-- a larger object: `following` are the bytes behind it in that object.
pub mod Strings
pub mod Request
pub mod RequestType
pub mod DescriptorType
pub mod Endpoint
use virtual_usb.Base.{ℕ, ◌+◌, Bool, List, [], ◌∷◌, ◌++◌}
use virtual_usb.Endian.{store16}

pub record DeviceDescriptor : Type 0 where
  pub b_length : ℕ
  pub b_descriptor_type : ℕ
  pub bcd_usb : ℕ
  pub b_device_class : ℕ
  pub b_device_sub_class : ℕ
  pub b_device_protocol : ℕ
  pub b_max_packet_size_0 : ℕ
  pub id_vendor : ℕ
  pub id_product : ℕ
  pub bcd_device : ℕ
  pub i_manufacturer : ℕ
  pub i_product : ℕ
  pub i_serial_number : ℕ
  pub b_num_configurations : ℕ

pub record ConfigurationDescriptor : Type 0 where
  pub b_length : ℕ
  pub b_descriptor_type : ℕ
  pub w_total_length : ℕ
  pub b_num_interfaces : ℕ
  pub b_configuration_value : ℕ
  pub i_configuration : ℕ
  pub bm_attributes : ℕ
  pub b_max_power : ℕ
  pub following : List ℕ

pub record DeviceQualifierDescriptor : Type 0 where
  pub b_length : ℕ
  pub b_type : ℕ
  pub bcd_usb : ℕ
  pub b_device_class : ℕ
  pub b_device_sub_class : ℕ
  pub b_device_protocol : ℕ
  pub b_max_packet_size_0 : ℕ
  pub b_num_configurations : ℕ
  pub b_reserved : ℕ

pub record StringDescriptor : Type 0 where
  pub b_length : ℕ
  pub b_descriptor_type : ℕ
  pub following : List ℕ

pub record SetupRequest : Type 0 where
  pub bm_request_type : ℕ
  pub b_request : ℕ
  pub w_value : ℕ
  pub w_index : ℕ
  pub w_length : ℕ

-- `ConfigurationCharacteristics::SelfPowered`
abbrev pub self_powered_bit : ℕ
self_powered_bit = 0x40

-- The memory that a pointer to a descriptor may read: the packed fields, and what follows.
module _ (little : Bool) where
  unfoldable pub device_memory : DeviceDescriptor → List ℕ
  device_memory d =
      d.b_length
      ∷ d.b_descriptor_type
      ∷ (store16 little d.bcd_usb
          ++ (d.b_device_class
              ∷ d.b_device_sub_class
              ∷ d.b_device_protocol
              ∷ d.b_max_packet_size_0
              ∷ (store16 little d.id_vendor
                  ++ (store16 little d.id_product
                      ++ (store16 little d.bcd_device
                          ++ (d.i_manufacturer ∷ d.i_product ∷ d.i_serial_number
                              ∷ d.b_num_configurations ∷ []))))))

  unfoldable pub configuration_memory : ConfigurationDescriptor → List ℕ
  configuration_memory d =
      d.b_length
      ∷ d.b_descriptor_type
      ∷ (store16 little d.w_total_length
          ++ (d.b_num_interfaces ∷ d.b_configuration_value ∷ d.i_configuration ∷ d.bm_attributes
              ∷ d.b_max_power ∷ d.following))

  unfoldable pub qualifier_memory : DeviceQualifierDescriptor → List ℕ
  qualifier_memory d =
      d.b_length
      ∷ d.b_type
      ∷ (store16 little d.bcd_usb
          ++ (d.b_device_class ∷ d.b_device_sub_class ∷ d.b_device_protocol ∷ d.b_max_packet_size_0
              ∷ d.b_num_configurations ∷ d.b_reserved ∷ []))

unfoldable pub string_memory : StringDescriptor → List ℕ
string_memory d = d.b_length ∷ d.b_descriptor_type ∷ d.following
