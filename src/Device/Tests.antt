-- ===== src/Device/Tests.antt =====
-- Commands, a device and states at which the theorems are applied.
mod Queues
mod Control
mod Wire
mod Ends
mod Life
mod Loops
mod Public
use virtual_usb.Base.{
  List, ◌≡◌, subst, sym, inr, All, ℕ_discrete, ==_false, ℕ, ◌++◌, refl, inl, true, [], ◌∷◌, some,
  none, arith, replicate,
}
use virtual_usb.Usbip
use virtual_usb.Usb.{DeviceDescriptor, ConfigurationDescriptor}
use virtual_usb.Usbip.{HeaderCmdSubmit, Header, zero_header}
use virtual_usb.Device.Transfer.Serve.{IsData}
use virtual_usb.Device.Transfer.Refine.{IsPending}
use virtual_usb.Device.Moves.{IsWf}
use virtual_usb.Device.State.{Data, Shared, update, Cmd, empty_cmd, Info, initial}

abbrev pub submit : ℕ → ℕ → ℕ → ℕ → Cmd
submit seqnum direction ep len = record {
  header = record {
    base = record {
      command = Usbip.cmd_submit;
      seqnum = seqnum;
      devid = 1;
      direction = direction;
      ep = ep;
    };
    cmd_submit = record {
      transfer_flags = 0;
      transfer_buffer_length = len;
      start_frame = 0;
      number_of_packets = 0;
      interval = 0;
      setup = replicate 8 0;
    };
  };
  payload = [];
  payload_len = 0;
}

-- A device with one configuration, of 9 bytes and 58 that follow.
abbrev pub device : DeviceDescriptor
device = record {
  b_length = 18;
  b_descriptor_type = 1;
  bcd_usb = 0x0200;
  b_device_class = 2;
  b_device_sub_class = 0;
  b_device_protocol = 0;
  b_max_packet_size_0 = 16;
  id_vendor = 0x1234;
  id_product = 0x5678;
  bcd_device = 0x0100;
  i_manufacturer = 1;
  i_product = 2;
  i_serial_number = 0;
  b_num_configurations = 1;
}

abbrev pub configuration : ConfigurationDescriptor
configuration = record {
  b_length = 9;
  b_descriptor_type = 2;
  w_total_length = 67;
  b_num_interfaces = 2;
  b_configuration_value = 1;
  i_configuration = 0;
  bm_attributes = 0xc0;
  b_max_power = 0x32;
  following = replicate 58 7;
}

abbrev pub info : Info
info = record {
  device_desc = device;
  device_qualifier_desc = none;
  config_descs = configuration ∷ [];
  config_descs_count = 1;
  string_descs = none;
  string_descs_count = 0;
  throw_on_err = true;
}

-- A command with another setup request, number or command.
abbrev pub with_setup : List ℕ → Cmd → Cmd
with_setup bytes cmd = record cmd {
  header = record (cmd.header) { cmd_submit = record (cmd.header.cmd_submit) { setup = bytes } };
}

abbrev pub unlink : ℕ → ℕ → Cmd
unlink seqnum victim = record empty_cmd {
  header = record {
    base = record { command = Usbip.cmd_unlink; seqnum = seqnum; devid = 1; direction = 0; ep = 0 };
    cmd_submit = record (zero_header.cmd_submit) { transfer_flags = victim };
  };
}

-- Endpoint 2: two IN commands wait, of two bytes each.
abbrev pub asked_first : Shared
asked_first = record initial {
  in_cmds = update initial.in_cmds 2 (submit 7 1 2 2 ∷ submit 8 1 2 2 ∷ []);
}

asked-IsPending : (seqnum : ℕ) → IsPending 2 (submit seqnum 1 2 2)
asked-IsPending seqnum = record {
  command = refl;
  direction = refl;
  endpoint = refl;
  word = omega arith;
}

pub asked_first-IsWf : IsWf asked_first
asked_first-IsWf = record {
  queued = record { pendings = λ ep. waiting ep; items = λ _. tt };
  idle = λ _. inr refl;
}
  where
    waiting : (ep : ℕ) → All (IsPending ep) (asked_first.in_cmds ep)
    waiting ep = elim (ℕ_discrete ep 2) [
      | yes e ↦
          subst (λ k. All (IsPending k) (asked_first.in_cmds k)) (sym e)
            (asked-IsPending 7, (asked-IsPending 8, tt))
      | no n ↦ rw (==_false ep 2 n) tt
    ]

-- And three bytes have come for them.
abbrev pub three_bytes : Data
three_bytes = record { bytes = 1 ∷ 2 ∷ 3 ∷ []; len = 3; off = 0 }

abbrev pub ready : Shared
ready = record asked_first { in_data = update initial.in_data 2 (three_bytes ∷ []) }

pub ready-IsPending : All (IsPending 2) (ready.in_cmds 2)
ready-IsPending = (asked-IsPending 7, (asked-IsPending 8, tt))

pub ready-IsData : All IsData (ready.in_data 2)
ready-IsData = (record { full = refl; size = omega arith; within = omega arith }, tt)
