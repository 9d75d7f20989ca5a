-- ===== src/LibUsb/Tests.antt =====
-- The wrapper of libusb with a device of two interfaces, and with a second device.
use virtual_usb.Base.{
  ℕ, zero, suc, sym, ap, ◌≡◌, refl, List, [], ◌∷◌, Bool, true, false, Option, some, none, arith,
  get_elem?,
}
use virtual_usb.LibUsb.{
  Interface, Globals, AltSetting, Answers, ok, opens, claims, transfers, clears, controls,
  construct, ep_info, endpoints, open_if_needed, claim_interface_for_endpoint_addr, read, write,
  reset, vendor_request_out, offset_for_endpoint_addr,
}
use virtual_usb.LibUsb.Table.{info_of, Differs, ep_info-construct}
use virtual_usb.LibUsb.Order.{AllAllowed}
use virtual_usb.LibUsb.Order.Runs.{Op, reads, writes, resets, requests, run, run-AllAllowed}

abbrev nothing : Globals
nothing = record {
  interfaces = [];
  ep_infos = λ i. record { valid = false; ep_addr = 0; iface_idx = 0; max_packet_size = 0 };
  handle = none;
  calls = [];
}

abbrev serial : List (List AltSetting)
serial =
    (record { b_interface_number = 0; endpoints = (0x81, 8) ∷ [] } ∷ [])
    ∷ (record { b_interface_number = 1; endpoints = (0x02, 64) ∷ (0x82, 64) ∷ [] } ∷ [])
    ∷ []

abbrev constructed : Globals
constructed = (construct serial nothing).1

after_0x02 : Differs 0x02 (1, 0x82, 64)
after_0x02 = ((omega arith, omega arith), λ e. omega arith)

ep_info-construct_example : ep_info 0x02 constructed ≡ (ok (info_of (1, 0x02, 64)), constructed)
unfolding construct
ep_info-construct_example =
    ep_info-construct 0x02 (omega arith, omega arith) serial ((0, 0x81, 8) ∷ []) 1 64
      ((1, 0x82, 64) ∷ []) nothing constructed refl refl (after_0x02, tt)

listed_endpoints : endpoints constructed ≡ 0x02 ∷ 0x81 ∷ 0x82 ∷ []
unfolding endpoints construct offset_for_endpoint_addr
listed_endpoints = refl

-- Everything goes well, but a transfer takes at most 64 bytes.
abbrev answers : Answers
answers = record {
  device_handle = λ calls. some 1;
  claim = λ calls number. true;
  bulk = λ calls ep len. some 64;
  clear_halt = λ calls ep. true;
  control = λ calls req bytes. true;
}

abbrev transfer_ops : List Op
transfer_ops = reads 0x82 512 ∷ writes 0x02 65 ∷ requests 1 [] ∷ resets 0x81 ∷ []

abbrev flag : Option Interface → Bool
flag none = false
flag (some iface) = iface.claimed

no_claims :
    (i : ℕ) (iface : Interface)
    → get_elem? constructed.interfaces i ≡ some iface
    → iface.claimed ≡ false
unfolding construct
no_claims zero iface e = sym (ap flag e)
no_claims (suc zero) iface e = sym (ap flag e)
no_claims (suc (suc i)) iface e = sym (ap flag e)

run-AllAllowed_example :
    AllAllowed constructed.ep_infos (run answers transfer_ops constructed).calls
unfolding construct
run-AllAllowed_example = run-AllAllowed answers transfer_ops constructed refl refl no_claims

calls_made :
    (run answers transfer_ops constructed).calls
    ≡ clears 0x81
      ∷ claims 0 0 true
      ∷ controls 1
      ∷ transfers 0x02
      ∷ transfers 0x82
      ∷ claims 1 1 true
      ∷ opens true
      ∷ []
unfolding construct read write reset vendor_request_out claim_interface_for_endpoint_addr
    open_if_needed ep_info offset_for_endpoint_addr
calls_made = refl

-- A device that is made after it, with one interface of number 7: a transfer to its endpoint claims
-- the first interface of the other device.
abbrev second : List (List AltSetting)
second = (record { b_interface_number = 7; endpoints = (0x83, 64) ∷ [] } ∷ []) ∷ []

second_claims :
    (read answers 0x83 64 (construct second constructed).1).1.calls
    ≡ transfers 0x83 ∷ claims 0 0 true ∷ opens true ∷ []
unfolding construct read claim_interface_for_endpoint_addr open_if_needed ep_info
    offset_for_endpoint_addr
second_claims = refl
