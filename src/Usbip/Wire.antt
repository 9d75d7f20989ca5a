-- ===== src/Usbip/Wire.antt =====
-- The header on the wire: big-endian words, on a host of either kind.
use virtual_usb.Base.{ℕ, ◌^◌, ◌<◌, ◌++◌, ◌≡◌, Bool, List, length}
use virtual_usb.Endian.{bfh_u32, be_bytes32}
use virtual_usb.Endian.Wire.{store_wire}
use virtual_usb.Usbip.{Header, store_header}

-- The protocol's encoding: ten big-endian words and eight bytes.
abbrev pub wire_header : Header → List ℕ
wire_header h =
    be_bytes32 h.base.command
    ++ (be_bytes32 h.base.seqnum
        ++ (be_bytes32 h.base.devid
            ++ (be_bytes32 h.base.direction
                ++ (be_bytes32 h.base.ep
                    ++ (be_bytes32 h.cmd_submit.transfer_flags
                        ++ (be_bytes32 h.cmd_submit.transfer_buffer_length
                            ++ (be_bytes32 h.cmd_submit.start_frame
                                ++ (be_bytes32 h.cmd_submit.number_of_packets
                                    ++ (be_bytes32 h.cmd_submit.interval
                                        ++ h.cmd_submit.setup)))))))))

-- A header whose words fit into 32 bits.
pub record IsHeader (h : Header) : Type 0 where
  pub command : h.base.command < 2 ^ 32
  pub seqnum : h.base.seqnum < 2 ^ 32
  pub devid : h.base.devid < 2 ^ 32
  pub direction : h.base.direction < 2 ^ 32
  pub ep : h.base.ep < 2 ^ 32
  pub transfer_flags : h.cmd_submit.transfer_flags < 2 ^ 32
  pub transfer_buffer_length : h.cmd_submit.transfer_buffer_length < 2 ^ 32
  pub start_frame : h.cmd_submit.start_frame < 2 ^ 32
  pub number_of_packets : h.cmd_submit.number_of_packets < 2 ^ 32
  pub interval : h.cmd_submit.interval < 2 ^ 32
  pub setup : length h.cmd_submit.setup ≡ 8

module _ (little : Bool) where
  -- Each word, converted from the host to big endian.
  abbrev pub to_wire : Header → Header
  to_wire h = record {
    base = record {
      command = bfh_u32 little h.base.command;
      seqnum = bfh_u32 little h.base.seqnum;
      devid = bfh_u32 little h.base.devid;
      direction = bfh_u32 little h.base.direction;
      ep = bfh_u32 little h.base.ep;
    };
    cmd_submit = record {
      transfer_flags = bfh_u32 little h.cmd_submit.transfer_flags;
      transfer_buffer_length = bfh_u32 little h.cmd_submit.transfer_buffer_length;
      start_frame = bfh_u32 little h.cmd_submit.start_frame;
      number_of_packets = bfh_u32 little h.cmd_submit.number_of_packets;
      interval = bfh_u32 little h.cmd_submit.interval;
      setup = h.cmd_submit.setup;
    };
  }

  -- On a host of either byte order, the memory of a header whose words are converted by BFH is the
  -- encoding of the protocol: ten big-endian words and the eight setup bytes.
  pub store_header-to_wire : (h : Header) → store_header little (to_wire h) ≡ wire_header h
  unfolding store_header
  store_header-to_wire h =
      let w = λ (x : ℕ). (store_wire little x 0).0 in
      simp (
        w h.base.command,
        w h.base.seqnum,
        w h.base.devid,
        w h.base.direction,
        w h.base.ep,
        w h.cmd_submit.transfer_flags,
        w h.cmd_submit.transfer_buffer_length,
        w h.cmd_submit.start_frame,
        w h.cmd_submit.number_of_packets,
        w h.cmd_submit.interval,
      )
