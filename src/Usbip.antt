-- ===== src/Usbip.antt =====
-- USBIP.h and the protocol constants of USBIPLib.h: the 48-byte header of the USB/IP protocol.
mod Tests
pub mod Wire
use virtual_usb.Base.{ℕ, List, ◌++◌, Bool, replicate, take, drop}
use virtual_usb.Endian.{store32, load32}

abbrev pub cmd_submit : ℕ
cmd_submit = 1

abbrev pub cmd_unlink : ℕ
cmd_unlink = 2

abbrev pub ret_submit : ℕ
ret_submit = 3

abbrev pub ret_unlink : ℕ
ret_unlink = 4

abbrev pub dir_out : ℕ
dir_out = 0

abbrev pub dir_in : ℕ
dir_in = 1

-- `HEADER_BASIC`
pub record HeaderBasic : Type 0 where
  pub command : ℕ
  pub seqnum : ℕ
  pub devid : ℕ
  pub direction : ℕ
  pub ep : ℕ

-- `HEADER_CMD_SUBMIT`, the largest member of the union and so its storage. An `int32_t` is its bit
-- pattern; `setup` are the eight bytes `setup.u8`.
pub record HeaderCmdSubmit : Type 0 where
  pub transfer_flags : ℕ
  pub transfer_buffer_length : ℕ
  pub start_frame : ℕ
  pub number_of_packets : ℕ
  pub interval : ℕ
  pub setup : List ℕ

pub record Header : Type 0 where
  pub base : HeaderBasic
  pub cmd_submit : HeaderCmdSubmit

-- `HEADER header = {}`
abbrev pub zero_header : Header
zero_header = record {
  base = record { command = 0; seqnum = 0; devid = 0; direction = 0; ep = 0 };
  cmd_submit = record {
    transfer_flags = 0;
    transfer_buffer_length = 0;
    start_frame = 0;
    number_of_packets = 0;
    interval = 0;
    setup = replicate 8 0;
  };
}

-- The other members of the union lie over the first words of `HEADER_CMD_SUBMIT`.
abbrev pub cmd_unlink_seqnum : Header → ℕ
cmd_unlink_seqnum h = h.cmd_submit.transfer_flags

-- `HEADER_RET_SUBMIT`
pub record HeaderRetSubmit : Type 0 where
  pub status : ℕ
  pub actual_length : ℕ
  pub start_frame : ℕ
  pub number_of_packets : ℕ
  pub error_count : ℕ

abbrev pub set_ret_submit : HeaderRetSubmit → Header → Header
set_ret_submit r h = record h {
  cmd_submit = record {
    transfer_flags = r.status;
    transfer_buffer_length = r.actual_length;
    start_frame = r.start_frame;
    number_of_packets = r.number_of_packets;
    interval = r.error_count;
    setup = h.cmd_submit.setup;
  };
}

-- `ret_unlink.status = s`
abbrev pub set_ret_unlink : ℕ → Header → Header
set_ret_unlink s h = record h { cmd_submit = record (h.cmd_submit) { transfer_flags = s } }

-- The packed struct in the host's memory, and read from it.
module _ (little : Bool) where
  unfoldable pub store_header : Header → List ℕ
  store_header h =
      store32 little h.base.command
      ++ (store32 little h.base.seqnum
          ++ (store32 little h.base.devid
              ++ (store32 little h.base.direction
                  ++ (store32 little h.base.ep
                      ++ (store32 little h.cmd_submit.transfer_flags
                          ++ (store32 little h.cmd_submit.transfer_buffer_length
                              ++ (store32 little h.cmd_submit.start_frame
                                  ++ (store32 little h.cmd_submit.number_of_packets
                                      ++ (store32 little h.cmd_submit.interval
                                          ++ h.cmd_submit.setup)))))))))

  unfoldable pub load_header : List ℕ → Header
  load_header m = record {
    base = record {
      command = load32 little m;
      seqnum = load32 little (drop 4 m);
      devid = load32 little (drop 8 m);
      direction = load32 little (drop 12 m);
      ep = load32 little (drop 16 m);
    };
    cmd_submit = record {
      transfer_flags = load32 little (drop 20 m);
      transfer_buffer_length = load32 little (drop 24 m);
      start_frame = load32 little (drop 28 m);
      number_of_packets = load32 little (drop 32 m);
      interval = load32 little (drop 36 m);
      setup = take 8 (drop 40 m);
    };
  }
