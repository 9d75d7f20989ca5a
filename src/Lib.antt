-- ===== src/Lib.antt =====
-- VirtualUSB: a virtual USB device that the host's kernel reaches by the USB/IP protocol.
--
-- The program VirtualUSBDevice.cpp hands one end of a socket pair to the vhci driver of the kernel. A
-- read thread takes the host's commands from the other end and queues them; the client's calls of
-- `read` handle them one by one; a write thread sends the queued replies. The client's calls of
-- `write` give data for IN endpoints, which is matched with the IN commands that wait. All of them
-- share the static state `_s` under one lock.
--
--   Base, with its children: Boolean tests on native numbers, lists, bits.
--   Endian: LIB/Toastbox/Endian.h. A word is its bit pattern; the host's byte order is a parameter.
--   Usb: LIB/Toastbox/USB.h, the descriptors, the setup request and the constants.
--   RingBuffer: LIB/Toastbox/RingBuffer.h. RingBuffer.Queue is what it promises, and RingBuffer.Runs the
--     sequences of calls.
--   Text: the conversions of sscanf, strtoul and snprintf that USBIPLib.cpp uses.
--   Tasks: LIB/Toastbox/Task.h and Task.cpp. Tasks.Resume: one run of a task. Tasks.Histories: its runs,
--     starts and pauses. Tasks.Rounds: the loop of `Run`.
--   Vhci: USBIPLib.cpp and the types of USBIPLib.h. Vhci.Device: the attributes of a device.
--     Vhci.Status: `parse_status`. Vhci.Driver: opening, closing, the free port and the attachment.
--     Vhci.Table: the table of ports as the kernel prints it.
--   LibUsb: LIB/Toastbox/USBDevice.cpp. LibUsb.Table: the table of endpoints. LibUsb.Order: the order of
--     the calls of libusb.
--   Usbip: USBIP.h and the constants of USBIPLib.h, the header, its memory and its wire encoding.
--   Device.State: VirtualUSBDevice.h and the state `_s`; the monad of the handlers. A handler returns,
--     throws, fails an assert, or reads memory that is not there (`undefined`), and keeps the changes
--     made before.
--   Device.Reply: `_reply`. Device.Transfer: `_handleCmdSubmitEPXOut`, `_handleCmdSubmitEPXIn`,
--     `_sendDataForInEndpoint` and the body of `write`. Device.Unlink: `_handleCmdUnlink`.
--     Device.Standard: `_handleCmdSubmitEP0StandardRequest`. Device.Command: `_handleCmd` and what it
--     calls. Device.Socket: `_Read`, `_Write`, `_ReadCmd` and the writes of `_writeThread`.
--   Device.Client: `read` with a timeout of zero and `_SpeedFromBCDUSB`.
--   Device.Start: `start`, with the driver of Vhci and the end by `_reset`.
--   Device.Loops: the loops of `_readThread` and `_writeThread`, each run by itself.
--   Device.Reset: `_reset`, split at its wait, and the ends of the threads; Device.Reset.Threads: the
--     read thread, the write thread and the client as they end the device. Device.Reset.Stopping and
--     Device.Reset.Ending: what they must do after the client has called `_reset`.
--   Device.Public: `read` with a timeout of zero, `write`, `stop` and `err` with the handler of
--     exceptions; the state in which the wait of `_reset` ends is a parameter.
--   Device.Moves: what one operation does to the queues. Device.History: all operations in any order.
--   Usb.Strings: the string descriptors. Example: Descriptor.h and the handlers of main.cpp.
--   The modules named Tests hold concrete inputs.
--
-- The queues are lists, front first; the arrays of queues are functions of the endpoint. A pointer to
-- be read from is null or the list of the bytes that lie there; a descriptor may be the head of a
-- larger object, whose other bytes are its `following`. An int32_t is its bit pattern, and `size_t`
-- arithmetic wraps at 2^64. The loop over the 32 queues and the search for a configuration run for
-- their number of rounds; the loops of `start`, of `_readThread` and of `Task::Run` have fuel, one
-- unit a round, and theorems say how much is enough; the other loops follow a list or a text. The
-- calls of `recv` and `send` are a parameter: the sequence of their outcomes. So are the answers of
-- libudev and of the system's calls in Vhci and Device.Start, and those of libusb, which may depend on
-- all calls before. The function of a `Task` is a list of its macros and of what stands between them.
-- What a text sets in the program but the text's end cuts off is `none`, and a write out of a list is
-- `undefined`.
--
-- Not modelled: the waiting of `read`, and the threads side by side but for Device.History, where each
-- critical section is one step and `_reset` is any change of the fields that it writes, and
-- Device.Reset.Threads; printf; failing allocations other than those of 2^63 bytes or more and that of
-- the driver; `main` and its thread that writes text; file descriptors of sysfs files, which are
-- closed where they are opened; LIB/Toastbox but for Endian.h, USB.h, RingBuffer.h, Task.h, Task.cpp
-- and USBDevice.cpp, of which the copies of descriptors and the pointer to the current task are left
-- out.
pub mod Base
pub mod Endian
pub mod Usb
pub mod RingBuffer
pub mod Text
pub mod Tasks
pub mod LibUsb
pub mod Usbip
pub mod Vhci
pub mod Device
pub mod Example
