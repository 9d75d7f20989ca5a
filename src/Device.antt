-- ===== src/Device.antt =====
-- VirtualUSBDevice.h and VirtualUSBDevice.cpp: the virtual device.
mod Tests
pub mod State
pub mod Reply
pub mod Transfer
pub mod Unlink
pub mod Standard
pub mod Command
pub mod Moves
pub mod History
pub mod Socket
pub mod Reset
pub mod Client
pub mod Public
pub mod Start
pub mod Loops
