-- ===== src/Example.antt =====
-- Descriptor.h and main.cpp: the example, a serial port of the CDC class.
pub mod Descriptors
pub mod Handlers
pub mod Enumeration
pub mod Coding
mod Tests
