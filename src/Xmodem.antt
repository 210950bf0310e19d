-- ===== src/Xmodem.antt =====
-- src/prot/prot_xmodem.h and src/prot/prot_xmodem.cpp: the XMODEM protocol. A message is the sequence
-- of its bytes, a timer is the period in seconds that it was started with, or `none`.
pub mod Machine
pub mod Course
pub mod Payload
pub mod Transmission
pub mod Bounds
pub mod Faults
pub mod Checksum
mod Tests
