-- ===== src/IntelHex.antt =====
-- src/prot/prot_intel_hex.h: a protocol that reads Intel HEX text and sends the data of its records.
-- A message is the sequence of its bytes.
pub mod Reader
pub mod Text
pub mod Digits
pub mod Record
pub mod File
pub mod Process
pub mod Delivery
mod Tests
