-- ===== src/Generic.antt =====
-- src/dev/dev_generic.h: a device with a buffer for the message that it received last.
pub mod Device
mod Reception
mod Writes
mod Tests
