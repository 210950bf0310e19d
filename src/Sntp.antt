-- ===== src/Sntp.antt =====
-- src/dev/IP/dev_sntp.h: a device that asks a time server.
pub mod Time
pub mod Client
mod Arith
mod Offset
mod Header
mod Attempts
mod Tests
