-- ===== src/Iso15765.antt =====
-- src/prot/automotive/prot_iso15765.h: the ISO 15765-2 transport protocol over CAN or K-Line.
-- A message is the sequence of its bytes. Masks and shifts of bytes are written as `/` and `%`, and
-- an or of disjoint bits as a sum. A timer is the period that it was started with, or `none`.
pub mod Types
pub mod Transmit
pub mod Receive
pub mod Link
pub mod Transfer
pub mod Begin
pub mod RoundTrip
pub mod Single
pub mod Refused
pub mod LostFrame
mod Tests
