-- ===== src/Hub.antt =====
-- src/prot/prot_hub.h: a layer that shares one lower layer among several upper layers.
pub mod Dispatch
pub mod Receive
mod Tests
