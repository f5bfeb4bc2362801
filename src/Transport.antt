-- ===== src/Transport.antt =====
-- src/transport: what the adapters share. The sockets themselves are not modelled.
pub mod Errors
pub mod Framing
