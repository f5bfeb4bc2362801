-- ===== src/Protocol.antt =====
-- src/protocol: the wire format, as pure functions.
pub mod Errors
pub mod Notifications
pub mod Arguments
pub mod Requests
pub mod Parameters
pub mod Request
pub mod Control
pub mod TlcpRequest
pub mod Response
pub mod Escaping
pub mod Diff
