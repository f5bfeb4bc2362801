-- ===== src/Transport/Errors.antt =====
-- src/error.rs: the errors of a transport. A reason that is a formatted message is left out, and a
-- capacity error keeps the length that its message reports.
use lightstreamer_rs.Base.{ℕ}
use lightstreamer_rs.Text.{Text}

pub data TransportError : Type 0 where
  connect : (target : Text) → TransportError
  connection_lost : (reason : Text) → TransportError
  send : (name reason : Text) → TransportError
  malformed_frame : TransportError
  capacity : (limit_bytes held : ℕ) → TransportError
