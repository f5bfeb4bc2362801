-- ===== src/Session/Incoming.antt =====
-- src/session/mod.rs, src/transport/ws.rs and src/transport/http.rs: runs of bytes go through the
-- line buffer, and each line that it hands out through the parser.
pub mod Examples
use lightstreamer_rs.Base.{
  ℕ, suc, ◌+◌, ◌≤◌, ◌≡◌, ap, refl, ◌∙◌, List, [], ◌∷◌, map, length, All, Result, ok, err,
}
use lightstreamer_rs.Text.{Text, Bytes}
use lightstreamer_rs.Protocol.Errors.{ProtocolError}
use lightstreamer_rs.Protocol.Notifications.{Notification}
use lightstreamer_rs.Protocol.Response.{parse_line}
use lightstreamer_rs.Protocol.Response.Printer.{print, IsSent}
use lightstreamer_rs.Protocol.Response.Lines.{IsClean, parse_line-print_bare, print_line}
use lightstreamer_rs.Transport.Errors.{TransportError}
use lightstreamer_rs.Transport.Framing.{LineBuffer, clear, max_line_bytes}
use lightstreamer_rs.Transport.Framing.Wire.{
  IsLine, wire, joined_runs, push_all, pop_all, pop_all-push_all,
}

-- What the driver is handed of a line.
pub data Incoming : Type 0 where
  parsed : Notification → Incoming
  malformed : ProtocolError → Incoming
  broken : TransportError → Incoming

abbrev pub incoming_line : Result ProtocolError Notification → Incoming
incoming_line (ok n) = parsed n
incoming_line (err e) = malformed e

abbrev pub incoming : Result TransportError Text → Incoming
incoming (ok line) = incoming_line (parse_line line)
incoming (err e) = broken e

-- Notifications that lines can carry.
abbrev pub AreSent : List Notification → Type 0
AreSent = All (λ n. IsSent n × IsClean n)

lines_of : (ns : List Notification) → AreSent ns → All IsLine (map print ns)
lines_of [] h = tt
lines_of (n ∷ ns) ((sent, clean), h) = (print_line n sent clean, lines_of ns h)

incoming-print :
    (ns : List Notification) → AreSent ns → map incoming (map ok (map print ns)) ≡ map parsed ns
incoming-print [] h = refl
incoming-print (n ∷ ns) ((sent, clean), h) =
    let one : incoming_line (parse_line (print n)) ≡ parsed n =
      rw (parse_line-print_bare n sent clean) in
    cc (incoming-print ns h)

-- However the bytes of printed notifications are cut into reads, if they fit in the line buffer, then
-- the driver is handed those notifications, in order and none besides.
pub incoming-push_all :
    (ns : List Notification) (runs : List Bytes)
    → AreSent ns
    → joined_runs runs ≡ wire (map print ns)
    → length (wire (map print ns)) ≤ max_line_bytes
    → map incoming (pop_all (suc (length (map print ns))) (push_all clear runs).0) ≡ map parsed ns
incoming-push_all ns runs h e fits =
    ap (map incoming) (pop_all-push_all (map print ns) runs (lines_of ns h) e fits).1
    ∙ incoming-print ns h
