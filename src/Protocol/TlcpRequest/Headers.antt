-- ===== src/Protocol/TlcpRequest/Headers.antt =====
-- How a request begins: its session, and the header of a control request.
use lightstreamer_rs.Base.{
  ◌≡◌, refl, ap, arith, Option, none, some, [], Result, ok, err, ◌>>=◌, map_ok, codes,
}
use lightstreamer_rs.Text.{Text}
use lightstreamer_rs.Protocol.Errors.{ProtocolError}
use lightstreamer_rs.Protocol.Parameters.{ParameterLine, verbatim, text, text?}
use lightstreamer_rs.Protocol.Requests.{
  TransportKind, http, http_batched, web_socket, control_name, RequestId, ControlOperation,
  operation_text,
}
use lightstreamer_rs.Protocol.Request.{Encoded, encode_session, encode_control_header}
use lightstreamer_rs.Protocol.Request.Form.{Pairs, read_form}
use lightstreamer_rs.Protocol.Request.Reads.{Writes, ◌then◌, Writes-text?, Writes-word}
use lightstreamer_rs.Protocol.TlcpRequest.Contents.{
  control_parameters, require_session, require_bound, IsControl,
}
use lightstreamer_rs.Protocol.Request.{bind_session_id}
use lightstreamer_rs.Protocol.TlcpRequest.Words.{all_alphanumeric-IsBare, operation_text-IsBare}

-- What a line that was empty holds once parameters are written on it.
pub read_written :
    (write : ParameterLine → ParameterLine) (pairs : Pairs)
    → Writes write pairs
    → read_form (write []) ≡ some pairs
read_written write pairs w = w.reads [] [] (unfold read_form in refl)

-- The session, if any, the identifier and the operation.
abbrev pub control_header :
    ParameterLine → Option Text → RequestId → ControlOperation → ParameterLine
control_header line session id operation =
    let line₁ = verbatim (text? line (codes "LS_session") session) (codes "LS_reqId") id.text in
    verbatim line₁ (codes "LS_op") (operation_text operation)

pub ok_read :
    (write : ParameterLine → ParameterLine) (pairs : Pairs)
    → Writes write pairs
    → (let written : Encoded = ok (write []) in map_ok read_form written ≡ ok (some pairs))
ok_read write pairs w = ap (λ p. ok p) (read_written write pairs w)

-- A request that begins with its session.
pub read-encode_session :
    (name : Text) (session : Option Text) (t : TransportKind)
    (write : ParameterLine → ParameterLine) (pairs : Pairs)
    → Writes (λ line. write (text? line (codes "LS_session") session)) pairs
    → map_ok read_form (encode_session name session t >>= λ line. ok (write line))
      ≡ (require_session name session t >>= λ _. ok (some pairs))
read-encode_session name none http write pairs w = refl
read-encode_session name none http_batched write pairs w = ok_read write pairs w
read-encode_session name none web_socket write pairs w = ok_read write pairs w
read-encode_session name (some session) t write pairs w =
    ok_read (λ line. write (text line (codes "LS_session") session)) pairs w

pub read-encode_control_header :
    (session : Option Text) (id : RequestId) (operation : ControlOperation) (t : TransportKind)
    (write : ParameterLine → ParameterLine) (pairs : Pairs)
    → Writes (λ line. write (control_header line session id operation)) pairs
    → map_ok read_form (encode_control_header session id operation t >>= λ line. ok (write line))
      ≡ (require_session control_name session t >>= λ _. ok (some pairs))
unfolding encode_control_header
read-encode_control_header none id operation http write pairs w = refl
read-encode_control_header none id operation http_batched write pairs w =
    ok_read (λ line. write (control_header line none id operation)) pairs w
read-encode_control_header none id operation web_socket write pairs w =
    ok_read (λ line. write (control_header line none id operation)) pairs w
read-encode_control_header (some session) id operation t write pairs w =
    ok_read (λ line. write (control_header line (some session) id operation)) pairs w

pub read-bind_session_id :
    (session : Option Text) (t : TransportKind) (write : ParameterLine → ParameterLine)
    (pairs : Pairs)
    → Writes (λ line. write (text? line (codes "LS_session") session)) pairs
    → map_ok read_form (bind_session_id session t >>= λ line. ok (write line))
      ≡ (require_bound session t >>= λ _. ok (some pairs))
read-bind_session_id none http write pairs w = refl
read-bind_session_id none http_batched write pairs w = refl
read-bind_session_id none web_socket write pairs w = ok_read write pairs w
read-bind_session_id (some session) t write pairs w =
    ok_read (λ line. write (text line (codes "LS_session") session)) pairs w

pub Writes-control :
    (session : Option Text) (id : RequestId) (operation : ControlOperation)
    → IsControl session id
    → Writes
        (λ line. control_header line session id operation)
        (control_parameters session id (operation_text operation))
Writes-control session id operation (hs, hid) =
    Writes-text? (codes "LS_session") session (omega arith) hs
    then Writes-word (codes "LS_reqId") id.text (omega arith) (all_alphanumeric-IsBare id.text hid)
    then Writes-word (codes "LS_op") (operation_text operation) (omega arith)
        (operation_text-IsBare operation)

pub read_after :
    (checked session : Result ProtocolError (Unit {0})) (e : Encoded) (pairs : Pairs)
    → map_ok read_form e ≡ (session >>= λ _. ok (some pairs))
    → map_ok read_form (checked >>= λ _. e) ≡ ((checked >>= λ _. session) >>= λ _. ok (some pairs))
read_after (ok u) session e pairs h = h
read_after (err x) session e pairs h = refl
