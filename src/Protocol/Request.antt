-- ===== src/Protocol/Request.antt =====
-- src/protocol/request.rs: the encoding of the requests of a session, `TlcpRequest::encode_parameters`,
-- and of batches.
pub mod Form
pub mod Reads
use lightstreamer_rs.Base.{
  ℕ, if◌then◌else◌, Bool, true, false, not, ◌&&◌, ◌||◌, Option, none, some, List, [], ◌∷◌, ◌++◌,
  Result, ok, err, ◌>>=◌, map_ok, codes,
}
use lightstreamer_rs.Text.{Text}
use lightstreamer_rs.Text.Numbers.{ℤ, signed_decimal}
use lightstreamer_rs.Protocol.Errors.{
  ProtocolError, RequestReason, empty_batch, session_required, snapshot_length_mode,
  snapshot_of_raw, frequency_of_raw, buffer_size_mode, buffer_size_unfiltered, msg_prog_mandatory,
  max_wait_without_sequence,
}
use lightstreamer_rs.Protocol.Diff.{JsonPatch, supported_diffs}
use lightstreamer_rs.Protocol.Parameters.{
  ParameterLine, verbatim, text, boolean, number, if_some, text?, boolean?, number?, word?,
}
use lightstreamer_rs.Protocol.Requests.{
  TransportKind, http, http_batched, web_socket, requires_session, honors_ack, invalid,
  control_name, message_name, RequestId, DecimalNumber, SequenceName, CauseCode, CauseMessage,
  DestroyCause, SubscriptionMode, raw, merge, distinct, command, mode_text, is_filtered,
  ControlOperation, add, delete, reconf, constrain, force_rebind, destroy, operation_text,
  RequestedMaxFrequency, unfiltered, requested_frequency_text, Limit, limit_text,
  RequestedBufferSize, buffer_size_text, Snapshot, off, on, of_length, snapshot_text, TimeToLive,
  ttl_text, ConnectionMode, streaming, polling,
}

abbrev pub Encoded : Type 0
Encoded = Result ProtocolError ParameterLine

abbrev pub client_identifier : Text
client_identifier = codes "mgQkwtwdysogQz2BJ4Ji%20kOj2Bg"

-- `ConnectionMode::encode_into`.
unfoldable pub encode_connection : ParameterLine → ConnectionMode → ParameterLine
encode_connection line (streaming inactivity_millis keepalive_millis send_sync) =
    let line₁ = number? line (codes "LS_inactivity_millis") inactivity_millis in
    let line₂ = number? line₁ (codes "LS_keepalive_millis") keepalive_millis in
    boolean? line₂ (codes "LS_send_sync") send_sync
encode_connection line (polling polling_millis idle_millis) =
    let line₁ = boolean line (codes "LS_polling") true in
    let line₂ = number line₁ (codes "LS_polling_millis") polling_millis in
    number? line₂ (codes "LS_idle_millis") idle_millis

pub record CreateSession : Type 0 where
  pub user : Option Text
  pub password : Option Text
  pub adapter_set : Option Text
  pub requested_max_bandwidth : Option DecimalNumber
  pub content_length : Option ℕ
  pub connection : ConnectionMode
  pub reduce_head : Option Bool
  pub ttl : Option TimeToLive

-- The advertisement of diff formats, unless there is none.
abbrev pub encode_diffs : ParameterLine → Text → ParameterLine
encode_diffs line [] = line
encode_diffs line (c ∷ diffs) = verbatim line (codes "LS_supported_diffs") (c ∷ diffs)

unfoldable pub encode_create_session : JsonPatch → CreateSession → ParameterLine
unfolding encode_connection
encode_create_session json r =
    let line₁ = text? [] (codes "LS_user") r.user in
    let line₂ = text? line₁ (codes "LS_password") r.password in
    let line₃ = text? line₂ (codes "LS_adapter_set") r.adapter_set in
    let line₄ = verbatim line₃ (codes "LS_cid") client_identifier in
    let bandwidth = r.requested_max_bandwidth in
    let line₅ =
      word? (λ (n : DecimalNumber). n.text) line₄ (codes "LS_requested_max_bandwidth") bandwidth in
    let line₆ = number? line₅ (codes "LS_content_length") r.content_length in
    let line₇ = encode_diffs line₆ (supported_diffs json) in
    let line₈ = encode_connection line₇ r.connection in
    let line₉ = boolean? line₈ (codes "LS_reduce_head") r.reduce_head in
    word? ttl_text line₉ (codes "LS_ttl_millis") r.ttl

pub record BindSession : Type 0 where
  pub session : Option Text
  pub recovery_from : Option ℕ
  pub content_length : Option ℕ
  pub connection : ConnectionMode
  pub reduce_head : Option Bool

-- The session of a bind: only a WebSocket may leave it out.
abbrev pub bind_session_id : Option Text → TransportKind → Encoded
bind_session_id (some session) transport = ok (text [] (codes "LS_session") session)
bind_session_id none web_socket = ok []
bind_session_id none http = invalid (codes "bind_session") session_required
bind_session_id none http_batched = invalid (codes "bind_session") session_required

unfoldable pub encode_bind_session : BindSession → TransportKind → Encoded
unfolding encode_connection
encode_bind_session r transport = do
  line ← bind_session_id r.session transport
  let line₁ = number? line (codes "LS_recovery_from") r.recovery_from
  let line₂ = number? line₁ (codes "LS_content_length") r.content_length
  let line₃ = encode_connection line₂ r.connection
  ok (boolean? line₃ (codes "LS_reduce_head") r.reduce_head)

-- The session of any other request: it is required where the transport is not batched.
abbrev pub encode_session : Text → Option Text → TransportKind → Encoded
encode_session name (some session) transport = ok (text [] (codes "LS_session") session)
encode_session name none transport =
    if requires_session transport then invalid name session_required else ok []

unfoldable pub encode_control_header :
    Option Text → RequestId → ControlOperation → TransportKind → Encoded
encode_control_header session request_id operation transport = do
  line ← encode_session control_name session transport
  let line₁ = verbatim line (codes "LS_reqId") request_id.text
  ok (verbatim line₁ (codes "LS_op") (operation_text operation))

unfoldable pub encode_ack : ParameterLine → Option Bool → TransportKind → ParameterLine
encode_ack line ack transport =
    if honors_ack transport then boolean? line (codes "LS_ack") ack else line

pub record Heartbeat : Type 0 where
  pub session : Option Text

unfoldable pub encode_heartbeat : Heartbeat → TransportKind → Encoded
encode_heartbeat r transport = encode_session (codes "heartbeat") r.session transport

-- `[String]::join(CRLF)`.
unfoldable pub join_lines : List Text → Text
join_lines [] = []
join_lines (line ∷ []) = line
join_lines (line ∷ next ∷ lines) = line ++ (b'\r' ∷ b'\n' ∷ join_lines (next ∷ lines))

unfoldable pub encode_http_batch : Text → List Text → Result ProtocolError Text
unfolding join_lines
encode_http_batch name [] = invalid name empty_batch
encode_http_batch name (line ∷ lines) = ok (join_lines (line ∷ lines))

unfoldable pub encode_ws_batch : Text → List Text → Result ProtocolError Text
unfolding encode_http_batch
encode_ws_batch name lines =
    map_ok (λ body. name ++ (b'\r' ∷ b'\n' ∷ body)) (encode_http_batch name lines)
