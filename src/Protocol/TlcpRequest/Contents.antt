-- ===== src/Protocol/TlcpRequest/Contents.antt =====
-- What each request tells the server, written down apart from its encoding: the parameters by name,
-- with the values that the server reads, and when a request is refused.
use lightstreamer_rs.Base.{
  ℕ, ◌≡◌, Bool, true, Option, none, some, [], ◌∷◌, ◌++◌, Result, ok, ◌>>=◌, codes,
}
use lightstreamer_rs.Text.{Text, IsText}
use lightstreamer_rs.Text.Numbers.{decimal, signed_decimal}
use lightstreamer_rs.Protocol.Errors.{ProtocolError, session_required}
use lightstreamer_rs.Protocol.Diff.{JsonPatch}
use lightstreamer_rs.Protocol.Arguments.{is_decimal_number}
use lightstreamer_rs.Protocol.Parameters.{bool_text}
use lightstreamer_rs.Protocol.Requests.{
  TransportKind, http, http_batched, web_socket, invalid, control_name, message_name, RequestId,
  all_alphanumeric, DecimalNumber, all_word, DestroyCause, mode_text, RequestedMaxFrequency,
  requested_frequency_text, Limit, limit_text, buffer_size_text, snapshot_text, ttl_text,
  ConnectionMode, streaming, polling,
}
use lightstreamer_rs.Protocol.Control.{validate_subscribe, validate_message}
use lightstreamer_rs.Protocol.Request.Form.{Pairs}
use lightstreamer_rs.Protocol.Request.Reads.{optional, OnSome}
use lightstreamer_rs.Protocol.TlcpRequest.{
  TlcpRequest, create_session, bind_session, subscribe, unsubscribe, reconfigure_subscription,
  constrain_session, force_rebind, destroy_session, message_send, heartbeat,
}

abbrev pub one : Text → Text → Pairs
one name value = (name, value) ∷ []

abbrev pub text_of : Text → Option Text → Pairs
text_of name = optional (λ t. one name t)

abbrev pub number_of : Text → Option ℕ → Pairs
number_of name = optional (λ n. one name (decimal n))

abbrev pub boolean_of : Text → Option Bool → Pairs
boolean_of name = optional (λ b. one name (bool_text b))

abbrev pub word_of : {A : Type 0} → (A → Text) → Text → Option A → Pairs
word_of spell name = optional (λ a. one name (spell a))

-- `LS_ack` is for WebSockets.
abbrev pub ack_of : TransportKind → Option Bool → Pairs
ack_of http ack = []
ack_of http_batched ack = []
ack_of web_socket ack = boolean_of (codes "LS_ack") ack

abbrev pub diffs_of : JsonPatch → Text
diffs_of none = codes "T"
diffs_of (some apply) = codes "T,P"

abbrev pub connection_parameters : ConnectionMode → Pairs
connection_parameters (streaming inactivity keepalive send_sync) =
    number_of (codes "LS_inactivity_millis") inactivity
    ++ number_of (codes "LS_keepalive_millis") keepalive
    ++ boolean_of (codes "LS_send_sync") send_sync
connection_parameters (polling every idle) =
    one (codes "LS_polling") (codes "true")
    ++ one (codes "LS_polling_millis") (decimal every)
    ++ number_of (codes "LS_idle_millis") idle

abbrev pub control_parameters : Option Text → RequestId → Text → Pairs
control_parameters session request_id operation =
    text_of (codes "LS_session") session
    ++ one (codes "LS_reqId") request_id.text
    ++ one (codes "LS_op") operation

abbrev pub cause_parameters : DestroyCause → Pairs
cause_parameters cause =
    one (codes "LS_cause_code") (signed_decimal cause.code.code)
    ++ optional (λ m. one (codes "LS_cause_message") m.text) cause.message

abbrev pub parameters : JsonPatch → TlcpRequest → TransportKind → Pairs
parameters json (create_session r) transport =
    text_of (codes "LS_user") r.user
    ++ text_of (codes "LS_password") r.password
    ++ text_of (codes "LS_adapter_set") r.adapter_set
    ++ one (codes "LS_cid") (codes "mgQkwtwdysogQz2BJ4Ji kOj2Bg")
    ++ word_of (λ n. n.text) (codes "LS_requested_max_bandwidth") r.requested_max_bandwidth
    ++ number_of (codes "LS_content_length") r.content_length
    ++ one (codes "LS_supported_diffs") (diffs_of json)
    ++ connection_parameters r.connection
    ++ boolean_of (codes "LS_reduce_head") r.reduce_head
    ++ word_of ttl_text (codes "LS_ttl_millis") r.ttl
parameters json (bind_session r) transport =
    text_of (codes "LS_session") r.session
    ++ number_of (codes "LS_recovery_from") r.recovery_from
    ++ number_of (codes "LS_content_length") r.content_length
    ++ connection_parameters r.connection
    ++ boolean_of (codes "LS_reduce_head") r.reduce_head
parameters json (subscribe r) transport =
    control_parameters r.session r.request_id (codes "add")
    ++ one (codes "LS_subId") (decimal r.subscription_id)
    ++ one (codes "LS_group") r.group
    ++ one (codes "LS_schema") r.schema
    ++ text_of (codes "LS_data_adapter") r.data_adapter
    ++ one (codes "LS_mode") (mode_text r.mode)
    ++ text_of (codes "LS_selector") r.selector
    ++ word_of buffer_size_text (codes "LS_requested_buffer_size") r.requested_buffer_size
    ++ word_of requested_frequency_text (codes "LS_requested_max_frequency")
        r.requested_max_frequency
    ++ word_of snapshot_text (codes "LS_snapshot") r.snapshot
    ++ ack_of transport r.ack
parameters json (unsubscribe r) transport =
    control_parameters r.session r.request_id (codes "delete")
    ++ one (codes "LS_subId") (decimal r.subscription_id)
    ++ ack_of transport r.ack
parameters json (reconfigure_subscription r) transport =
    control_parameters r.session r.request_id (codes "reconf")
    ++ one (codes "LS_subId") (decimal r.subscription_id)
    ++ word_of limit_text (codes "LS_requested_max_frequency") r.requested_max_frequency
parameters json (constrain_session r) transport =
    control_parameters r.session r.request_id (codes "constrain")
    ++ word_of limit_text (codes "LS_requested_max_bandwidth") r.requested_max_bandwidth
parameters json (force_rebind r) transport =
    control_parameters r.session r.request_id (codes "force_rebind")
    ++ number_of (codes "LS_polling_millis") r.polling_millis
    ++ boolean_of (codes "LS_close_socket") r.close_socket
parameters json (destroy_session r) transport =
    control_parameters r.session r.request_id (codes "destroy")
    ++ optional cause_parameters r.cause
    ++ boolean_of (codes "LS_close_socket") r.close_socket
parameters json (message_send r) transport =
    text_of (codes "LS_session") r.session
    ++ one (codes "LS_reqId") r.request_id.text
    ++ word_of (λ s. s.text) (codes "LS_sequence") r.sequence
    ++ number_of (codes "LS_msg_prog") r.msg_prog
    ++ number_of (codes "LS_max_wait") r.max_wait_millis
    ++ ack_of transport r.ack
    ++ boolean_of (codes "LS_outcome") r.outcome
    ++ one (codes "LS_message") r.message
parameters json (heartbeat r) transport = text_of (codes "LS_session") r.session

-- Which requests must name their session.
abbrev pub require_session : Text → Option Text → TransportKind → Result ProtocolError (Unit {0})
require_session name none http = invalid name session_required
require_session name session transport = ok tt

-- A bind names it on every transport but a WebSocket.
abbrev pub require_bound : Option Text → TransportKind → Result ProtocolError (Unit {0})
require_bound (some session) transport = ok tt
require_bound none web_socket = ok tt
require_bound none transport = invalid (codes "bind_session") session_required

abbrev pub check : TlcpRequest → TransportKind → Result ProtocolError (Unit {0})
check (create_session r) transport = ok tt
check (bind_session r) transport = require_bound r.session transport
check (subscribe r) transport =
    validate_subscribe r >>= λ _. require_session control_name r.session transport
check (unsubscribe r) transport = require_session control_name r.session transport
check (reconfigure_subscription r) transport = require_session control_name r.session transport
check (constrain_session r) transport = require_session control_name r.session transport
check (force_rebind r) transport = require_session control_name r.session transport
check (destroy_session r) transport = require_session control_name r.session transport
check (message_send r) transport =
    validate_message r >>= λ _. require_session message_name r.session transport
check (heartbeat r) transport = require_session (codes "heartbeat") r.session transport

abbrev pub IsRequestId : RequestId → Type 0
IsRequestId id = all_alphanumeric id.text ≡ true

abbrev pub IsDecimalNumber : DecimalNumber → Type 0
IsDecimalNumber n = is_decimal_number n.text ≡ true

abbrev pub IsRequestedMaxFrequency : RequestedMaxFrequency → Type 0
IsRequestedMaxFrequency (RequestedMaxFrequency.limited n) = IsDecimalNumber n
IsRequestedMaxFrequency other = Unit

abbrev pub IsLimit : Limit → Type 0
IsLimit (Limit.limited n) = IsDecimalNumber n
IsLimit Limit.unlimited = Unit

abbrev pub IsControl : Option Text → RequestId → Type 0
IsControl session id = OnSome IsText session × IsRequestId id

-- A request whose strings are texts of Rust, and whose values come from their constructors.
abbrev pub IsProper : TlcpRequest → Type 0
IsProper (create_session r) =
    OnSome IsText r.user
    × OnSome IsText r.password
    × OnSome IsText r.adapter_set
    × OnSome IsDecimalNumber r.requested_max_bandwidth
IsProper (bind_session r) = OnSome IsText r.session
IsProper (subscribe r) =
    IsControl r.session r.request_id
    × IsText r.group
    × IsText r.schema
    × OnSome IsText r.data_adapter
    × OnSome IsText r.selector
    × OnSome IsRequestedMaxFrequency r.requested_max_frequency
IsProper (unsubscribe r) = IsControl r.session r.request_id
IsProper (reconfigure_subscription r) =
    IsControl r.session r.request_id × OnSome IsLimit r.requested_max_frequency
IsProper (constrain_session r) =
    IsControl r.session r.request_id × OnSome IsLimit r.requested_max_bandwidth
IsProper (force_rebind r) = IsControl r.session r.request_id
IsProper (destroy_session r) =
    IsControl r.session r.request_id × OnSome (λ c. OnSome (λ m. IsText m.text) c.message) r.cause
IsProper (message_send r) =
    IsControl r.session r.request_id
    × IsText r.message
    × OnSome (λ s. all_word s.text ≡ true) r.sequence
IsProper (heartbeat r) = OnSome IsText r.session
