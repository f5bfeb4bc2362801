-- ===== src/Protocol/Control.antt =====
-- src/protocol/request.rs: the encoding of control requests and messages, with their checks.
use lightstreamer_rs.Base.{
  ℕ, Bool, true, false, not, ◌&&◌, ◌||◌, Option, none, some, Result, ok, ◌>>=◌, codes,
}
use lightstreamer_rs.Text.{Text}
use lightstreamer_rs.Text.Numbers.{signed_decimal}
use lightstreamer_rs.Protocol.Errors.{
  ProtocolError, RequestReason, snapshot_length_mode, snapshot_of_raw, frequency_of_raw,
  buffer_size_mode, buffer_size_unfiltered, msg_prog_mandatory, max_wait_without_sequence,
}
use lightstreamer_rs.Protocol.Parameters.{
  ParameterLine, verbatim, text, number, if_some, text?, boolean?, number?, word?,
}
use lightstreamer_rs.Protocol.Requests.{
  TransportKind, invalid, control_name, message_name, RequestId, SequenceName, CauseMessage,
  DestroyCause, SubscriptionMode, raw, merge, distinct, command, mode_text, is_filtered, add,
  delete, reconf, constrain, force_rebind, destroy, RequestedMaxFrequency, unfiltered,
  requested_frequency_text, Limit, limit_text, RequestedBufferSize, buffer_size_text, Snapshot, on,
  of_length, snapshot_text,
}
use lightstreamer_rs.Protocol.Request.{Encoded, encode_session, encode_control_header, encode_ack}

abbrev pub refuse_if : Bool → Text → RequestReason → Result ProtocolError (Unit {0})
refuse_if true name reason = invalid name reason
refuse_if false name reason = ok tt

pub record Subscribe : Type 0 where
  pub session : Option Text
  pub request_id : RequestId
  pub subscription_id : ℕ
  pub group : Text
  pub schema : Text
  pub mode : SubscriptionMode
  pub data_adapter : Option Text
  pub selector : Option Text
  pub requested_buffer_size : Option RequestedBufferSize
  pub requested_max_frequency : Option RequestedMaxFrequency
  pub snapshot : Option Snapshot
  pub ack : Option Bool

abbrev pub is_distinct : SubscriptionMode → Bool
is_distinct distinct = true
is_distinct raw = false
is_distinct merge = false
is_distinct command = false

abbrev pub is_buffered : SubscriptionMode → Bool
is_buffered merge = true
is_buffered distinct = true
is_buffered raw = false
is_buffered command = false

abbrev pub asks_length : Option Snapshot → Bool
asks_length (some (of_length n)) = true
asks_length other = false

abbrev pub asks_on : Option Snapshot → Bool
asks_on (some on) = true
asks_on other = false

abbrev pub asks_unfiltered : Option RequestedMaxFrequency → Bool
asks_unfiltered (some unfiltered) = true
asks_unfiltered other = false

-- `Some(Unfiltered | Limited(_))`.
abbrev pub asks_frequency : Option RequestedMaxFrequency → Bool
asks_frequency (some unfiltered) = true
asks_frequency (some (RequestedMaxFrequency.limited n)) = true
asks_frequency other = false

abbrev pub is_some : {A : Type 0} → Option A → Bool
is_some none = false
is_some (some a) = true

-- `Subscribe::validate`.
unfoldable pub validate_subscribe : Subscribe → Result ProtocolError (Unit {0})
validate_subscribe r = do
  _ ←
      refuse_if (asks_length r.snapshot && not (is_distinct r.mode)) control_name
        (snapshot_length_mode (mode_text r.mode))
  _ ← refuse_if (asks_on r.snapshot && not (is_filtered r.mode)) control_name snapshot_of_raw
  _ ←
      refuse_if (asks_frequency r.requested_max_frequency && not (is_filtered r.mode)) control_name
        frequency_of_raw
  let buffered = is_some r.requested_buffer_size
  _ ←
      refuse_if (buffered && not (is_buffered r.mode)) control_name
        (buffer_size_mode (mode_text r.mode))
  refuse_if (buffered && asks_unfiltered r.requested_max_frequency) control_name
      buffer_size_unfiltered

unfoldable pub encode_subscribe : Subscribe → TransportKind → Encoded
unfolding validate_subscribe encode_control_header encode_ack
encode_subscribe r transport = do
  _ ← validate_subscribe r
  line ← encode_control_header r.session r.request_id add transport
  let line₁ = number line (codes "LS_subId") r.subscription_id
  let line₂ = text line₁ (codes "LS_group") r.group
  let line₃ = text line₂ (codes "LS_schema") r.schema
  let line₄ = text? line₃ (codes "LS_data_adapter") r.data_adapter
  let line₅ = verbatim line₄ (codes "LS_mode") (mode_text r.mode)
  let line₆ = text? line₅ (codes "LS_selector") r.selector
  let size = r.requested_buffer_size
  let line₇ = word? buffer_size_text line₆ (codes "LS_requested_buffer_size") size
  let frequency = r.requested_max_frequency
  let line₈ = word? requested_frequency_text line₇ (codes "LS_requested_max_frequency") frequency
  let line₉ = word? snapshot_text line₈ (codes "LS_snapshot") r.snapshot
  ok (encode_ack line₉ r.ack transport)

pub record Unsubscribe : Type 0 where
  pub session : Option Text
  pub request_id : RequestId
  pub subscription_id : ℕ
  pub ack : Option Bool

unfoldable pub encode_unsubscribe : Unsubscribe → TransportKind → Encoded
unfolding encode_control_header encode_ack
encode_unsubscribe r transport = do
  line ← encode_control_header r.session r.request_id delete transport
  ok (encode_ack (number line (codes "LS_subId") r.subscription_id) r.ack transport)

pub record ReconfigureSubscription : Type 0 where
  pub session : Option Text
  pub request_id : RequestId
  pub subscription_id : ℕ
  pub requested_max_frequency : Option Limit

unfoldable pub encode_reconfigure : ReconfigureSubscription → TransportKind → Encoded
unfolding encode_control_header
encode_reconfigure r transport = do
  line ← encode_control_header r.session r.request_id reconf transport
  let line₁ = number line (codes "LS_subId") r.subscription_id
  ok (word? limit_text line₁ (codes "LS_requested_max_frequency") r.requested_max_frequency)

pub record ConstrainSession : Type 0 where
  pub session : Option Text
  pub request_id : RequestId
  pub requested_max_bandwidth : Option Limit

unfoldable pub encode_constrain : ConstrainSession → TransportKind → Encoded
unfolding encode_control_header
encode_constrain r transport = do
  line ← encode_control_header r.session r.request_id constrain transport
  ok (word? limit_text line (codes "LS_requested_max_bandwidth") r.requested_max_bandwidth)

pub record ForceRebind : Type 0 where
  pub session : Option Text
  pub request_id : RequestId
  pub polling_millis : Option ℕ
  pub close_socket : Option Bool

unfoldable pub encode_force_rebind : ForceRebind → TransportKind → Encoded
unfolding encode_control_header
encode_force_rebind r transport = do
  line ← encode_control_header r.session r.request_id force_rebind transport
  let line₁ = number? line (codes "LS_polling_millis") r.polling_millis
  ok (boolean? line₁ (codes "LS_close_socket") r.close_socket)

pub record DestroySession : Type 0 where
  pub session : Option Text
  pub request_id : RequestId
  pub cause : Option DestroyCause
  pub close_socket : Option Bool

abbrev pub encode_cause : ParameterLine → DestroyCause → ParameterLine
encode_cause line cause =
    let line₁ = verbatim line (codes "LS_cause_code") (signed_decimal cause.code.code) in
    if_some (λ l (m : CauseMessage). text l (codes "LS_cause_message") m.text) line₁ cause.message

unfoldable pub encode_destroy : DestroySession → TransportKind → Encoded
unfolding encode_control_header
encode_destroy r transport = do
  line ← encode_control_header r.session r.request_id destroy transport
  ok (boolean? (if_some encode_cause line r.cause) (codes "LS_close_socket") r.close_socket)

pub record MessageSend : Type 0 where
  pub session : Option Text
  pub request_id : RequestId
  pub message : Text
  pub sequence : Option SequenceName
  pub msg_prog : Option ℕ
  pub max_wait_millis : Option ℕ
  pub ack : Option Bool
  pub outcome : Option Bool

-- `self.outcome != Some(false)`.
abbrev pub outcome_requested : Option Bool → Bool
outcome_requested (some false) = false
outcome_requested (some true) = true
outcome_requested none = true

-- `MessageSend::validate`.
unfoldable pub validate_message : MessageSend → Result ProtocolError (Unit {0})
validate_message r = do
  let sequenced = is_some r.sequence
  _ ←
      refuse_if (not (is_some r.msg_prog) && (sequenced || outcome_requested r.outcome))
        message_name (msg_prog_mandatory sequenced)
  refuse_if (is_some r.max_wait_millis && not sequenced) message_name max_wait_without_sequence

unfoldable pub encode_message : MessageSend → TransportKind → Encoded
unfolding validate_message encode_ack
encode_message r transport = do
  _ ← validate_message r
  line ← encode_session message_name r.session transport
  let line₁ = verbatim line (codes "LS_reqId") r.request_id.text
  let line₂ = word? (λ (s : SequenceName). s.text) line₁ (codes "LS_sequence") r.sequence
  let line₃ = number? line₂ (codes "LS_msg_prog") r.msg_prog
  let line₄ = number? line₃ (codes "LS_max_wait") r.max_wait_millis
  let line₅ = encode_ack line₄ r.ack transport
  let line₆ = boolean? line₅ (codes "LS_outcome") r.outcome
  ok (text line₆ (codes "LS_message") r.message)
