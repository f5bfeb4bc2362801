-- ===== src/Protocol/Requests.antt =====
-- src/protocol/request.rs: the requests, the values that they hold and the checks that make these.
use lightstreamer_rs.Base.{
  ℕ, suc, Bool, true, false, ◌&&◌, ◌||◌, Option, [], ◌∷◌, ◌==◌, if◌then◌else◌, Result, ok, err,
  codes,
}
use lightstreamer_rs.Text.{Text, same_text, is_ascii_alphanumeric}
use lightstreamer_rs.Text.Numbers.{ℤ, pos, decimal}
use lightstreamer_rs.Protocol.Errors.{
  ProtocolError, request, RequestReason, empty_request_id, request_id_not_alphanumeric, not_decimal,
  empty_sequence, reserved_sequence, sequence_not_word, positive_cause_code,
  multiline_cause_message,
}
use lightstreamer_rs.Protocol.Arguments.{is_decimal_number}

pub data TransportKind : Type 0 where
  http : TransportKind
  http_batched : TransportKind
  web_socket : TransportKind

abbrev pub requires_session : TransportKind → Bool
requires_session http = true
requires_session http_batched = false
requires_session web_socket = false

abbrev pub honors_ack : TransportKind → Bool
honors_ack http = false
honors_ack http_batched = false
honors_ack web_socket = true

-- `invalid`.
abbrev pub invalid {ℓ} : {A : Type ℓ} → Text → RequestReason → Result ProtocolError A
invalid name reason = err (request name reason)

abbrev pub control_name : Text
control_name = codes "control"

abbrev pub message_name : Text
message_name = codes "msg"

pub record RequestId : Type 0 where
  pub text : Text

unfoldable pub all_alphanumeric : Text → Bool
all_alphanumeric [] = true
all_alphanumeric (c ∷ t) = is_ascii_alphanumeric c && all_alphanumeric t

unfoldable pub new_request_id : Text → Result ProtocolError RequestId
new_request_id [] = invalid control_name empty_request_id
new_request_id (c ∷ t) =
    if all_alphanumeric (c ∷ t)
    then ok (record { text = c ∷ t })
    else invalid control_name (request_id_not_alphanumeric (c ∷ t))

abbrev pub from_progressive : ℕ → RequestId
from_progressive n = record { text = decimal n }

pub record DecimalNumber : Type 0 where
  pub text : Text

unfoldable pub new_decimal_number : Text → Result ProtocolError DecimalNumber
new_decimal_number t =
    if is_decimal_number t then ok (record { text = t }) else invalid control_name (not_decimal t)

pub record SequenceName : Type 0 where
  pub text : Text

unfoldable pub all_word : Text → Bool
all_word [] = true
all_word (c ∷ t) = (is_ascii_alphanumeric c || c == b'_') && all_word t

unfoldable pub new_sequence_name : Text → Result ProtocolError SequenceName
new_sequence_name [] = invalid message_name empty_sequence
new_sequence_name (c ∷ t) =
    if same_text (c ∷ t) (codes "UNORDERED_MESSAGES")
    then invalid message_name reserved_sequence
    else if all_word (c ∷ t)
    then ok (record { text = c ∷ t })
    else invalid message_name (sequence_not_word (c ∷ t))

pub record CauseCode : Type 0 where
  pub code : ℤ

unfoldable pub new_cause_code : ℤ → Result ProtocolError CauseCode
new_cause_code (pos (suc n)) = invalid control_name (positive_cause_code (suc n))
new_cause_code code = ok (record { code = code })

pub record CauseMessage : Type 0 where
  pub text : Text

unfoldable pub has_newline : Text → Bool
has_newline [] = false
has_newline (c ∷ t) = (c == b'\r' || c == b'\n') || has_newline t

unfoldable pub new_cause_message : Text → Result ProtocolError CauseMessage
new_cause_message t =
    if has_newline t then invalid control_name multiline_cause_message else ok (record { text = t })

pub record DestroyCause : Type 0 where
  pub code : CauseCode
  pub message : Option CauseMessage

pub data SubscriptionMode : Type 0 where
  raw : SubscriptionMode
  merge : SubscriptionMode
  distinct : SubscriptionMode
  command : SubscriptionMode

abbrev pub mode_text : SubscriptionMode → Text
mode_text raw = codes "RAW"
mode_text merge = codes "MERGE"
mode_text distinct = codes "DISTINCT"
mode_text command = codes "COMMAND"

abbrev pub is_filtered : SubscriptionMode → Bool
is_filtered raw = false
is_filtered merge = true
is_filtered distinct = true
is_filtered command = true

pub data ControlOperation : Type 0 where
  add : ControlOperation
  delete : ControlOperation
  reconf : ControlOperation
  constrain : ControlOperation
  force_rebind : ControlOperation
  destroy : ControlOperation

abbrev pub operation_text : ControlOperation → Text
operation_text add = codes "add"
operation_text delete = codes "delete"
operation_text reconf = codes "reconf"
operation_text constrain = codes "constrain"
operation_text force_rebind = codes "force_rebind"
operation_text destroy = codes "destroy"

pub data RequestedMaxFrequency : Type 0 where
  unlimited : RequestedMaxFrequency
  unfiltered : RequestedMaxFrequency
  limited : DecimalNumber → RequestedMaxFrequency

abbrev pub requested_frequency_text : RequestedMaxFrequency → Text
requested_frequency_text RequestedMaxFrequency.unlimited = codes "unlimited"
requested_frequency_text unfiltered = codes "unfiltered"
requested_frequency_text (RequestedMaxFrequency.limited n) = n.text

-- `MaxFrequencyLimit` and `MaxBandwidth`.
pub data Limit : Type 0 where
  unlimited : Limit
  limited : DecimalNumber → Limit

abbrev pub limit_text : Limit → Text
limit_text Limit.unlimited = codes "unlimited"
limit_text (Limit.limited n) = n.text

-- A number that the source takes as `NonZeroU32` is a number here.
pub data RequestedBufferSize : Type 0 where
  unlimited : RequestedBufferSize
  events : ℕ → RequestedBufferSize

abbrev pub buffer_size_text : RequestedBufferSize → Text
buffer_size_text RequestedBufferSize.unlimited = codes "unlimited"
buffer_size_text (events n) = decimal n

pub data Snapshot : Type 0 where
  off : Snapshot
  on : Snapshot
  of_length : ℕ → Snapshot

abbrev pub snapshot_text : Snapshot → Text
snapshot_text off = codes "false"
snapshot_text on = codes "true"
snapshot_text (of_length n) = decimal n

pub data TimeToLive : Type 0 where
  unknown : TimeToLive
  unlimited : TimeToLive
  millis : ℕ → TimeToLive

abbrev pub ttl_text : TimeToLive → Text
ttl_text unknown = codes "unknown"
ttl_text TimeToLive.unlimited = codes "unlimited"
ttl_text (millis ms) = decimal ms

pub data ConnectionMode : Type 0 where
  streaming :
      (inactivity_millis keepalive_millis : Option ℕ) (send_sync : Option Bool) → ConnectionMode
  polling : (polling_millis : ℕ) (idle_millis : Option ℕ) → ConnectionMode
