-- ===== src/Session/Events.antt =====
-- src/session/mod.rs: what a session tells the layer above.
use lightstreamer_rs.Base.{ℕ, Bool, Option, List, Result}
use lightstreamer_rs.Text.{Text}
use lightstreamer_rs.Protocol.Errors.{ProtocolError}
use lightstreamer_rs.Protocol.Notifications.{MessageSequence, Bandwidth}
use lightstreamer_rs.Protocol.Requests.{RequestId}
use lightstreamer_rs.Session.Time.{Duration}
use lightstreamer_rs.Session.Outcomes.{ServerCause, RecoveryOutcome, UnbindReason, SessionClosed}
use lightstreamer_rs.Subscription.Events.{SubscriptionError, SubscriptionEvent}

pub data BindKind : Type 0 where
  created : BindKind
  recreated : (previous : Option Text) → BindKind
  rebound : BindKind
  recovering : (requested_progressive : ℕ) → BindKind

pub record BoundInfo : Type 0 where
  pub session_id : Text
  pub kind : BindKind
  pub keep_alive : Duration
  pub request_limit_bytes : ℕ
  pub control_link : Option Text

pub record ResubscribedEntry : Type 0 where
  pub key : ℕ
  pub subscription_id : ℕ
  pub previously_active : Bool
  pub snapshot_requested : Bool

pub data SubscriptionOperation : Type 0 where
  subscribe : SubscriptionOperation
  unsubscribe : SubscriptionOperation
  reconfigure : SubscriptionOperation

pub data ControlTarget : Type 0 where
  session : ControlTarget
  subscription : (key : ℕ) → SubscriptionOperation → ControlTarget

-- One constructor for each reason that the code gives for a request that was not sent.
pub data NotSentReason : Type 0 where
  session_replaced : NotSentReason
  no_session_bound : NotSentReason
  ids_exhausted : NotSentReason
  unencodable : ProtocolError → NotSentReason
  transport_failed : NotSentReason
  request_not_sent : NotSentReason

pub data ControlOutcome : Type 0 where
  accepted : ControlOutcome
  rejected : ServerCause → ControlOutcome
  not_sent : NotSentReason → ControlOutcome

pub data MessageResult : Type 0 where
  done : (response : Text) → MessageResult
  failed : ServerCause → MessageResult
  refused : ServerCause → MessageResult
  not_sent : NotSentReason → MessageResult

pub data ServerAnnouncement : Type 0 where
  name : Text → ServerAnnouncement
  client_ip : Text → ServerAnnouncement
  clock : (elapsed_seconds : ℕ) → ServerAnnouncement
  bandwidth : Bandwidth → ServerAnnouncement

pub data SessionEvent : Type 0 where
  bound : BoundInfo → SessionEvent
  recovered : RecoveryOutcome → SessionEvent
  resubscribed : List ResubscribedEntry → SessionEvent
  unbound : UnbindReason → (retry_in : Option Duration) → SessionEvent
  message :
      (progressive : Option ℕ) → MessageSequence → (prog : Option ℕ) → MessageResult → SessionEvent
  subscription : (progressive key : ℕ) → Result SubscriptionError SubscriptionEvent → SessionEvent
  control_response : (request_id : Option RequestId) → ControlTarget → ControlOutcome → SessionEvent
  server_info : ServerAnnouncement → SessionEvent
  unparsed : (line : Text) → ProtocolError → SessionEvent
  closed : SessionClosed → SessionEvent
