-- ===== src/Session/Driver/Commands.antt =====
-- src/session/mod.rs: the commands of the client.
use lightstreamer_rs.Base.{ℕ, Bool, true, false, Option, none, some, List, [], ◌∷◌, ◌++◌}
use lightstreamer_rs.Text.{Text}
use lightstreamer_rs.Protocol.Notifications.{MessageSequence, unspecified, named}
use lightstreamer_rs.Protocol.Requests.{Limit, RequestId, SequenceName, DestroyCause}
use lightstreamer_rs.Protocol.TlcpRequest.{TlcpRequest}
use lightstreamer_rs.Session.Outcomes.{by_client, internal, no_request_id}
use lightstreamer_rs.Session.Events.{
  SessionEvent, message, MessageResult, NotSentReason, no_session_bound, ids_exhausted,
  request_not_sent, ControlTarget, SubscriptionOperation,
}
use lightstreamer_rs.Session.Pending.{PendingKind}
use lightstreamer_rs.Session.Registry.{
  RegistryEntry, SubscriptionSpec, pending, removing, get, remove, replace, insert, spec_manager,
}
use lightstreamer_rs.Session.Driver.{
  SessionDriver, StreamState, establishing, bound, Flow, continue, closed,
}
use lightstreamer_rs.Session.Driver.Dispatch.{
  Turn, Stepped, next_request_id, id_exhaustion, dispatch,
}
use lightstreamer_rs.Session.Driver.Issue.{issue_subscription}

pub record OutgoingMessage : Type 0 where
  pub text : Text
  pub sequence : Option SequenceName
  pub msg_prog : Option ℕ
  pub max_wait_millis : Option ℕ
  pub outcome : Option Bool

-- The constructors of `OutgoingMessage`.
abbrev pub fire_and_forget : Text → OutgoingMessage
fire_and_forget text = record {
  text = text;
  sequence = none;
  msg_prog = none;
  max_wait_millis = none;
  outcome = some false;
}

abbrev pub numbered : Text → ℕ → OutgoingMessage
numbered text msg_prog = record {
  text = text;
  sequence = none;
  msg_prog = some msg_prog;
  max_wait_millis = none;
  outcome = none;
}

abbrev pub in_sequence : OutgoingMessage → SequenceName → OutgoingMessage
in_sequence m sequence = record m { sequence = some sequence }

-- The sequence of `OutgoingMessage::identity`.
abbrev pub sequence_of : Option SequenceName → MessageSequence
sequence_of none = unspecified
sequence_of (some name) = named name.text

pub data SessionCommand : Type 0 where
  subscribe : (key : ℕ) → SubscriptionSpec → SessionCommand
  unsubscribe : (key : ℕ) → SessionCommand
  reconfigure : (key : ℕ) → Limit → SessionCommand
  send_message : OutgoingMessage → SessionCommand
  force_rebind : (close_socket : Option Bool) → SessionCommand
  destroy : Option DestroyCause → SessionCommand
  shutdown : SessionCommand

abbrev pub Emitted : Type 0
Emitted = SessionDriver × List SessionEvent

abbrev pub without_result : {A : Type 0} → Stepped A → Emitted
without_result (d, events, a) = (d, events)

-- A new entry of the registry.
abbrev pub new_entry : SubscriptionSpec → RegistryEntry
new_entry spec = record {
  spec = spec;
  wire = none;
  state = pending;
  was_active = false;
  manager = spec_manager spec;
}

abbrev pub added : SessionDriver → (key : ℕ) → SubscriptionSpec → SessionDriver
added d key spec = record d {
  registry = record (d.registry) { entries = insert d.registry.entries key (new_entry spec) };
}

abbrev pub issue_if_bound : Turn → (key : ℕ) → SessionDriver → StreamState → Emitted
issue_if_bound t key d bound = without_result (issue_subscription t key d)
issue_if_bound t key d establishing = (d, [])

-- A request about a subscription, with a number if there is one left.
abbrev pub request_about :
    Turn
    → (key : ℕ) → SubscriptionOperation
    → PendingKind
    → (RequestId → TlcpRequest)
    → SessionDriver × Option RequestId
    → Emitted
request_about t key operation kind request (d, none) =
    (d, id_exhaustion (ControlTarget.subscription key operation) ∷ [])
request_about t key operation kind request (d, some id) =
    without_result (dispatch t (request id) id kind d)

abbrev pub unsubscribe_in : Turn → (key sub_id : ℕ) → SessionDriver → Option Text → Emitted
unsubscribe_in t key sub_id d none = (d, [])
unsubscribe_in t key sub_id d (some session) =
    request_about t key SubscriptionOperation.unsubscribe (PendingKind.unsubscribe key)
      (λ id.
        TlcpRequest.unsubscribe (record {
          session = some session;
          request_id = id;
          subscription_id = sub_id;
          ack = none;
        }))
      (next_request_id d)

abbrev pub unsubscribe_wire : Turn → (key : ℕ) → SessionDriver → RegistryEntry → Option ℕ → Emitted
unsubscribe_wire t key d entry none =
    (record d { registry = record (d.registry) { entries = remove d.registry.entries key } }, [])
unsubscribe_wire t key d entry (some sub_id) =
    let d' : SessionDriver = record d {
      registry = record (d.registry) {
        entries = replace d.registry.entries key (record entry { state = removing });
      };
    } in
    unsubscribe_in t key sub_id d' d'.session

abbrev pub unsubscribe_entry : Turn → (key : ℕ) → SessionDriver → Option RegistryEntry → Emitted
unsubscribe_entry t key d none = (d, [])
unsubscribe_entry t key d (some entry) = unsubscribe_wire t key d entry entry.wire

unfoldable pub unsubscribe_key : Turn → (key : ℕ) → SessionDriver → Emitted
unsubscribe_key t key d = unsubscribe_entry t key d (get d.registry.entries key)

abbrev pub wire_of : Option RegistryEntry → Option ℕ
wire_of none = none
wire_of (some entry) = entry.wire

abbrev pub reconfigure_in :
    Turn → (key : ℕ) → Limit → SessionDriver → Option ℕ → Option Text → Emitted
reconfigure_in t key limit d none session = (d, [])
reconfigure_in t key limit d (some sub_id) none = (d, [])
reconfigure_in t key limit d (some sub_id) (some session) =
    request_about t key SubscriptionOperation.reconfigure (PendingKind.reconfigure key limit)
      (λ id. TlcpRequest.reconfigure_subscription (record {
        session = some session;
        request_id = id;
        subscription_id = sub_id;
        requested_max_frequency = some limit;
      }))
      (next_request_id d)

unfoldable pub reconfigure_key : Turn → (key : ℕ) → Limit → SessionDriver → Emitted
reconfigure_key t key limit d =
    reconfigure_in t key limit d (wire_of (get d.registry.entries key)) d.session

-- What is said of a message that was not sent.
abbrev pub unsent : OutgoingMessage → NotSentReason → SessionEvent
unsent m reason = message none (sequence_of m.sequence) m.msg_prog (MessageResult.not_sent reason)

abbrev pub message_request : OutgoingMessage → Text → RequestId → TlcpRequest
message_request m session id = TlcpRequest.message_send (record {
  session = some session;
  request_id = id;
  message = m.text;
  sequence = m.sequence;
  msg_prog = m.msg_prog;
  max_wait_millis = m.max_wait_millis;
  ack = none;
  outcome = m.outcome;
})

abbrev pub message_sent : OutgoingMessage → Stepped Bool → Emitted
message_sent m (d, events, true) = (d, events)
message_sent m (d, events, false) = (d, events ++ unsent m request_not_sent ∷ [])

abbrev pub message_with : Turn → OutgoingMessage → Text → SessionDriver × Option RequestId → Emitted
message_with t m session (d, none) =
    (d, id_exhaustion ControlTarget.session ∷ unsent m ids_exhausted ∷ [])
message_with t m session (d, some id) = message_sent m (
    dispatch t (message_request m session id) id
      (PendingKind.send_message (sequence_of m.sequence) m.msg_prog) d)

abbrev pub message_in : Turn → OutgoingMessage → SessionDriver → StreamState → Option Text → Emitted
message_in t m d establishing session = (d, unsent m no_session_bound ∷ [])
message_in t m d bound none = (d, unsent m no_session_bound ∷ [])
message_in t m d bound (some session) = message_with t m session (next_request_id d)

unfoldable pub submit : Turn → OutgoingMessage → SessionDriver → Emitted
submit t m d = message_in t m d d.stream_state d.session

abbrev pub rebind_with :
    Turn → (close_socket : Option Bool) → Text → SessionDriver × Option RequestId → Emitted
rebind_with t close_socket session (d, none) = (d, id_exhaustion ControlTarget.session ∷ [])
rebind_with t close_socket session (d, some id) = without_result (
    dispatch t
      (TlcpRequest.force_rebind (record {
        session = some session;
        request_id = id;
        polling_millis = none;
        close_socket = close_socket;
      }))
      id PendingKind.force_rebind (record d { force_rebind_outstanding = true }))

abbrev pub rebind_in :
    Turn → (close_socket : Option Bool) → SessionDriver → StreamState → Option Text → Emitted
rebind_in t close_socket d establishing session = (d, [])
rebind_in t close_socket d bound none = (d, [])
rebind_in t close_socket d bound (some session) =
    rebind_with t close_socket session (next_request_id d)

-- The driver, the events, and what becomes of the stream.
abbrev pub Flowing : Type 0
Flowing = SessionDriver × List SessionEvent × Flow

abbrev pub flow_on : Emitted → Flowing
flow_on (d, events) = (d, events, continue)

-- The stream goes on only to wait for the end that a request on it has been promised.
abbrev pub destroy_flow : StreamState → (sent : Bool) → Flow
destroy_flow bound true = continue
destroy_flow bound false = closed (by_client false none)
destroy_flow establishing sent = closed (by_client false none)

abbrev pub destroy_sent : Stepped Bool → Flowing
destroy_sent (d, events, sent) = (d, events, destroy_flow d.stream_state sent)

abbrev pub destroy_with :
    Turn → Option DestroyCause → Text → SessionDriver × Option RequestId → Flowing
destroy_with t cause session (d, none) =
    (d, id_exhaustion ControlTarget.session ∷ [], closed (internal no_request_id))
destroy_with t cause session (d, some id) = destroy_sent (
    dispatch t
      (TlcpRequest.destroy_session
        (record { session = some session; request_id = id; cause = cause; close_socket = none }))
      id PendingKind.destroy (record d { destroy_requested = true }))

abbrev pub destroy_in : Turn → Option DestroyCause → SessionDriver → Option Text → Flowing
destroy_in t cause d none = (d, [], closed (by_client false none))
destroy_in t cause d (some session) = destroy_with t cause session (next_request_id d)

unfoldable pub on_command : Turn → SessionCommand → SessionDriver → Flowing
on_command t (subscribe key spec) d =
    let d' = added d key spec in flow_on (issue_if_bound t key d' d'.stream_state)
on_command t (unsubscribe key) d = flow_on (unsubscribe_key t key d)
on_command t (reconfigure key limit) d = flow_on (reconfigure_key t key limit d)
on_command t (send_message m) d = flow_on (submit t m d)
on_command t (force_rebind close_socket) d =
    flow_on (rebind_in t close_socket d d.stream_state d.session)
on_command t (destroy cause) d = destroy_in t cause d d.session
on_command t shutdown d = (d, [], closed (by_client false none))
