-- ===== src/Session/Driver.antt =====
-- src/session/mod.rs: the decisions of the driver of a session. A handler takes the driver and returns
-- it with the events that it emits; the sockets and the channels are left out.
pub mod Dispatch
pub mod Issue
pub mod Binding
pub mod Answers
pub mod Commands
pub mod Turns
pub mod Opening
pub mod Drive
pub mod Sound
pub mod Messages
pub mod Late
pub mod Restore
pub mod Continuity
pub mod Plans
pub mod Links
pub mod Examples
use lightstreamer_rs.Base.{
  ℕ, zero, suc, ◌+◌, ◌-◌, min, Bool, true, false, Option, none, some, List, [], ◌∷◌, ◌++◌, Result,
  ok, err, ltb, leb, if◌then◌else◌, checked_add, usize_mod, u32_mod,
}
use lightstreamer_rs.Text.{Text}
use lightstreamer_rs.Text.Numbers.{ℤ}
use lightstreamer_rs.Protocol.Diff.{JsonPatch}
use lightstreamer_rs.Protocol.Request.{CreateSession, BindSession}
use lightstreamer_rs.Protocol.TlcpRequest.{TlcpRequest}
use lightstreamer_rs.Protocol.Notifications.{
  Notification, update, subscription_ok, subscription_command_ok, unsubscribed, end_of_snapshot,
  clear_snapshot, overflow, subscription_reconfigured, message_done, message_failed,
}
use lightstreamer_rs.Session.Time.{Duration}
use lightstreamer_rs.Session.Backoff.{BackoffPolicy, Backoff, next_delay, reset, is_spent}
use lightstreamer_rs.Session.Outcomes.{
  ServerCause, Recovery, recreate_session, retry_later, fatal, classify, UnbindReason,
  forced_by_client, content_length_reached, poll_cycle_expired, looped, connection_failed,
  keepalive_expired, rejected, server_refresh, is_clean_loop, expected_delay, SessionClosed,
  by_client, by_server, RecoveryKind, exact, duplicated, gap, RecoveryOutcome,
}
use lightstreamer_rs.Session.Events.{SessionEvent, recovered, message, MessageResult, done, failed}
use lightstreamer_rs.Session.Options.{SessionOptions}
use lightstreamer_rs.Session.Pending.{Pendings}
use lightstreamer_rs.Session.Liveness.{Liveness}
use lightstreamer_rs.Session.Registry.{
  Registry, RegistryEntry, get, remove, replace, SubscriptionState, active,
}
use lightstreamer_rs.Subscription.Events.{SubscriptionError, SubscriptionEvent}
use lightstreamer_rs.Subscription.Manager.{SubscriptionManager, Handled, handle}

pub data OpenIntent : Type 0 where
  create : OpenIntent
  rebind : OpenIntent
  recover : (requested : ℕ) → OpenIntent

pub record Reopen : Type 0 where
  pub intent : OpenIntent
  pub delay : Duration

pub data Flow : Type 0 where
  continue : Flow
  unbind : UnbindReason → Flow
  closed : SessionClosed → Flow

pub data StreamState : Type 0 where
  establishing : StreamState
  bound : StreamState

pub data StreamOpen : Type 0 where
  create : CreateSession → StreamOpen
  bind : BindSession → StreamOpen

-- What the driver does to its transport: where it sends, the streams that it has asked for, and the
-- control requests that the transport has taken, the last ones first.
pub record Transport : Type 0 where
  pub control_link : Option Text
  pub opens : List StreamOpen
  pub taken : List TlcpRequest

-- The fields of `SessionDriver`, but for its channels. The properties of its transport stand here
-- one by one, and so does the policy of its options.
pub record SessionDriver : Type 0 where
  pub transport : Transport
  pub is_polling : Bool
  pub ends_on_content_length : Bool
  pub control_shares_stream : Bool
  pub options : SessionOptions
  pub stream_state : StreamState
  pub policy : BackoffPolicy
  pub intent : OpenIntent
  pub session : Option Text
  pub previous_session : Option Text
  pub progressive : ℕ
  pub skip_remaining : ℕ
  pub prog_honoured : Bool
  pub registry : Registry
  pub pending : Pendings
  pub generation : ℕ
  pub next_request_id : ℕ
  pub force_rebind_outstanding : Bool
  pub destroy_requested : Bool
  pub refresh_streak : ℕ
  pub heartbeat_failures : ℕ
  pub negotiated_keep_alive : Option Duration
  pub liveness : Liveness
  pub backoff : Backoff

-- What `plan_after` does with the next delay of the schedule.
abbrev pub delayed :
    SessionDriver → OpenIntent → Backoff × Option Duration → SessionDriver × Option Reopen
delayed d intent (backoff, none) = (record d { backoff = backoff }, none)
delayed d intent (backoff, some delay) =
    (record d { backoff = backoff }, some (record { intent = intent; delay = delay }))

-- Recovery of the session, if there is one.
abbrev pub recovery_intent : Option Text → ℕ → OpenIntent
recovery_intent none progressive = OpenIntent.create
recovery_intent (some session) progressive = recover progressive

abbrev pub clean_delay : Option Duration → Duration
clean_delay none = 0
clean_delay (some delay) = delay

-- A loop that the server announced.
abbrev pub plan_clean : SessionDriver → UnbindReason → SessionDriver × Option Reopen
plan_clean d reason = (
  record d { backoff = reset d.backoff; refresh_streak = 0 },
  some (record { intent = rebind; delay = clean_delay (expected_delay reason) }),
)

abbrev pub saturating_add_one : ℕ → ℕ
saturating_add_one n = min (n + 1) (u32_mod - 1)

-- A request of the server for a new session, after the streak has been counted.
abbrev pub plan_refresh : SessionDriver → SessionDriver × Option Reopen
plan_refresh d =
    let (d', planned) = delayed d OpenIntent.create (next_delay d.backoff) in
    if leb d.refresh_streak 1
    then (
      record d { backoff = reset d.backoff },
      some (record { intent = OpenIntent.create; delay = 0 }),
    )
    else if is_spent d.policy.max_attempts d.refresh_streak
    then (d, none)
    else (d', planned)

unfoldable pub plan_after : SessionDriver → UnbindReason → SessionDriver × Option Reopen
plan_after d (forced_by_client delay) = plan_clean d (forced_by_client delay)
plan_after d (content_length_reached delay) = plan_clean d (content_length_reached delay)
plan_after d (poll_cycle_expired delay) = plan_clean d (poll_cycle_expired delay)
plan_after d (looped delay) = plan_clean d (looped delay)
plan_after d connection_failed =
    delayed (record d { refresh_streak = 0 }) (recovery_intent d.session d.progressive)
      (next_delay d.backoff)
plan_after d (keepalive_expired budget) =
    delayed (record d { refresh_streak = 0 }) (recovery_intent d.session d.progressive)
      (next_delay d.backoff)
plan_after d (rejected cause) =
    delayed (record d { refresh_streak = 0 }) OpenIntent.create (next_delay d.backoff)
plan_after d (server_refresh cause) =
    plan_refresh (record d { refresh_streak = saturating_add_one d.refresh_streak })

unfoldable pub on_stream_end : SessionDriver → Flow
on_stream_end d =
    if d.destroy_requested
    then closed (by_client false none)
    else if d.is_polling
    then unbind (poll_cycle_expired 0)
    else unbind connection_failed

-- The driver whose session is retired.
abbrev pub retired : SessionDriver → SessionDriver
retired d = record d { previous_session = d.session; session = none }

abbrev pub ended_with : SessionDriver → ServerCause → Recovery → SessionDriver × Flow
ended_with d cause recreate_session = (retired d, unbind (server_refresh cause))
ended_with d cause retry_later = (retired d, unbind (rejected cause))
ended_with d cause fatal = (d, closed (by_server cause))

unfoldable pub on_end : SessionDriver → ServerCause → SessionDriver × Flow
on_end d cause =
    if d.destroy_requested
    then (d, closed (by_client true (some cause)))
    else ended_with d cause (classify cause.code)

abbrev pub refused_with : SessionDriver → ServerCause → Recovery → SessionDriver × Flow
refused_with d cause fatal = (d, closed (by_server cause))
refused_with d cause recreate_session = (retired d, unbind (rejected cause))
refused_with d cause retry_later = (retired d, unbind (rejected cause))

-- The arm of `on_notification` for `CONERR`.
unfoldable pub on_connection_error : SessionDriver → ServerCause → SessionDriver × Flow
on_connection_error d cause = refused_with d cause (classify cause.code)

unfoldable pub loop_reason : SessionDriver → Duration → SessionDriver × UnbindReason
loop_reason d delay =
    if d.force_rebind_outstanding
    then (record d { force_rebind_outstanding = false }, forced_by_client delay)
    else if d.is_polling
    then (d, poll_cycle_expired delay)
    else if d.ends_on_content_length
    then (d, content_length_reached delay)
    else (d, looped delay)

-- What `drive` sets before it opens a stream.
unfoldable pub begin_opening : SessionDriver → OpenIntent → SessionDriver
begin_opening d intent = record d {
  intent = intent;
  stream_state = establishing;
  skip_remaining = 0;
  prog_honoured = false;
}

abbrev pub Emitted : Type 0
Emitted = SessionDriver × List SessionEvent

-- `PROG` in answer to a recovery request.
abbrev pub resumed : SessionDriver → (requested resumed_at : ℕ) → Emitted
resumed d requested resumed_at =
    let outcome : RecoveryKind → SessionEvent =
      λ kind. recovered (record { requested = requested; resumed_at = resumed_at; kind = kind }) in
    if ltb resumed_at requested
    then (
      record d { prog_honoured = true; skip_remaining = requested - resumed_at },
      outcome (duplicated (requested - resumed_at)) ∷ [],
    )
    else if ltb requested resumed_at
    then (
      record d { prog_honoured = true; progressive = resumed_at },
      outcome (gap (resumed_at - requested)) ∷ [],
    )
    else (record d { prog_honoured = true }, outcome exact ∷ [])

abbrev pub on_prog_for : SessionDriver → ℕ → OpenIntent → Emitted
on_prog_for d resumed_at OpenIntent.create = (d, [])
on_prog_for d resumed_at rebind = (d, [])
on_prog_for d resumed_at (recover requested) =
    if d.prog_honoured then (d, []) else resumed d requested resumed_at

unfoldable pub on_prog : SessionDriver → ℕ → Emitted
on_prog d resumed_at = on_prog_for d resumed_at d.intent

-- The `LS_subId` that a notification names.
abbrev pub subscription_id : Notification → Option ℕ
subscription_id (update id item values) = some id
subscription_id (subscription_ok id items fields) = some id
subscription_id (subscription_command_ok id items fields key command) = some id
subscription_id (unsubscribed id) = some id
subscription_id (end_of_snapshot id item) = some id
subscription_id (clear_snapshot id item) = some id
subscription_id (overflow id item count) = some id
subscription_id (subscription_reconfigured id frequency mode) = some id
subscription_id other = none

abbrev pub named_key : Registry → ℕ → Option ℕ → Option (ℕ × ℕ)
named_key r sub_id none = none
named_key r sub_id (some key) = some (sub_id, key)

abbrev pub resolve_id : Registry → Option ℕ → Option (ℕ × ℕ)
resolve_id r none = none
resolve_id r (some sub_id) = named_key r sub_id (get r.by_sub_id sub_id)

unfoldable pub resolve_subscription : Registry → Notification → Option (ℕ × ℕ)
resolve_subscription r notification = resolve_id r (subscription_id notification)

-- The entry after its manager has seen a notification, in the registry.
abbrev pub settled : Registry → (sub_id key : ℕ) → RegistryEntry → Notification → Registry
settled r sub_id key entry (subscription_ok id items fields) = record r {
  entries = replace r.entries key (record entry { state = active; was_active = true });
}
settled r sub_id key entry (subscription_command_ok id items fields k c) = record r {
  entries = replace r.entries key (record entry { state = active; was_active = true });
}
settled r sub_id key entry (unsubscribed id) = record r {
  entries = remove r.entries key;
  by_sub_id = remove r.by_sub_id sub_id;
}
settled r sub_id key entry other = record r { entries = replace r.entries key entry }

abbrev pub reported_as :
    (progressive key : ℕ) → Result SubscriptionError (Option SubscriptionEvent) → List SessionEvent
reported_as progressive key (ok none) = []
reported_as progressive key (ok (some event)) =
    SessionEvent.subscription progressive key (ok event) ∷ []
reported_as progressive key (err error) = SessionEvent.subscription progressive key (err error) ∷ []

-- What a data notification makes of the registry, and the events that it causes.
abbrev pub Delivered : Type 0
Delivered = Registry × List SessionEvent

abbrev pub handled_by :
    Registry → (progressive sub_id key : ℕ) → RegistryEntry → Notification → Handled → Delivered
handled_by r progressive sub_id key entry notification (manager, outcome) = (
  settled r sub_id key (record entry { manager = manager }) notification,
  reported_as progressive key outcome,
)

abbrev pub interpret_entry :
    JsonPatch
    → Registry
    → (progressive sub_id key : ℕ) → Notification
    → Option RegistryEntry
    → Delivered
interpret_entry json r progressive sub_id key notification none = (r, [])
interpret_entry json r progressive sub_id key notification (some entry) =
    handled_by r progressive sub_id key entry notification (handle json entry.manager notification)

abbrev pub interpret_resolved : JsonPatch → Registry → ℕ → Notification → Option (ℕ × ℕ) → Delivered
interpret_resolved json r progressive notification none = (r, [])
interpret_resolved json r progressive notification (some (sub_id, key)) =
    interpret_entry json r progressive sub_id key notification (get r.entries key)

unfoldable pub interpret_for_subscription : JsonPatch → Registry → ℕ → Notification → Delivered
unfolding resolve_subscription
interpret_for_subscription json r progressive notification =
    interpret_resolved json r progressive notification (resolve_subscription r notification)

-- The position of the next data notification; the counter stays at its end.
unfoldable pub counted : ℕ → ℕ
counted progressive = elim (checked_add usize_mod progressive 1) [
  | none ↦ progressive
  | some next ↦ next
]

-- A data notification that is no duplicate, at its position.
unfoldable pub deliver : JsonPatch → Registry → ℕ → Notification → Delivered
deliver json r progressive (message_done sequence prog response) =
    (r, message (some progressive) sequence (some prog) (done response) ∷ [])
deliver json r progressive (message_failed sequence prog code text) = (
  r,
  message (some progressive) sequence (some prog) (failed (record { code = code; message = text }))
      ∷ [],
)
deliver json r progressive other = interpret_for_subscription json r progressive other

abbrev pub delivered_to : SessionDriver → ℕ → Delivered → Emitted
delivered_to d progressive (registry, events) =
    (record d { refresh_streak = 0; progressive = progressive; registry = registry }, events)

abbrev pub on_data_skipping : JsonPatch → SessionDriver → Notification → ℕ → Emitted
on_data_skipping json d notification (suc remaining) =
    (record d { refresh_streak = 0; skip_remaining = remaining }, [])
on_data_skipping json d notification zero =
    let position = counted d.progressive in
    delivered_to d position (deliver json d.registry position notification)

unfoldable pub on_data : JsonPatch → SessionDriver → Notification → Emitted
on_data json d notification = on_data_skipping json d notification d.skip_remaining
