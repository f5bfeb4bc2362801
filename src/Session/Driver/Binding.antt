-- ===== src/Session/Driver/Binding.antt =====
-- src/session/mod.rs: CONOK, by which a stream is bound to a session.
use lightstreamer_rs.Base.{
  ℕ, ◌+◌, ◌-◌, min, Bool, true, false, Option, none, some, List, [], ◌∷◌, ◌++◌, Result, ok, err,
  usize_mod,
}
use lightstreamer_rs.Text.{Text, same_text}
use lightstreamer_rs.Protocol.Errors.{ProtocolError}
use lightstreamer_rs.Protocol.Requests.{RequestId, new_request_id}
use lightstreamer_rs.Session.Time.{Duration}
use lightstreamer_rs.Session.Backoff.{reset}
use lightstreamer_rs.Session.Liveness.{on_bound}
use lightstreamer_rs.Session.Events.{
  SessionEvent, message, control_response, MessageResult, ControlOutcome, session_replaced,
  BindKind, created, recreated, rebound, recovering,
}
use lightstreamer_rs.Session.Pending.{
  PendingKind, send_message, force_rebind, Pendings, target, stale, current,
}
use lightstreamer_rs.Session.Registry.{reset_for_new_session}
use lightstreamer_rs.Session.Driver.{
  SessionDriver, StreamState, OpenIntent, create, rebind, recover,
}
use lightstreamer_rs.Session.Driver.Dispatch.{Turn}
use lightstreamer_rs.Session.Driver.Issue.{issue_unbound_subscriptions}

-- `Result::ok` of a number that came back from the server.
abbrev pub known_id : Result ProtocolError RequestId → Option RequestId
known_id (ok id) = some id
known_id (err error) = none

abbrev pub replaced_message : PendingKind → List SessionEvent
replaced_message (send_message sequence prog) =
    message none sequence prog (MessageResult.not_sent session_replaced) ∷ []
replaced_message other = []

abbrev pub replaced_response : Text → PendingKind → SessionEvent
replaced_response id kind =
    control_response (known_id (new_request_id id)) (target kind)
      (ControlOutcome.not_sent session_replaced)

-- What is said of the requests of a session that was replaced, in the order of the table. The order of a
-- `HashMap` is not specified.
unfoldable pub retired_events : Pendings → List SessionEvent
retired_events [] = []
retired_events ((id, p) ∷ ps) =
    replaced_message p.kind ++ replaced_response id p.kind ∷ retired_events ps

-- Whether a loop is still owed for a request to rebind.
abbrev pub still_owed : PendingKind → Bool → Bool
still_owed force_rebind owed = false
still_owed other owed = owed

unfoldable pub rebind_owed : Pendings → Bool → Bool
rebind_owed [] owed = owed
rebind_owed ((id, p) ∷ ps) owed = rebind_owed ps (still_owed p.kind owed)

unfoldable pub retire_stale_pending : SessionDriver → SessionDriver × List SessionEvent
retire_stale_pending d =
    let retired = stale d.pending d.generation in
    (
      record d {
        pending = current d.pending d.generation;
        force_rebind_outstanding = rebind_owed retired d.force_rebind_outstanding;
      },
      retired_events retired,
    )

-- `Option::or_else`, and the comparison with the session that is bound now.
abbrev pub or_else : Option Text → Option Text → Option Text
or_else (some session) other = some session
or_else none other = other

abbrev pub is_session : Option Text → Text → Bool
is_session none session = false
is_session (some previous) session = same_text previous session

abbrev pub created_after : Option Text → BindKind
created_after none = created
created_after (some previous) = recreated (some previous)

abbrev pub bind_kind : OpenIntent → (same_session : Bool) → (previous : Option Text) → BindKind
bind_kind create same previous = created_after previous
bind_kind rebind true previous = rebound
bind_kind (recover requested) true previous = recovering requested
bind_kind rebind false previous = recreated previous
bind_kind (recover requested) false previous = recreated previous

abbrev pub is_fresh : BindKind → Bool
is_fresh created = true
is_fresh (recreated previous) = true
is_fresh rebound = false
is_fresh (recovering requested) = false

abbrev pub next_generation : ℕ → ℕ
next_generation n = min (n + 1) (usize_mod - 1)

-- A new session starts with its own counts and numbers.
abbrev pub start_session : SessionDriver → Bool → SessionDriver × List SessionEvent
start_session d false = (d, [])
start_session d true = retire_stale_pending (record d {
  progressive = 0;
  skip_remaining = 0;
  registry = reset_for_new_session d.registry;
  generation = next_generation d.generation;
})

-- The driver that has read the answer, before it looks at which session it is.
abbrev pub bound_to : Turn → SessionDriver → Text → Duration → Option Text → SessionDriver
bound_to t d session_id keep_alive control_link = record d {
  stream_state = StreamState.bound;
  liveness = on_bound d.liveness keep_alive t.now;
  negotiated_keep_alive = some keep_alive;
  backoff = reset d.backoff;
  transport = record (d.transport) { control_link = control_link };
  session = some session_id;
  previous_session = none;
}

abbrev pub previous_of : SessionDriver → Option Text
previous_of d = or_else d.session d.previous_session

abbrev pub kind_of : SessionDriver → Text → BindKind
kind_of d session_id = bind_kind d.intent (is_session (previous_of d) session_id) (previous_of d)

unfoldable pub on_conok :
    Turn → SessionDriver → Text → ℕ → Duration → Option Text → SessionDriver × List SessionEvent
on_conok t d session_id request_limit_bytes keep_alive control_link =
    let kind = kind_of d session_id in
    let (d₁, retired) =
      start_session (bound_to t d session_id keep_alive control_link) (is_fresh kind) in
    let (d₂, issued) = issue_unbound_subscriptions t d₁ in
    (
      d₂,
      retired
          ++ SessionEvent.bound (record {
            session_id = session_id;
            kind = kind;
            keep_alive = keep_alive;
            request_limit_bytes = request_limit_bytes;
            control_link = control_link;
          })
            ∷ issued,
    )
