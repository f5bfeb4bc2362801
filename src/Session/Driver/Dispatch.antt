-- ===== src/Session/Driver/Dispatch.antt =====
-- src/session/mod.rs: the numbers of requests and the sending of control requests.
use lightstreamer_rs.Base.{
  ℕ, ◌+◌, ◌-◌, min, Bool, true, false, Option, none, some, List, [], ◌∷◌, leb, if◌then◌else◌,
  Result, ok, err, checked_add, usize_mod, u32_mod,
}
use lightstreamer_rs.Protocol.Errors.{ProtocolError}
use lightstreamer_rs.Protocol.Diff.{JsonPatch}
use lightstreamer_rs.Protocol.Requests.{
  TransportKind, http, web_socket, RequestId, from_progressive,
}
use lightstreamer_rs.Protocol.Parameters.{ParameterLine}
use lightstreamer_rs.Protocol.TlcpRequest.{TlcpRequest, heartbeat, encode_parameters}
use lightstreamer_rs.Session.Time.{Duration}
use lightstreamer_rs.Session.Liveness.{Instant, on_outbound}
use lightstreamer_rs.Session.Outcomes.{connection_failed}
use lightstreamer_rs.Session.Events.{
  SessionEvent, control_response, ControlTarget, not_sent, ids_exhausted, unencodable,
  transport_failed,
}
use lightstreamer_rs.Session.Pending.{PendingKind, target, insert_pending, remove_pending}
use lightstreamer_rs.Session.Driver.{SessionDriver, Flow, continue, unbind}

-- What lies outside of the driver in one turn of its loop: the time, whether the transport takes a
-- request, the application of a JSON Patch, and the addition of a duration to an instant.
pub record Turn : Type 0 where
  pub now : Instant
  pub takes : TlcpRequest → Bool
  pub json : JsonPatch
  pub instant_add : Instant → Duration → Option Instant

-- The driver after a step, the events that it has emitted, and a result.
abbrev pub Stepped : Type 0 → Type 0
Stepped A = SessionDriver × List SessionEvent × A

abbrev pub drawn_as : SessionDriver → Option ℕ → SessionDriver × Option RequestId
drawn_as d none = (d, none)
drawn_as d (some next) =
    (record d { next_request_id = next }, some (from_progressive d.next_request_id))

unfoldable pub next_request_id : SessionDriver → SessionDriver × Option RequestId
next_request_id d = drawn_as d (checked_add usize_mod d.next_request_id 1)

-- `report_id_exhaustion`.
abbrev pub id_exhaustion : ControlTarget → SessionEvent
id_exhaustion to = control_response none to (not_sent ids_exhausted)

abbrev pub control_kind : SessionDriver → TransportKind
control_kind d = if d.control_shares_stream then web_socket else http

-- The transport has taken a request, at an instant.
abbrev pub taken_by : SessionDriver → TlcpRequest → Instant → SessionDriver
taken_by d request now = record d {
  transport = record (d.transport) { taken = request ∷ d.transport.taken };
  liveness = on_outbound d.liveness now;
}

abbrev pub registered : SessionDriver → RequestId → PendingKind → SessionDriver
registered d id kind = record d {
  pending = insert_pending d.pending id.text (record { kind = kind; generation = d.generation });
}

abbrev pub unregistered : SessionDriver → RequestId → SessionDriver
unregistered d id = record d { pending = remove_pending d.pending id.text }

abbrev pub dispatch_encoded :
    Turn
    → TlcpRequest
    → RequestId
    → PendingKind
    → SessionDriver
    → Result ProtocolError ParameterLine
    → Stepped Bool
dispatch_encoded t request id kind d (err error) =
    (d, control_response (some id) (target kind) (not_sent (unencodable error)) ∷ [], false)
dispatch_encoded t request id kind d (ok parameters) =
    let d' = registered d id kind in
    if t.takes request then (taken_by d' request t.now, [], true) else (
      unregistered d' id,
      control_response (some id) (target kind) (not_sent transport_failed) ∷ [],
      false,
    )

unfoldable pub dispatch :
    Turn → TlcpRequest → RequestId → PendingKind → SessionDriver → Stepped Bool
dispatch t request id kind d =
    dispatch_encoded t request id kind d (encode_parameters t.json request (control_kind d))

abbrev pub max_heartbeat_failures : ℕ
max_heartbeat_failures = 3

abbrev pub is_sent : Turn → TlcpRequest → Result ProtocolError ParameterLine → Bool
is_sent t request (ok parameters) = t.takes request
is_sent t request (err error) = false

-- A heartbeat that was not sent counts; the clock of the client moves all the same.
abbrev pub after_heartbeat : SessionDriver → TlcpRequest → Instant → Bool → SessionDriver × Flow
after_heartbeat d request now true =
    (record (taken_by d request now) { heartbeat_failures = 0 }, continue)
after_heartbeat d request now false =
    let failures = min (d.heartbeat_failures + 1) (u32_mod - 1) in
    let d' : SessionDriver = record d { liveness = on_outbound d.liveness now } in
    if leb max_heartbeat_failures failures
    then (record d' { heartbeat_failures = 0 }, unbind connection_failed)
    else (record d' { heartbeat_failures = failures }, continue)

unfoldable pub send_heartbeat : Turn → SessionDriver → SessionDriver × Flow
send_heartbeat t d =
    let request = heartbeat (record { session = d.session }) in
    after_heartbeat d request t.now
      (is_sent t request (encode_parameters t.json request (control_kind d)))
