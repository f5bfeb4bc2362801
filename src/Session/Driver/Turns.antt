-- ===== src/Session/Driver/Turns.antt =====
-- src/session/mod.rs: the arms of `pump`, each a turn of the driver's loop.
use lightstreamer_rs.Base.{ℕ, false, none, [], ◌∷◌, Result, ok, err}
use lightstreamer_rs.Text.{Text}
use lightstreamer_rs.Protocol.Errors.{ProtocolError}
use lightstreamer_rs.Protocol.Notifications.{Notification}
use lightstreamer_rs.Protocol.Response.{parse_line}
use lightstreamer_rs.Session.Liveness.{LivenessAction, inbound_stalled, due, on_inbound}
use lightstreamer_rs.Session.Outcomes.{by_client, connection_failed, keepalive_expired}
use lightstreamer_rs.Session.Events.{server_info, unparsed, ServerAnnouncement}
use lightstreamer_rs.Session.Options.{from_millis}
use lightstreamer_rs.Session.Driver.{
  SessionDriver, StreamState, Flow, continue, unbind, closed, on_stream_end, on_end,
  on_connection_error, loop_reason, on_prog, on_data,
}
use lightstreamer_rs.Session.Driver.Dispatch.{Turn, send_heartbeat}
use lightstreamer_rs.Session.Driver.Binding.{on_conok}
use lightstreamer_rs.Session.Driver.Answers.{on_request_ok, on_request_error, uncorrelated}
use lightstreamer_rs.Session.Driver.Commands.{Flowing, flow_on, SessionCommand, on_command}

abbrev pub silent : {A : Type 0} → (A → Flow) → SessionDriver × A → Flowing
silent flow (d, a) = (d, [], flow a)

abbrev pub announced : SessionDriver → ServerAnnouncement → Flowing
announced d announcement = (d, server_info announcement ∷ [], continue)

unfoldable pub on_notification : Turn → Notification → SessionDriver → Flowing
on_notification t (Notification.connection_ok session_id limit keep_alive control_link) d =
    flow_on (on_conok t d session_id limit (from_millis keep_alive) control_link)
on_notification t (Notification.connection_error code message) d =
    silent (λ flow. flow) (on_connection_error d (record { code = code; message = message }))
on_notification t (Notification.end code message) d =
    silent (λ flow. flow) (on_end d (record { code = code; message = message }))
on_notification t (Notification.loop delay) d = silent unbind (loop_reason d (from_millis delay))
on_notification t (Notification.progressive position) d = flow_on (on_prog d position)
on_notification t (Notification.request_ok id) d = flow_on (on_request_ok d id)
on_notification t (Notification.request_error id code message) d =
    flow_on (on_request_error d id (record { code = code; message = message }))
on_notification t (Notification.error code message) d =
    (d, uncorrelated (record { code = code; message = message }) ∷ [], continue)
on_notification t Notification.probe d = (d, [], continue)
on_notification t (Notification.no_op preamble) d = (d, [], continue)
on_notification t Notification.ws_ok d = (d, [], continue)
on_notification t (Notification.sync seconds) d = announced d (ServerAnnouncement.clock seconds)
on_notification t (Notification.client_ip address) d =
    announced d (ServerAnnouncement.client_ip address)
on_notification t (Notification.server_name name) d = announced d (ServerAnnouncement.name name)
on_notification t (Notification.constraints_changed bandwidth) d =
    announced d (ServerAnnouncement.bandwidth bandwidth)
on_notification t other d = flow_on (on_data t.json d other)

abbrev pub heard : SessionDriver → Turn → SessionDriver
heard d t = record d { liveness = on_inbound d.liveness t.now }

abbrev pub on_parsed : Turn → Text → SessionDriver → Result ProtocolError Notification → Flowing
on_parsed t line d (ok notification) = on_notification t notification d
on_parsed t line d (err error) = (d, unparsed line error ∷ [], continue)

unfoldable pub on_line : Turn → Text → SessionDriver → Flowing
on_line t line d = on_parsed t line (heard d t) (parse_line line)

abbrev pub timed_out : SessionDriver → ℕ → StreamState → Flow
timed_out d budget StreamState.establishing = unbind connection_failed
timed_out d budget StreamState.bound = unbind (keepalive_expired budget)

abbrev pub on_due : Turn → SessionDriver → LivenessAction → Flowing
on_due t d LivenessAction.idle = (d, [], continue)
on_due t d LivenessAction.send_heartbeat = silent (λ flow. flow) (send_heartbeat t d)
on_due t d (inbound_stalled budget) = (d, [], timed_out d budget d.stream_state)

unfoldable pub on_timer : Turn → SessionDriver → Flowing
on_timer t d = on_due t d (due t.instant_add d.liveness t.now)

-- What wakes the driver. The command channel is closed when every handle is dropped.
pub data Woke : Type 0 where
  line : Text → Woke
  line_failed : Woke
  lines_ended : Woke
  command : SessionCommand → Woke
  commands_closed : Woke
  stop : Woke
  timer : Woke

unfoldable pub on_woke : Turn → Woke → SessionDriver → Flowing
on_woke t (line text) d = on_line t text d
on_woke t line_failed d = (d, [], unbind connection_failed)
on_woke t lines_ended d = (d, [], on_stream_end d)
on_woke t (command c) d = on_command t c d
on_woke t commands_closed d = (d, [], closed (by_client false none))
on_woke t stop d = (d, [], closed (by_client false none))
on_woke t timer d = on_timer t d
