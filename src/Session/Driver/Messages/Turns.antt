-- ===== src/Session/Driver/Messages/Turns.antt =====
-- Where the messages are after a turn of the loop.
use lightstreamer_rs.Base.{Option, ℕ, ◌≡◌, ap, arith, Bool, true, false, [], Result, ok, err}
use lightstreamer_rs.Text.{Text}
use lightstreamer_rs.Protocol.Errors.{ProtocolError}
use lightstreamer_rs.Protocol.Notifications.{Notification}
use lightstreamer_rs.Protocol.Response.{parse_line}
use lightstreamer_rs.Protocol.TlcpRequest.{TlcpRequest}
use lightstreamer_rs.Session.Liveness.{LivenessAction, inbound_stalled, due}
use lightstreamer_rs.Session.Outcomes.{ServerCause}
use lightstreamer_rs.Session.Options.{from_millis}
use lightstreamer_rs.Session.Driver.{SessionDriver, on_end, on_connection_error, loop_reason}
use lightstreamer_rs.Session.Driver.Dispatch.{Turn, send_heartbeat, after_heartbeat}
use lightstreamer_rs.Session.Driver.Turns.{
  on_notification, heard, on_parsed, on_line, on_due, on_timer, Woke, line, line_failed,
  lines_ended, command, commands_closed, stop, timer, on_woke,
}
use lightstreamer_rs.Session.Driver.Sound.Numbers.{IsTracked, ledger}
use lightstreamer_rs.Session.Driver.Sound.Frames.{
  Frame-on_end, Frame-on_connection_error, Frame-loop_reason,
}
use lightstreamer_rs.Session.Driver.Messages.{messages}
use lightstreamer_rs.Session.Driver.Messages.Steps.{Balances, Idle-on_conok}
use lightstreamer_rs.Session.Driver.Messages.Commands.{commanded, Balances-on_command}
use lightstreamer_rs.Session.Driver.Messages.Answers.{
  acknowledges, Balances-on_request_ok, Balances-on_request_error,
}
use lightstreamer_rs.Session.Driver.Messages.Data.{Idle-on_data, Idle-on_prog}
use lightstreamer_rs.Protocol.Notifications.{MessageSequence}

module _ (weight : MessageSequence → Option ℕ → ℕ) where
  -- A step that leaves the requests alone and reports nothing.
  Idle-silent :
      (d d' : SessionDriver)
      → (d'.registry ≡ d.registry) × (ledger d' ≡ ledger d)
      → Balances weight d d' [] 0 0
  Idle-silent d d' (r, l) = omega (arith, ap (λ p. messages weight p.0) l)

  -- The messages that a notification acknowledges.
  abbrev pub acknowledged : SessionDriver → Notification → ℕ
  acknowledged d (Notification.request_ok id) = acknowledges weight d id
  acknowledged d other = 0

  Balances-on_notification :
      (t : Turn) (n : Notification) (d : SessionDriver)
      → IsTracked d
      → (let (d', events, flow) = on_notification t n d in
          Balances weight d d' events 0 (acknowledged d n))
  unfolding on_notification
  Balances-on_notification t (Notification.connection_ok session_id limit millis link) d h =
      Idle-on_conok weight t d session_id limit (from_millis millis) link h
  Balances-on_notification t (Notification.connection_error code message) d h =
      let cause : ServerCause = record { code = code; message = message } in
      Idle-silent d (on_connection_error d cause).0 (Frame-on_connection_error d cause)
  Balances-on_notification t (Notification.end code message) d h =
      let cause : ServerCause = record { code = code; message = message } in
      Idle-silent d (on_end d cause).0 (Frame-on_end d cause)
  Balances-on_notification t (Notification.loop delay) d h =
      Idle-silent d (loop_reason d (from_millis delay)).0 (Frame-loop_reason d (from_millis delay))
  Balances-on_notification t (Notification.progressive position) d h =
      Idle-on_prog weight d position
  Balances-on_notification t (Notification.request_ok id) d h = Balances-on_request_ok weight d id h
  Balances-on_notification t (Notification.request_error id code message) d h =
      Balances-on_request_error weight d id (record { code = code; message = message }) h
  Balances-on_notification t (Notification.error code message) d h = omega arith
  Balances-on_notification t Notification.probe d h = omega arith
  Balances-on_notification t (Notification.no_op preamble) d h = omega arith
  Balances-on_notification t Notification.ws_ok d h = omega arith
  Balances-on_notification t (Notification.sync seconds) d h = omega arith
  Balances-on_notification t (Notification.client_ip address) d h = omega arith
  Balances-on_notification t (Notification.server_name name) d h = omega arith
  Balances-on_notification t (Notification.constraints_changed bandwidth) d h = omega arith
  Balances-on_notification t other d h = Idle-on_data weight t.json d other

  abbrev pub acknowledged_by : SessionDriver → Result ProtocolError Notification → ℕ
  acknowledged_by d (ok n) = acknowledged d n
  acknowledged_by d (err error) = 0

  Balances-on_line :
      (t : Turn) (text : Text) (d : SessionDriver)
      → IsTracked d
      → (let (d', events, flow) = on_line t text d in
          Balances weight d d' events 0 (acknowledged_by d (parse_line text)))
  unfolding on_line
  Balances-on_line t text d h = parsed (parse_line text)
    where
      parsed :
          (r : Result ProtocolError Notification)
          → (let (d', events, flow) = on_parsed t text (heard d t) r in
              Balances weight d d' events 0 (acknowledged_by d r))
      parsed (ok n) = Balances-on_notification t n (heard d t) h
      parsed (err error) = omega arith

  Idle-send_heartbeat :
      (t : Turn) (d : SessionDriver) → Balances weight d (send_heartbeat t d).0 [] 0 0
  unfolding send_heartbeat
  Idle-send_heartbeat t d = counted_as _
    where
      counted_as :
          (sent : Bool)
          → Balances weight d
              (after_heartbeat d
                (TlcpRequest.heartbeat (record { session = d.session }))
                t.now
                sent).0
              []
              0
              0
      counted_as true = omega arith
      counted_as false = ground arith

  Idle-on_timer :
      (t : Turn) (d : SessionDriver)
      → (let (d', events, flow) = on_timer t d in Balances weight d d' events 0 0)
  unfolding on_timer
  Idle-on_timer t d = acted (due t.instant_add d.liveness t.now)
    where
      acted :
          (action : LivenessAction)
          → (let (d', events, flow) = on_due t d action in Balances weight d d' events 0 0)
      acted LivenessAction.idle = omega arith
      acted LivenessAction.send_heartbeat = Idle-send_heartbeat t d
      acted (inbound_stalled budget) = omega arith

  abbrev pub handed_over : Woke → ℕ
  handed_over (command c) = commanded weight c
  handed_over (line text) = 0
  handed_over line_failed = 0
  handed_over lines_ended = 0
  handed_over commands_closed = 0
  handed_over stop = 0
  handed_over timer = 0

  abbrev pub acknowledged_in : SessionDriver → Woke → ℕ
  acknowledged_in d (line text) = acknowledged_by d (parse_line text)
  acknowledged_in d (command c) = 0
  acknowledged_in d line_failed = 0
  acknowledged_in d lines_ended = 0
  acknowledged_in d commands_closed = 0
  acknowledged_in d stop = 0
  acknowledged_in d timer = 0

  pub Balances-on_woke :
      (t : Turn) (w : Woke) (d : SessionDriver)
      → IsTracked d
      → (let (d', events, flow) = on_woke t w d in
          Balances weight d d' events (handed_over w) (acknowledged_in d w))
  unfolding on_woke
  Balances-on_woke t (line text) d h = Balances-on_line t text d h
  Balances-on_woke t line_failed d h = omega arith
  Balances-on_woke t lines_ended d h = omega arith
  Balances-on_woke t (command c) d h = Balances-on_command weight t c d h
  Balances-on_woke t commands_closed d h = omega arith
  Balances-on_woke t stop d h = omega arith
  Balances-on_woke t timer d h = Idle-on_timer t d
