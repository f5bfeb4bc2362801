-- ===== src/Session/Driver/Sound/Kept.antt =====
-- The registry and the numbers of requests after a line or a heartbeat.
use lightstreamer_rs.Base.{
  ℕ, zero, suc, ◌≡◌, refl, Bool, true, false, Option, none, some, if◌then◌else◌, Result, ok, err,
}
use lightstreamer_rs.Text.{Text}
use lightstreamer_rs.Protocol.Diff.{JsonPatch}
use lightstreamer_rs.Protocol.Errors.{ProtocolError}
use lightstreamer_rs.Protocol.Notifications.{Notification}
use lightstreamer_rs.Protocol.Response.{parse_line}
use lightstreamer_rs.Protocol.TlcpRequest.{TlcpRequest}
use lightstreamer_rs.Session.Time.{Duration}
use lightstreamer_rs.Session.Liveness.{LivenessAction, inbound_stalled, due}
use lightstreamer_rs.Session.Outcomes.{ServerCause}
use lightstreamer_rs.Session.Options.{from_millis}
use lightstreamer_rs.Session.Pending.{PendingKind, send_message, force_rebind, destroy}
use lightstreamer_rs.Session.Driver.{
  SessionDriver, on_end, on_connection_error, loop_reason, on_prog, on_data, on_data_skipping,
}
use lightstreamer_rs.Session.Driver.Dispatch.{Turn, send_heartbeat, after_heartbeat}
use lightstreamer_rs.Session.Driver.Binding.{
  start_session, retire_stale_pending, bound_to, on_conok, kind_of, is_fresh, next_generation,
}
use lightstreamer_rs.Session.Driver.Answers.{
  take_pending, accept, on_request_ok, refuse, on_request_error,
}
use lightstreamer_rs.Session.Driver.Turns.{
  on_notification, heard, on_parsed, on_line, on_due, on_timer,
}
use lightstreamer_rs.Session.Driver.Sound.Data.{IsSound-on_data}
use lightstreamer_rs.Session.Driver.Sound.Changes.{
  IsSound-on_conok, IsSound-on_request_ok, IsSound-on_request_error,
}
use lightstreamer_rs.Session.Driver.Sound.Numbers.{
  IsTracked, ledger, IsTracked-ledger, Waiting-remove, Waiting-current,
}
use lightstreamer_rs.Session.Driver.Sound.Ledger.{IsTracked-issue_unbound}
use lightstreamer_rs.Session.Driver.Sound.Frames.{
  IsKept, IsKept-Frame, Frame-on_end, Frame-on_connection_error, Frame-loop_reason, Frame-on_prog,
}

ledger-deliver :
    (json : JsonPatch) (d : SessionDriver) (n : Notification) (skip : ℕ)
    → ledger (on_data_skipping json d n skip).0 ≡ ledger d
ledger-deliver json d n zero = refl
ledger-deliver json d n (suc remaining) = refl

ledger-on_data :
    (json : JsonPatch) (d : SessionDriver) (n : Notification)
    → ledger (on_data json d n).0 ≡ ledger d
unfolding on_data
ledger-on_data json d n = ledger-deliver json d n d.skip_remaining

IsKept-on_data :
    (json : JsonPatch) (d : SessionDriver) (n : Notification)
    → IsKept d
    → IsKept (on_data json d n).0
IsKept-on_data json d n (s, h) = (
  IsSound-on_data json d n s,
  IsTracked-ledger d (on_data json d n).0 (ledger-on_data json d n) h,
)

-- The numbers of the requests at a new session.
pub IsTracked-start_session :
    (d : SessionDriver) (fresh : Bool) → IsTracked d → IsTracked (start_session d fresh).0
unfolding retire_stale_pending
IsTracked-start_session d false h = h
IsTracked-start_session d true (sent, queue) = (
  sent,
  Waiting-current d.next_request_id d.generation (next_generation d.generation) d.pending queue,
)

IsTracked-on_conok :
    (t : Turn) (d : SessionDriver) (session_id : Text) (limit : ℕ) (keep_alive : Duration)
    (control_link : Option Text)
    → IsTracked d
    → IsTracked (on_conok t d session_id limit keep_alive control_link).0
unfolding on_conok
IsTracked-on_conok t d session_id limit keep_alive control_link h =
    let d' = bound_to t d session_id keep_alive control_link in
    let fresh = is_fresh (kind_of d session_id) in
    IsTracked-issue_unbound t (start_session d' fresh).0 (IsTracked-start_session d' fresh h)

IsTracked-take_pending :
    (d : SessionDriver) (id : Text) → IsTracked d → IsTracked (take_pending d id).0
unfolding take_pending
IsTracked-take_pending d id (sent, queue) =
    (sent, Waiting-remove d.next_request_id d.generation d.pending id queue)

pub ledger-accept :
    (d : SessionDriver) (kind : Option PendingKind) → ledger (accept (d, kind)) ≡ ledger d
ledger-accept d none = refl
ledger-accept d (some (PendingKind.reconfigure key limit)) = refl
ledger-accept d (some (PendingKind.subscribe key)) = refl
ledger-accept d (some (PendingKind.unsubscribe key)) = refl
ledger-accept d (some (send_message sequence prog)) = refl
ledger-accept d (some force_rebind) = refl
ledger-accept d (some destroy) = refl

IsTracked-on_request_ok :
    (d : SessionDriver) (id : Option Text) → IsTracked d → IsTracked (on_request_ok d id).0
unfolding on_request_ok
IsTracked-on_request_ok d none h = h
IsTracked-on_request_ok d (some id) h =
    let (d', kind) = take_pending d id in
    IsTracked-ledger d' (accept (d', kind)) (ledger-accept d' kind) (IsTracked-take_pending d id h)

ledger-refuse :
    (cause : ServerCause) (d : SessionDriver) (kind : Option PendingKind)
    → ledger (refuse cause d kind).0 ≡ ledger d
ledger-refuse cause d none = refl
ledger-refuse cause d (some (PendingKind.subscribe key)) = refl
ledger-refuse cause d (some (PendingKind.unsubscribe key)) = refl
ledger-refuse cause d (some (PendingKind.reconfigure key limit)) = refl
ledger-refuse cause d (some (send_message sequence prog)) = refl
ledger-refuse cause d (some force_rebind) = refl
ledger-refuse cause d (some destroy) = refl

IsTracked-on_request_error :
    (d : SessionDriver) (id : Text) (cause : ServerCause)
    → IsTracked d
    → IsTracked (on_request_error d id cause).0
unfolding on_request_error
IsTracked-on_request_error d id cause h =
    let (d', kind) = take_pending d id in
    IsTracked-ledger d' (refuse cause d' kind).0 (ledger-refuse cause d' kind)
      (IsTracked-take_pending d id h)

IsKept-on_notification :
    (t : Turn) (n : Notification) (d : SessionDriver) → IsKept d → IsKept (on_notification t n d).0
unfolding on_notification
IsKept-on_notification t (Notification.connection_ok session_id limit millis link) d (s, h) = (
  IsSound-on_conok t d session_id limit (from_millis millis) link s,
  IsTracked-on_conok t d session_id limit (from_millis millis) link h,
)
IsKept-on_notification t (Notification.connection_error code message) d k =
    let cause : ServerCause = record { code = code; message = message } in
    IsKept-Frame d (on_connection_error d cause).0 (Frame-on_connection_error d cause) k
IsKept-on_notification t (Notification.end code message) d k =
    let cause : ServerCause = record { code = code; message = message } in
    IsKept-Frame d (on_end d cause).0 (Frame-on_end d cause) k
IsKept-on_notification t (Notification.loop delay) d k =
    IsKept-Frame d (loop_reason d (from_millis delay)).0 (Frame-loop_reason d (from_millis delay)) k
IsKept-on_notification t (Notification.progressive position) d k =
    IsKept-Frame d (on_prog d position).0 (Frame-on_prog d position) k
IsKept-on_notification t (Notification.request_ok id) d (s, h) =
    (IsSound-on_request_ok d id s, IsTracked-on_request_ok d id h)
IsKept-on_notification t (Notification.request_error id code message) d (s, h) =
    let cause : ServerCause = record { code = code; message = message } in
    (IsSound-on_request_error d id cause s, IsTracked-on_request_error d id cause h)
IsKept-on_notification t (Notification.error code message) d k = k
IsKept-on_notification t Notification.probe d k = k
IsKept-on_notification t (Notification.no_op preamble) d k = k
IsKept-on_notification t Notification.ws_ok d k = k
IsKept-on_notification t (Notification.sync seconds) d k = k
IsKept-on_notification t (Notification.client_ip address) d k = k
IsKept-on_notification t (Notification.server_name name) d k = k
IsKept-on_notification t (Notification.constraints_changed bandwidth) d k = k
IsKept-on_notification t other d k = IsKept-on_data t.json d other k

pub IsKept-on_line :
    (t : Turn) (text : Text) (d : SessionDriver) → IsKept d → IsKept (on_line t text d).0
unfolding on_line
IsKept-on_line t text d k = parsed (parse_line text)
  where
    parsed : (r : Result ProtocolError Notification) → IsKept (on_parsed t text (heard d t) r).0
    parsed (ok n) = IsKept-on_notification t n (heard d t) k
    parsed (err error) = k

if-IsKept :
    {A : Type 0} (b : Bool) (x y : SessionDriver × A)
    → IsKept x.0
    → IsKept y.0
    → IsKept (if b then x else y).0
if-IsKept true x y kx ky = kx
if-IsKept false x y kx ky = ky

IsKept-after_heartbeat :
    (t : Turn) (d : SessionDriver) (sent : Bool)
    → IsKept d
    → IsKept
        (after_heartbeat d (TlcpRequest.heartbeat (record { session = d.session })) t.now sent).0
IsKept-after_heartbeat t d true k = k
IsKept-after_heartbeat t d false k = if-IsKept _ _ _ k k

IsKept-send_heartbeat : (t : Turn) (d : SessionDriver) → IsKept d → IsKept (send_heartbeat t d).0
unfolding send_heartbeat
IsKept-send_heartbeat t d k = IsKept-after_heartbeat t d _ k

pub IsKept-on_timer : (t : Turn) (d : SessionDriver) → IsKept d → IsKept (on_timer t d).0
unfolding on_timer
IsKept-on_timer t d k = acted (due t.instant_add d.liveness t.now)
  where
    acted : (action : LivenessAction) → IsKept (on_due t d action).0
    acted LivenessAction.idle = k
    acted LivenessAction.send_heartbeat = IsKept-send_heartbeat t d k
    acted (inbound_stalled budget) = k
