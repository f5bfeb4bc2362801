-- ===== src/Session/Driver/Sound/Commands.antt =====
-- The registry and the numbers of requests after a command of the client.
use lightstreamer_rs.Base.{ℕ, ◌≡◌, refl, sym, subst, Bool, true, false, Option, none, some}
use lightstreamer_rs.Text.{Text}
use lightstreamer_rs.Protocol.Requests.{Limit, RequestId, DestroyCause}
use lightstreamer_rs.Protocol.TlcpRequest.{TlcpRequest}
use lightstreamer_rs.Session.Events.{SubscriptionOperation}
use lightstreamer_rs.Session.Pending.{PendingKind}
use lightstreamer_rs.Session.Registry.{RegistryEntry, get}
use lightstreamer_rs.Session.Driver.{SessionDriver, StreamState, establishing, bound}
use lightstreamer_rs.Session.Driver.Dispatch.{Turn, Stepped, next_request_id, dispatch}
use lightstreamer_rs.Session.Driver.Commands.{
  OutgoingMessage, SessionCommand, request_about, added, issue_if_bound, unsubscribe_in,
  unsubscribe_wire, unsubscribe_entry, unsubscribe_key, wire_of, reconfigure_in, reconfigure_key,
  message_sent, message_with, message_in, message_request, sequence_of, submit, rebind_with,
  rebind_in, destroy_with, destroy_in, on_command,
}
use lightstreamer_rs.Session.Driver.Turns.{command}
use lightstreamer_rs.Session.Driver.Drive.{woke, IsNew}
use lightstreamer_rs.Session.Driver.Sound.{IsSound}
use lightstreamer_rs.Session.Driver.Sound.Outcomes.{dispatch-registry, next_request_id-registry}
use lightstreamer_rs.Session.Driver.Sound.Changes.{IsSound-subscribe, IsSound-unsubscribe_key}
use lightstreamer_rs.Session.Driver.Sound.Numbers.{IsTracked, request_id_of}
use lightstreamer_rs.Session.Driver.Sound.Ledger.{
  IsDrawn, Drawn, IsDrawn-next_request_id, IsTracked-dispatch, IsTracked-issue_subscription,
  IsTracked-request_about,
}
use lightstreamer_rs.Session.Driver.Sound.Frames.{IsKept}

IsKept-dispatch :
    (t : Turn) (request : TlcpRequest) (id : RequestId) (kind : PendingKind) (d : SessionDriver)
    → request_id_of request ≡ some id
    → IsSound d.registry
    → Drawn id d
    → IsKept (dispatch t request id kind d).0
IsKept-dispatch t request id kind d own s drawn = (
  subst IsSound (sym (dispatch-registry t request id kind d)) s,
  IsTracked-dispatch t request id kind d own drawn,
)

-- After a number has been drawn, the registry is as it was.
abbrev IsReady : SessionDriver × Option RequestId → Type 0
IsReady drawn = IsSound drawn.0.registry × IsDrawn drawn

IsReady-next_request_id : (d : SessionDriver) → IsKept d → IsReady (next_request_id d)
IsReady-next_request_id d (s, h) =
    (subst IsSound (sym (next_request_id-registry d)) s, IsDrawn-next_request_id d h)

IsKept-request_about :
    (t : Turn) (key : ℕ) (operation : SubscriptionOperation) (kind : PendingKind)
    (request : RequestId → TlcpRequest) (numbered : SessionDriver × Option RequestId)
    → ((id : RequestId) → request_id_of (request id) ≡ some id)
    → IsReady numbered
    → IsKept (request_about t key operation kind request numbered).0
IsKept-request_about t key operation kind request (d, none) own ready = ready
IsKept-request_about t key operation kind request (d, some id) own (s, drawn) =
    IsKept-dispatch t (request id) id kind d (own id) s drawn

IsTracked-unsubscribe_in :
    (t : Turn) (key sub_id : ℕ) (d : SessionDriver) (session : Option Text)
    → IsTracked d
    → IsTracked (unsubscribe_in t key sub_id d session).0
IsTracked-unsubscribe_in t key sub_id d none h = h
IsTracked-unsubscribe_in t key sub_id d (some session) h =
    IsTracked-request_about t key SubscriptionOperation.unsubscribe (PendingKind.unsubscribe key) _
      (next_request_id d) (λ id. refl) (IsDrawn-next_request_id d h)

IsTracked-unsubscribe_wire :
    (t : Turn) (key : ℕ) (d : SessionDriver) (entry : RegistryEntry) (wire : Option ℕ)
    → IsTracked d
    → IsTracked (unsubscribe_wire t key d entry wire).0
IsTracked-unsubscribe_wire t key d entry none h = h
IsTracked-unsubscribe_wire t key d entry (some sub_id) h =
    IsTracked-unsubscribe_in t key sub_id _ d.session h

IsTracked-unsubscribe_entry :
    (t : Turn) (key : ℕ) (d : SessionDriver) (entry : Option RegistryEntry)
    → IsTracked d
    → IsTracked (unsubscribe_entry t key d entry).0
IsTracked-unsubscribe_entry t key d none h = h
IsTracked-unsubscribe_entry t key d (some entry) h =
    IsTracked-unsubscribe_wire t key d entry entry.wire h

IsKept-unsubscribe_key :
    (t : Turn) (key : ℕ) (d : SessionDriver) → IsKept d → IsKept (unsubscribe_key t key d).0
unfolding unsubscribe_key
IsKept-unsubscribe_key t key d (s, h) = (
  unfold unsubscribe_key in IsSound-unsubscribe_key t key d s,
  IsTracked-unsubscribe_entry t key d (get d.registry.entries key) h,
)

IsKept-reconfigure_in :
    (t : Turn) (key : ℕ) (limit : Limit) (d : SessionDriver) (wire : Option ℕ)
    (session : Option Text)
    → IsKept d
    → IsKept (reconfigure_in t key limit d wire session).0
IsKept-reconfigure_in t key limit d none session k = k
IsKept-reconfigure_in t key limit d (some sub_id) none k = k
IsKept-reconfigure_in t key limit d (some sub_id) (some session) k =
    IsKept-request_about t key SubscriptionOperation.reconfigure (PendingKind.reconfigure key limit)
      _ (next_request_id d) (λ id. refl) (IsReady-next_request_id d k)

IsKept-reconfigure_key :
    (t : Turn) (key : ℕ) (limit : Limit) (d : SessionDriver)
    → IsKept d
    → IsKept (reconfigure_key t key limit d).0
unfolding reconfigure_key
IsKept-reconfigure_key t key limit d k =
    IsKept-reconfigure_in t key limit d (wire_of (get d.registry.entries key)) d.session k

IsKept-message_sent :
    (m : OutgoingMessage) (sent : Stepped Bool) → IsKept sent.0 → IsKept (message_sent m sent).0
IsKept-message_sent m (d, events, true) k = k
IsKept-message_sent m (d, events, false) k = k

IsKept-message_with :
    (t : Turn) (m : OutgoingMessage) (session : Text) (numbered : SessionDriver × Option RequestId)
    → IsReady numbered
    → IsKept (message_with t m session numbered).0
IsKept-message_with t m session (d, none) ready = ready
IsKept-message_with t m session (d, some id) (s, drawn) =
    let request = message_request m session id in
    let kind = PendingKind.send_message (sequence_of m.sequence) m.msg_prog in
    IsKept-message_sent m (dispatch t request id kind d)
      (IsKept-dispatch t request id kind d refl s drawn)

IsKept-message_in :
    (t : Turn) (m : OutgoingMessage) (d : SessionDriver) (state : StreamState)
    (session : Option Text)
    → IsKept d
    → IsKept (message_in t m d state session).0
IsKept-message_in t m d establishing session k = k
IsKept-message_in t m d bound none k = k
IsKept-message_in t m d bound (some session) k =
    IsKept-message_with t m session (next_request_id d) (IsReady-next_request_id d k)

IsKept-submit :
    (t : Turn) (m : OutgoingMessage) (d : SessionDriver) → IsKept d → IsKept (submit t m d).0
unfolding submit
IsKept-submit t m d k = IsKept-message_in t m d d.stream_state d.session k

IsKept-rebind_with :
    (t : Turn) (close_socket : Option Bool) (session : Text)
    (numbered : SessionDriver × Option RequestId)
    → IsReady numbered
    → IsKept (rebind_with t close_socket session numbered).0
IsKept-rebind_with t close_socket session (d, none) ready = ready
IsKept-rebind_with t close_socket session (d, some id) (s, drawn) =
    IsKept-dispatch t _ id PendingKind.force_rebind (record d { force_rebind_outstanding = true })
      refl s drawn

IsKept-rebind_in :
    (t : Turn) (close_socket : Option Bool) (d : SessionDriver) (state : StreamState)
    (session : Option Text)
    → IsKept d
    → IsKept (rebind_in t close_socket d state session).0
IsKept-rebind_in t close_socket d establishing session k = k
IsKept-rebind_in t close_socket d bound none k = k
IsKept-rebind_in t close_socket d bound (some session) k =
    IsKept-rebind_with t close_socket session (next_request_id d) (IsReady-next_request_id d k)

IsKept-destroy_with :
    (t : Turn) (cause : Option DestroyCause) (session : Text)
    (numbered : SessionDriver × Option RequestId)
    → IsReady numbered
    → IsKept (destroy_with t cause session numbered).0
IsKept-destroy_with t cause session (d, none) ready = ready
IsKept-destroy_with t cause session (d, some id) (s, drawn) =
    IsKept-dispatch t _ id PendingKind.destroy (record d { destroy_requested = true }) refl s drawn

IsKept-destroy_in :
    (t : Turn) (cause : Option DestroyCause) (d : SessionDriver) (session : Option Text)
    → IsKept d
    → IsKept (destroy_in t cause d session).0
IsKept-destroy_in t cause d none k = k
IsKept-destroy_in t cause d (some session) k =
    IsKept-destroy_with t cause session (next_request_id d) (IsReady-next_request_id d k)

IsTracked-issue_if_bound :
    (t : Turn) (key : ℕ) (d : SessionDriver) (state : StreamState)
    → IsTracked d
    → IsTracked (issue_if_bound t key d state).0
IsTracked-issue_if_bound t key d establishing h = h
IsTracked-issue_if_bound t key d bound h = IsTracked-issue_subscription t key d h

-- A command keeps both; the key of a new subscription is a new one.
pub IsKept-on_command :
    (t : Turn) (c : SessionCommand) (d : SessionDriver)
    → IsNew d (woke (command c))
    → IsKept d
    → IsKept (on_command t c d).0
unfolding on_command
IsKept-on_command t (SessionCommand.subscribe key spec) d absent (s, h) = (
  IsSound-subscribe t key spec d s absent,
  IsTracked-issue_if_bound t key (added d key spec) d.stream_state h,
)
IsKept-on_command t (SessionCommand.unsubscribe key) d own k = IsKept-unsubscribe_key t key d k
IsKept-on_command t (SessionCommand.reconfigure key limit) d own k =
    IsKept-reconfigure_key t key limit d k
IsKept-on_command t (SessionCommand.send_message m) d own k = IsKept-submit t m d k
IsKept-on_command t (SessionCommand.force_rebind close_socket) d own k =
    IsKept-rebind_in t close_socket d d.stream_state d.session k
IsKept-on_command t (SessionCommand.destroy cause) d own k = IsKept-destroy_in t cause d d.session k
IsKept-on_command t SessionCommand.shutdown d own k = k
