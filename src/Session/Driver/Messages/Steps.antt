-- ===== src/Session/Driver/Messages/Steps.antt =====
-- Where the messages are after a step of the driver.
use lightstreamer_rs.Base.{
  ℕ, ◌+◌, ◌≡◌, refl, ap, ◌∙◌, arith, Bool, true, false, Option, none, some, List, [], ◌∷◌,
}
use lightstreamer_rs.Text.{Text}
use lightstreamer_rs.Protocol.Requests.{Limit, RequestId}
use lightstreamer_rs.Protocol.TlcpRequest.{TlcpRequest}
use lightstreamer_rs.Session.Time.{Duration}
use lightstreamer_rs.Session.Events.{SessionEvent, ResubscribedEntry, SubscriptionOperation}
use lightstreamer_rs.Session.Pending.{PendingKind, send_message}
use lightstreamer_rs.Session.Registry.{Registry, RegistryEntry, allocate, get}
use lightstreamer_rs.Session.Driver.{SessionDriver, StreamState, establishing, bound}
use lightstreamer_rs.Session.Driver.Dispatch.{Turn, Stepped, next_request_id, dispatch}
use lightstreamer_rs.Session.Driver.Issue.{
  subscribe_request, issued_as, issue_with, issue_entry, issue_numbered, issue_in,
  issue_subscription, issue_all, report_issued, issue_unbound_subscriptions, unbound_keys,
  bind_entry,
}
use lightstreamer_rs.Session.Driver.Binding.{
  start_session, retire_stale_pending, bound_to, on_conok, kind_of, is_fresh, next_generation,
}
use lightstreamer_rs.Session.Driver.Commands.{
  OutgoingMessage, request_about, unsubscribe_in, unsubscribe_wire, unsubscribe_entry,
  unsubscribe_key, wire_of, reconfigure_in, reconfigure_key, message_sent, message_with, message_in,
  message_request, sequence_of, submit,
}
use lightstreamer_rs.Session.Driver.Sound.Numbers.{IsTracked}
use lightstreamer_rs.Session.Driver.Sound.Ledger.{
  IsDrawn, IsDrawn-next_request_id, IsTracked-issue_subscription,
}
use lightstreamer_rs.Session.Driver.Sound.Kept.{IsTracked-start_session}
use lightstreamer_rs.Session.Driver.Messages.{
  messages, reported, reported-append, is_message, messages-retired, messages-dispatch, if_sent,
}
use lightstreamer_rs.Protocol.Notifications.{MessageSequence}

pub pending-next_request_id : (d : SessionDriver) → (next_request_id d).0.pending ≡ d.pending
unfolding next_request_id
pending-next_request_id d = ground arith

module _ (w : MessageSequence → Option ℕ → ℕ) where
  -- The weight of a message that is to be sent.
  abbrev weight : OutgoingMessage → ℕ
  weight m = w (sequence_of m.sequence) m.msg_prog

  -- So much weight of messages is taken up by a step, and so much is acknowledged.
  abbrev pub Balances :
      (before after : SessionDriver) → List SessionEvent → (submitted acked : ℕ) → Type 0
  Balances d d' events submitted acked =
      messages w d'.pending + reported w events + acked ≡ messages w d.pending + submitted

  -- A step that has nothing to do with messages w.
  abbrev pub Idle : SessionDriver → SessionDriver × List SessionEvent → Type 0
  Idle d (d', events) = Balances d d' events 0 0

  module _ (t : Turn) where
    Idle-issued_as :
        (key sub_id : ℕ) (entry : RegistryEntry) (d : SessionDriver) (sent : Stepped Bool)
        → (messages w sent.0.pending ≡ messages w d.pending)
        → (reported w sent.1 ≡ 0)
        → (let (d', events, issued) = issued_as key sub_id entry sent in Balances d d' events 0 0)
    Idle-issued_as key sub_id entry d (d', events, true) e r = omega arith
    Idle-issued_as key sub_id entry d (d', events, false) e r = omega arith

    pub if_sent-zero : (b : Bool) → if_sent b 0 ≡ 0
    if_sent-zero true = refl
    if_sent-zero false = refl

    Idle-issue_with :
        (session : Text) (key sub_id : ℕ) (entry : RegistryEntry) (d : SessionDriver)
        (numbered : SessionDriver × Option RequestId)
        → IsDrawn numbered
        → numbered.0.pending ≡ d.pending
        → (let (d', events, issued) = issue_with t session key sub_id entry numbered in
            Balances d d' events 0 0)
    Idle-issue_with session key sub_id entry d (d', none) h e = omega (arith, ap (messages w) e)
    Idle-issue_with session key sub_id entry d (d', some id) h e =
        let request = subscribe_request session id sub_id entry.spec in
        let kind = PendingKind.subscribe key in
        let (waits, silent) = messages-dispatch w t request id kind d' h in
        let same : messages w (dispatch t request id kind d').0.pending ≡ messages w d.pending =
          omega (arith, waits, ap (messages w) e, if_sent-zero (dispatch t request id kind d').2) in
        Idle-issued_as key sub_id entry d (dispatch t request id kind d') same silent

    Idle-issue_entry :
        (session : Text) (key sub_id : ℕ) (d : SessionDriver) (o : Option RegistryEntry)
        → IsTracked d
        → (let (d', events, issued) = issue_entry t session key sub_id d o in
            Balances d d' events 0 0)
    Idle-issue_entry session key sub_id d none h = omega arith
    Idle-issue_entry session key sub_id d (some entry) h =
        let d' : SessionDriver = record d { registry = bind_entry d.registry key sub_id entry } in
        Idle-issue_with session key sub_id entry d (next_request_id d')
          (IsDrawn-next_request_id d' h) (pending-next_request_id d')

    Idle-issue_numbered :
        (session : Text) (key : ℕ) (d : SessionDriver) (a : Registry × Option ℕ)
        → IsTracked d
        → (let (d', events, issued) = issue_numbered t session key d a in Balances d d' events 0 0)
    Idle-issue_numbered session key d (r, none) h = omega arith
    Idle-issue_numbered session key d (r, some sub_id) h =
        Idle-issue_entry session key sub_id (record d { registry = r }) (get r.entries key) h

    Idle-issue_in :
        (key : ℕ) (d : SessionDriver) (session : Option Text)
        → IsTracked d
        → (let (d', events, issued) = issue_in t key d session in Balances d d' events 0 0)
    Idle-issue_in key d none h = omega arith
    Idle-issue_in key d (some session) h = Idle-issue_numbered session key d (allocate d.registry) h

    pub Idle-issue_subscription :
        (key : ℕ) (d : SessionDriver)
        → IsTracked d
        → (let (d', events, issued) = issue_subscription t key d in Balances d d' events 0 0)
    unfolding issue_subscription
    Idle-issue_subscription key d h = Idle-issue_in key d d.session h

    Idle-issue_all :
        (keys : List ℕ) (d : SessionDriver)
        → IsTracked d
        → (let (d', events, issued) = issue_all t keys d in Balances d d' events 0 0)
    unfolding issue_all
    Idle-issue_all [] d h = omega arith
    Idle-issue_all (key ∷ keys) d h =
        let (d₁, events, issued) = issue_subscription t key d in
        let (d₂, events', rest) = issue_all t keys d₁ in
        omega (
          arith,
          Idle-issue_subscription key d h,
          Idle-issue_all keys d₁ (IsTracked-issue_subscription t key d h),
          reported-append w events events',
        )

    reported-issued : (entries : List ResubscribedEntry) → reported w (report_issued entries) ≡ 0
    reported-issued [] = refl
    reported-issued (e ∷ es) = refl

    Idle-issue_unbound :
        (d : SessionDriver) → IsTracked d → Idle d (issue_unbound_subscriptions t d)
    unfolding issue_unbound_subscriptions
    Idle-issue_unbound d h =
        let (d', events, issued) = issue_all t (unbound_keys d.registry.entries) d in
        omega (
          arith,
          Idle-issue_all (unbound_keys d.registry.entries) d h,
          reported-append w events (report_issued issued),
          reported-issued issued,
        )

    Idle-start_session : (d : SessionDriver) (fresh : Bool) → Idle d (start_session d fresh)
    unfolding retire_stale_pending
    Idle-start_session d false = omega arith
    Idle-start_session d true =
        omega (arith, messages-retired w d.pending (next_generation d.generation))

    pub Idle-on_conok :
        (d : SessionDriver) (session_id : Text) (limit : ℕ) (keep_alive : Duration)
        (control_link : Option Text)
        → IsTracked d
        → Idle d (on_conok t d session_id limit keep_alive control_link)
    unfolding on_conok
    Idle-on_conok d session_id limit keep_alive control_link h =
        let d' = bound_to t d session_id keep_alive control_link in
        let fresh = is_fresh (kind_of d session_id) in
        let (d₁, retired) = start_session d' fresh in
        let (d₂, issued) = issue_unbound_subscriptions t d₁ in
        let event : SessionEvent = SessionEvent.bound (record {
          session_id = session_id;
          kind = kind_of d session_id;
          keep_alive = keep_alive;
          request_limit_bytes = limit;
          control_link = control_link;
        }) in
        omega (
          arith,
          Idle-start_session d' fresh,
          Idle-issue_unbound d₁ (IsTracked-start_session d' fresh h),
          reported-append w retired (event ∷ issued),
        )

    Idle-request_about :
        (key : ℕ) (operation : SubscriptionOperation) (kind : PendingKind)
        (request : RequestId → TlcpRequest) (d : SessionDriver)
        (numbered : SessionDriver × Option RequestId)
        → is_message w kind ≡ 0
        → IsDrawn numbered
        → numbered.0.pending ≡ d.pending
        → Idle d (request_about t key operation kind request numbered)
    Idle-request_about key operation kind request d (d', none) none_of h e =
        omega (arith, ap (messages w) e)
    Idle-request_about key operation kind request d (d', some id) none_of h e =
        let (waits, silent) = messages-dispatch w t (request id) id kind d' h in
        let sent = (dispatch t (request id) id kind d').2 in
        let nothing : if_sent sent (is_message w kind) ≡ 0 =
          ap (if_sent sent) none_of ∙ if_sent-zero sent in
        omega (arith, waits, silent, nothing, ap (messages w) e)

    Idle-unsubscribe_in :
        (key sub_id : ℕ) (d : SessionDriver) (session : Option Text)
        → IsTracked d
        → Idle d (unsubscribe_in t key sub_id d session)
    Idle-unsubscribe_in key sub_id d none h = omega arith
    Idle-unsubscribe_in key sub_id d (some session) h =
        Idle-request_about key SubscriptionOperation.unsubscribe (PendingKind.unsubscribe key) _ d
          (next_request_id d) refl (IsDrawn-next_request_id d h) (pending-next_request_id d)

    Idle-unsubscribe_wire :
        (key : ℕ) (d : SessionDriver) (entry : RegistryEntry) (wire : Option ℕ)
        → IsTracked d
        → Idle d (unsubscribe_wire t key d entry wire)
    Idle-unsubscribe_wire key d entry none h = omega arith
    Idle-unsubscribe_wire key d entry (some sub_id) h = Idle-unsubscribe_in key sub_id _ d.session h

    Idle-unsubscribe_entry :
        (key : ℕ) (d : SessionDriver) (entry : Option RegistryEntry)
        → IsTracked d
        → Idle d (unsubscribe_entry t key d entry)
    Idle-unsubscribe_entry key d none h = omega arith
    Idle-unsubscribe_entry key d (some entry) h = Idle-unsubscribe_wire key d entry entry.wire h

    pub Idle-unsubscribe_key :
        (key : ℕ) (d : SessionDriver) → IsTracked d → Idle d (unsubscribe_key t key d)
    unfolding unsubscribe_key
    Idle-unsubscribe_key key d h = Idle-unsubscribe_entry key d (get d.registry.entries key) h

    Idle-reconfigure_in :
        (key : ℕ) (limit : Limit) (d : SessionDriver) (wire : Option ℕ) (session : Option Text)
        → IsTracked d
        → Idle d (reconfigure_in t key limit d wire session)
    Idle-reconfigure_in key limit d none session h = omega arith
    Idle-reconfigure_in key limit d (some sub_id) none h = omega arith
    Idle-reconfigure_in key limit d (some sub_id) (some session) h =
        Idle-request_about key SubscriptionOperation.reconfigure (PendingKind.reconfigure key limit)
          _ d (next_request_id d) refl (IsDrawn-next_request_id d h) (pending-next_request_id d)

    pub Idle-reconfigure_key :
        (key : ℕ) (limit : Limit) (d : SessionDriver)
        → IsTracked d
        → Idle d (reconfigure_key t key limit d)
    unfolding reconfigure_key
    Idle-reconfigure_key key limit d h =
        Idle-reconfigure_in key limit d (wire_of (get d.registry.entries key)) d.session h

    Balances-message_sent :
        (m : OutgoingMessage) (d : SessionDriver) (sent : Stepped Bool)
        → messages w sent.0.pending ≡ messages w d.pending + if_sent sent.2 (weight m)
        → reported w sent.1 ≡ 0
        → (let (d', events) = message_sent m sent in Balances d d' events (weight m) 0)
    Balances-message_sent m d (d', events, true) e r = omega arith
    Balances-message_sent m d (d', events, false) e r = omega (arith, reported-append w events _)

    Balances-message_with :
        (m : OutgoingMessage) (session : Text) (d : SessionDriver)
        (numbered : SessionDriver × Option RequestId)
        → IsDrawn numbered
        → numbered.0.pending ≡ d.pending
        → (let (d', events) = message_with t m session numbered in
            Balances d d' events (weight m) 0)
    Balances-message_with m session d (d', none) h e = omega (arith, ap (messages w) e)
    Balances-message_with m session d (d', some id) h e =
        let request = message_request m session id in
        let kind = send_message (sequence_of m.sequence) m.msg_prog in
        let (waits, silent) = messages-dispatch w t request id kind d' h in
        Balances-message_sent m d (dispatch t request id kind d')
          (waits
            ∙ ap (λ (ps : ℕ). ps + if_sent (dispatch t request id kind d').2 (weight m))
                (ap (messages w) e))
          silent

    Balances-message_in :
        (m : OutgoingMessage) (d : SessionDriver) (state : StreamState) (session : Option Text)
        → IsTracked d
        → (let (d', events) = message_in t m d state session in Balances d d' events (weight m) 0)
    Balances-message_in m d establishing session h = omega arith
    Balances-message_in m d bound none h = omega arith
    Balances-message_in m d bound (some session) h =
        Balances-message_with m session d (next_request_id d) (IsDrawn-next_request_id d h)
          (pending-next_request_id d)

    -- A message waits for an answer, or is reported w.
    pub Balances-submit :
        (m : OutgoingMessage) (d : SessionDriver)
        → IsTracked d
        → (let (d', events) = submit t m d in Balances d d' events (weight m) 0)
    unfolding submit
    Balances-submit m d h = Balances-message_in m d d.stream_state d.session h
