-- ===== src/Session/Driver/Messages/Commands.antt =====
-- Where the messages are after a command.
use lightstreamer_rs.Base.{refl, ℕ, ◌≡◌, ap, arith, Bool, true, Option, none, some}
use lightstreamer_rs.Text.{Text}
use lightstreamer_rs.Protocol.Requests.{RequestId, DestroyCause}
use lightstreamer_rs.Protocol.TlcpRequest.{TlcpRequest}
use lightstreamer_rs.Session.Pending.{PendingKind}
use lightstreamer_rs.Session.Driver.{SessionDriver, StreamState, establishing, bound}
use lightstreamer_rs.Session.Driver.Dispatch.{Turn, next_request_id, dispatch}
use lightstreamer_rs.Session.Driver.Commands.{
  SessionCommand, added, issue_if_bound, rebind_with, rebind_in, destroy_with, destroy_in,
  on_command,
}
use lightstreamer_rs.Session.Driver.Sound.Numbers.{IsTracked}
use lightstreamer_rs.Session.Driver.Sound.Ledger.{IsDrawn, IsDrawn-next_request_id}
use lightstreamer_rs.Session.Driver.Messages.{messages, messages-dispatch}
use lightstreamer_rs.Session.Driver.Messages.Steps.{
  Balances, Idle, pending-next_request_id, Idle-issue_subscription, Idle-unsubscribe_key,
  Idle-reconfigure_key, Balances-submit, if_sent-zero,
}
use lightstreamer_rs.Protocol.Requests.{SequenceName}
use lightstreamer_rs.Session.Driver.Commands.{sequence_of}
use lightstreamer_rs.Protocol.Notifications.{unspecified, named}
use lightstreamer_rs.Protocol.Notifications.{MessageSequence}

-- The sequence that a message was given, if any.
abbrev name_of : Option SequenceName → MessageSequence
name_of none = unspecified
name_of (some name) = named name.text

name_of-sequence_of : (s : Option SequenceName) → sequence_of s ≡ name_of s
name_of-sequence_of none = refl
name_of-sequence_of (some name) = refl

module _ (w : MessageSequence → Option ℕ → ℕ) where
  Idle-rebind_with :
      (t : Turn) (close_socket : Option Bool) (session : Text) (d : SessionDriver)
      (numbered : SessionDriver × Option RequestId)
      → IsDrawn numbered
      → numbered.0.pending ≡ d.pending
      → Idle w d (rebind_with t close_socket session numbered)
  Idle-rebind_with t close_socket session d (d', none) h e = omega (arith, ap (messages w) e)
  Idle-rebind_with t close_socket session d (d', some id) h e =
      let request = TlcpRequest.force_rebind (record {
        session = some session;
        request_id = id;
        polling_millis = none;
        close_socket = close_socket;
      }) in
      let d'' : SessionDriver = record d' { force_rebind_outstanding = true } in
      let (waits, silent) = messages-dispatch w t request id PendingKind.force_rebind d'' h in
      omega (
        arith,
        waits,
        silent,
        if_sent-zero w t (dispatch t request id PendingKind.force_rebind d'').2,
        ap (messages w) e,
      )

  Idle-rebind_in :
      (t : Turn) (close_socket : Option Bool) (d : SessionDriver) (state : StreamState)
      (session : Option Text)
      → IsTracked d
      → Idle w d (rebind_in t close_socket d state session)
  Idle-rebind_in t close_socket d establishing session h = omega arith
  Idle-rebind_in t close_socket d bound none h = omega arith
  Idle-rebind_in t close_socket d bound (some session) h =
      Idle-rebind_with t close_socket session d (next_request_id d) (IsDrawn-next_request_id d h)
        (pending-next_request_id d)

  Idle-destroy_with :
      (t : Turn) (cause : Option DestroyCause) (session : Text) (d : SessionDriver)
      (numbered : SessionDriver × Option RequestId)
      → IsDrawn numbered
      → numbered.0.pending ≡ d.pending
      → (let (d', events, flow) = destroy_with t cause session numbered in
          Balances w d d' events 0 0)
  Idle-destroy_with t cause session d (d', none) h e = omega (arith, ap (messages w) e)
  Idle-destroy_with t cause session d (d', some id) h e =
      let request =
        TlcpRequest.destroy_session (record {
          session = some session;
          request_id = id;
          cause = cause;
          close_socket = none;
        }) in
      let d'' : SessionDriver = record d' { destroy_requested = true } in
      let (waits, silent) = messages-dispatch w t request id PendingKind.destroy d'' h in
      omega (
        arith,
        waits,
        silent,
        if_sent-zero w t (dispatch t request id PendingKind.destroy d'').2,
        ap (messages w) e,
      )

  Idle-destroy_in :
      (t : Turn) (cause : Option DestroyCause) (d : SessionDriver) (session : Option Text)
      → IsTracked d
      → (let (d', events, flow) = destroy_in t cause d session in Balances w d d' events 0 0)
  Idle-destroy_in t cause d none h = omega arith
  Idle-destroy_in t cause d (some session) h =
      Idle-destroy_with t cause session d (next_request_id d) (IsDrawn-next_request_id d h)
        (pending-next_request_id d)

  Idle-issue_if_bound :
      (t : Turn) (key : ℕ) (d : SessionDriver) (state : StreamState)
      → IsTracked d
      → Idle w d (issue_if_bound t key d state)
  Idle-issue_if_bound t key d establishing h = omega arith
  Idle-issue_if_bound t key d bound h = Idle-issue_subscription w t key d h

  -- The messages that a command hands over.
  abbrev pub commanded : SessionCommand → ℕ
  commanded (SessionCommand.send_message m) = w (name_of m.sequence) m.msg_prog
  commanded (SessionCommand.subscribe key spec) = 0
  commanded (SessionCommand.unsubscribe key) = 0
  commanded (SessionCommand.reconfigure key limit) = 0
  commanded (SessionCommand.force_rebind close_socket) = 0
  commanded (SessionCommand.destroy cause) = 0
  commanded SessionCommand.shutdown = 0

  pub Balances-on_command :
      (t : Turn) (c : SessionCommand) (d : SessionDriver)
      → IsTracked d
      → (let (d', events, flow) = on_command t c d in Balances w d d' events (commanded c) 0)
  unfolding on_command
  Balances-on_command t (SessionCommand.subscribe key spec) d h =
      Idle-issue_if_bound t key (added d key spec) d.stream_state h
  Balances-on_command t (SessionCommand.unsubscribe key) d h = Idle-unsubscribe_key w t key d h
  Balances-on_command t (SessionCommand.reconfigure key limit) d h =
      Idle-reconfigure_key w t key limit d h
  Balances-on_command t (SessionCommand.send_message m) d h =
      omega (
        arith,
        Balances-submit w t m d h,
        ap (λ s. w s m.msg_prog) (name_of-sequence_of m.sequence),
      )
  Balances-on_command t (SessionCommand.force_rebind close_socket) d h =
      Idle-rebind_in t close_socket d d.stream_state d.session h
  Balances-on_command t (SessionCommand.destroy cause) d h = Idle-destroy_in t cause d d.session h
  Balances-on_command t SessionCommand.shutdown d h = omega arith
