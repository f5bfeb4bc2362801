-- ===== src/Session/Driver/Messages/Totals.antt =====
-- Where all the messages are that a driver has been handed.
use lightstreamer_rs.Base.{
  ℕ, ◌+◌, ◌≡◌, refl, ap, arith, Bool, true, false, Option, none, some, List, [], ltb, if◌then◌else◌,
}
use lightstreamer_rs.Session.Liveness.{on_stream_closed}
use lightstreamer_rs.Session.Outcomes.{UnbindReason, connection_failed}
use lightstreamer_rs.Session.Events.{SessionEvent}
use lightstreamer_rs.Session.Options.{SessionOptions}
use lightstreamer_rs.Session.Driver.{
  SessionDriver, StreamState, Reopen, continue, unbind, closed, plan_after, begin_opening,
}
use lightstreamer_rs.Session.Driver.Dispatch.{Turn, Stepped}
use lightstreamer_rs.Session.Driver.Commands.{on_command, Flowing}
use lightstreamer_rs.Session.Driver.Turns.{
  Woke, line, line_failed, lines_ended, command, commands_closed, stop, timer, on_woke,
}
use lightstreamer_rs.Session.Driver.Sound.Numbers.{IsTracked, ledger}
use lightstreamer_rs.Session.Driver.Sound.Frames.{Frame-plan_after}
use lightstreamer_rs.Session.Driver.Messages.{messages, reported, reported-append}
use lightstreamer_rs.Session.Driver.Messages.Steps.{Balances}
use lightstreamer_rs.Session.Driver.Opening.{TransportProperties, new_driver}
use lightstreamer_rs.Session.Driver.Drive.{
  Phase, waiting, pumping, ended, Opened, established, failed, stopped, Input, woke, waited, finish,
  unbound_with, after_stream, asked, opened_as, waited_on, pumped, wait_woke, step, Reach, start,
  next,
}
use lightstreamer_rs.Session.Driver.Messages.Commands.{commanded, Balances-on_command}
use lightstreamer_rs.Session.Driver.Messages.Turns.{handed_over, acknowledged_in, Balances-on_woke}
use lightstreamer_rs.Session.Driver.Sound.Always.{IsKept-Reach}
use lightstreamer_rs.Protocol.Notifications.{MessageSequence}

module _ (weight : MessageSequence → Option ℕ → ℕ) where
  -- The messages that a step hands over, and those that it acknowledges.
  abbrev pub taken_up : Input → Phase → ℕ
  taken_up (woke w) pumping = handed_over weight w
  taken_up (woke w) (waiting reopen) = if ltb 0 reopen.delay then handed_over weight w else 0
  taken_up other phase = 0

  abbrev pub acked : SessionDriver → Input → Phase → ℕ
  acked d (woke w) pumping = acknowledged_in weight d w
  acked d other phase = 0

  Idle-unbound_with :
      (d : SessionDriver) (reason : UnbindReason) (plan : SessionDriver × Option Reopen)
      → ledger plan.0 ≡ ledger d
      → (let (d', events, phase) = unbound_with reason plan in Balances weight d d' events 0 0)
  Idle-unbound_with d reason (d', none) e = omega (arith, ap (λ l. messages weight l.0) e)
  Idle-unbound_with d reason (d', some reopen) e = omega (arith, ap (λ l. messages weight l.0) e)

  Idle-after_stream :
      (d : SessionDriver) (reason : UnbindReason)
      → (let (d', events, phase) = after_stream d reason in Balances weight d d' events 0 0)
  unfolding after_stream
  Idle-after_stream d reason =
      let d' : SessionDriver = record d {
        liveness = on_stream_closed d.liveness;
        stream_state = StreamState.establishing;
      } in
      Idle-unbound_with d reason (plan_after d' reason) (Frame-plan_after d' reason).1

  Idle-opened_as :
      (t : Turn) (d : SessionDriver) (opened : Opened)
      → (let (d', events, phase) = opened_as t d opened in Balances weight d d' events 0 0)
  Idle-opened_as t d established = omega arith
  Idle-opened_as t d failed = Idle-after_stream d connection_failed
  Idle-opened_as t d stopped = omega arith

  Balances-waited_on :
      (d : SessionDriver) (reopen : Reopen) (flowing : Flowing) (n : ℕ)
      → Balances weight d flowing.0 flowing.1 n 0
      → (let (d', events, phase) = waited_on reopen flowing in Balances weight d d' events n 0)
  Balances-waited_on d reopen (d', events, continue) n b = b
  Balances-waited_on d reopen (d', events, unbind reason) n b = b
  Balances-waited_on d reopen (d', events, closed reason) n b = b

  Balances-pumped :
      (d : SessionDriver) (flowing : Flowing) (n a : ℕ)
      → Balances weight d flowing.0 flowing.1 n a
      → (let (d', events, phase) = pumped flowing in Balances weight d d' events n a)
  Balances-pumped d (d', events, continue) n a b = b
  Balances-pumped d (d', events, unbind reason) n a b =
      omega (
        arith,
        Idle-after_stream d' reason,
        reported-append weight events (after_stream d' reason).1,
      )
  Balances-pumped d (d', events, closed reason) n a b = b

  Balances-wait_woke :
      (t : Turn) (w : Woke) (reopen : Reopen) (d : SessionDriver)
      → IsTracked d
      → (let (d', events, phase) = wait_woke t w reopen d in
          Balances weight d d' events (handed_over weight w) 0)
  Balances-wait_woke t (command c) reopen d h =
      Balances-waited_on d reopen (on_command t c d) (commanded weight c)
        (Balances-on_command weight t c d h)
  Balances-wait_woke t stop reopen d h = omega arith
  Balances-wait_woke t commands_closed reopen d h = omega arith
  Balances-wait_woke t (line text) reopen d h = omega arith
  Balances-wait_woke t line_failed reopen d h = omega arith
  Balances-wait_woke t lines_ended reopen d h = omega arith
  Balances-wait_woke t timer reopen d h = omega arith

  if-Balances :
      (d : SessionDriver) (b : Bool) (x y : Stepped Phase) (n : ℕ)
      → Balances weight d x.0 x.1 n 0
      → Balances weight d y.0 y.1 0 0
      → (let (d', events, phase) = (if b then x else y) in
          Balances weight d d' events (if b then n else 0) 0)
  if-Balances d true x y n bx by = bx
  if-Balances d false x y n bx by = by

  Balances-step :
      (t : Turn) (i : Input) (phase : Phase) (d : SessionDriver)
      → IsTracked d
      → (let (d', events, phase') = step t i phase d in
          Balances weight d d' events (taken_up i phase) (acked d i phase))
  unfolding step begin_opening
  Balances-step t (waited opened) (waiting reopen) d h =
      Idle-opened_as t (asked d reopen.intent) opened
  Balances-step t (woke w) (waiting reopen) d h =
      if-Balances d (ltb 0 reopen.delay) (wait_woke t w reopen d) (d, [], waiting reopen)
        (handed_over weight w) (Balances-wait_woke t w reopen d h) (omega arith)
  Balances-step t (woke w) pumping d h =
      Balances-pumped d (on_woke t w d) (handed_over weight w) (acknowledged_in weight d w)
        (Balances-on_woke weight t w d h)
  Balances-step t finish (ended reason) d h = omega arith
  Balances-step t other phase d h = omega arith

  -- All the messages handed over, and all those acknowledged, on the way to a state.
  module _ {properties : TransportProperties} {options : SessionOptions} where
    abbrev pub all_taken_up :
        {phase : Phase} {d : SessionDriver} {events : List SessionEvent}
        → Reach properties options phase d events
        → ℕ
    all_taken_up (start seed now) = 0
    all_taken_up (next {phase = p} t i reach own) = all_taken_up reach + taken_up i p

    abbrev pub all_acked :
        {phase : Phase} {d : SessionDriver} {events : List SessionEvent}
        → Reach properties options phase d events
        → ℕ
    all_acked (start seed now) = 0
    all_acked (next {phase = p} {d = d} t i reach own) = all_acked reach + acked d i p

  -- At all times of a driver whose client gives each subscription a new key, for every way to weigh a
  -- message by its sequence and its number: the messages that the driver has been handed weigh as much
  -- as those that wait for an answer of the server, those that it has acknowledged, and those that an
  -- event has reported as refused or not sent, together. So of the messages with any sequence and
  -- number, none is lost, and none is accounted for twice.
  pub messages-Reach :
      (properties : TransportProperties) (options : SessionOptions) (phase : Phase)
      (d : SessionDriver) (events : List SessionEvent) (r : Reach properties options phase d events)
      → messages weight d.pending + reported weight events + all_acked r ≡ all_taken_up r
  unfolding new_driver
  messages-Reach properties options phase d events (start seed now) = refl
  messages-Reach properties options phase d events
        (next {phase = p} {d = d₀} {events = es} t i reach own) =
      omega (
        arith,
        messages-Reach properties options p d₀ es reach,
        Balances-step t i p d₀ (IsKept-Reach properties options p d₀ es reach).1,
        reported-append weight es (step t i p d₀).1,
      )
