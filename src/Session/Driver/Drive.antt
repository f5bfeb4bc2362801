-- ===== src/Session/Driver/Drive.antt =====
-- src/session/mod.rs: `run`, the loop of the driver, as the steps between its phases.
pub mod Examples
use lightstreamer_rs.Base.{
  ℕ, false, Option, ◌≡◌, ltb, if◌then◌else◌, none, some, List, [], ◌∷◌, ◌++◌,
}
use lightstreamer_rs.Session.Liveness.{on_stream_opened, on_stream_closed}
use lightstreamer_rs.Session.Outcomes.{
  UnbindReason, connection_failed, SessionClosed, by_client, retries_exhausted,
}
use lightstreamer_rs.Session.Options.{SessionOptions}
use lightstreamer_rs.Session.Events.{SessionEvent, unbound}
use lightstreamer_rs.Session.Registry.{get}
use lightstreamer_rs.Session.Driver.{
  SessionDriver, StreamState, OpenIntent, Reopen, continue, unbind, closed, plan_after,
  begin_opening,
}
use lightstreamer_rs.Session.Driver.Dispatch.{Turn, Stepped}
use lightstreamer_rs.Session.Driver.Commands.{SessionCommand, Flowing, on_command}
use lightstreamer_rs.Session.Driver.Turns.{Woke, command, stop, commands_closed, on_woke}
use lightstreamer_rs.Session.Driver.Opening.{
  TransportProperties, new_driver, establishment_budget, build_open,
}

-- Waiting to open a stream, reading one, ended but for the last event, and over.
pub data Phase : Type 0 where
  waiting : Reopen → Phase
  pumping : Phase
  ended : SessionClosed → Phase
  over : Phase

pub data Opened : Type 0 where
  established : Opened
  failed : Opened
  stopped : Opened

-- `waited`: the delay is over, and the transport has been asked for a stream. The last event is sent
-- by `finish`.
pub data Input : Type 0 where
  woke : Woke → Input
  waited : Opened → Input
  finish : Input

abbrev pub unbound_with : UnbindReason → SessionDriver × Option Reopen → Stepped Phase
unbound_with reason (d, some reopen) = (d, unbound reason (some reopen.delay) ∷ [], waiting reopen)
unbound_with reason (d, none) =
    (d, unbound reason none ∷ [], ended (retries_exhausted d.backoff.attempts (some reason)))

unfoldable pub after_stream : SessionDriver → UnbindReason → Stepped Phase
after_stream d reason = unbound_with reason (
    plan_after
      (record d { liveness = on_stream_closed d.liveness; stream_state = StreamState.establishing })
      reason)

-- The driver that has asked its transport for a stream.
abbrev pub asked : SessionDriver → OpenIntent → SessionDriver
asked d intent =
    let d' = begin_opening d intent in
    record d' {
      transport = record (d'.transport) { opens = build_open d intent ∷ d'.transport.opens };
    }

abbrev pub opened_as : Turn → SessionDriver → Opened → Stepped Phase
opened_as t d established = (
  record d { liveness = on_stream_opened d.liveness (establishment_budget d) t.now },
  [],
  pumping,
)
opened_as t d failed = after_stream d connection_failed
opened_as t d stopped = (d, [], ended (by_client false none))

-- A command during the delay. Only an end of the session ends the wait.
abbrev pub waited_on : Reopen → Flowing → Stepped Phase
waited_on reopen (d, events, continue) = (d, events, waiting reopen)
waited_on reopen (d, events, unbind reason) = (d, events, waiting reopen)
waited_on reopen (d, events, closed reason) = (d, events, ended reason)

abbrev pub with_events : List SessionEvent → Stepped Phase → Stepped Phase
with_events events (d, events', phase) = (d, events ++ events', phase)

abbrev pub pumped : Flowing → Stepped Phase
pumped (d, events, continue) = (d, events, pumping)
pumped (d, events, unbind reason) = with_events events (after_stream d reason)
pumped (d, events, closed reason) = (d, events, ended reason)

-- What can wake the driver during a delay, if there is one. A line that comes then is not read.
abbrev pub wait_woke : Turn → Woke → Reopen → SessionDriver → Stepped Phase
wait_woke t (command c) reopen d = waited_on reopen (on_command t c d)
wait_woke t stop reopen d = (d, [], ended (by_client false none))
wait_woke t commands_closed reopen d = (d, [], ended (by_client false none))
wait_woke t other reopen d = (d, [], waiting reopen)

unfoldable pub step : Turn → Input → Phase → SessionDriver → Stepped Phase
step t (waited opened) (waiting reopen) d = opened_as t (asked d reopen.intent) opened
step t (woke w) (waiting reopen) d =
    if ltb 0 reopen.delay then wait_woke t w reopen d else (d, [], waiting reopen)
step t (woke w) pumping d = pumped (on_woke t w d)
step t finish (ended reason) d = (d, SessionEvent.closed reason ∷ [], over)
step t other phase d = (d, [], phase)

-- The first plan of `drive`.
abbrev pub first : Reopen
first = record { intent = OpenIntent.create; delay = 0 }

-- The handle gives each subscription a key of its own.
abbrev pub IsNew : SessionDriver → Input → Type 0
IsNew d (woke (command (SessionCommand.subscribe key spec))) = get d.registry.entries key ≡ none
IsNew d other = Unit

-- What a driver can come to, from its start, and the events so far.
pub data Reach (properties : TransportProperties) (options : SessionOptions)
    : Phase → SessionDriver → List SessionEvent → Type 0 where
  start :
      (seed now : ℕ)
      → Reach properties options (waiting first) (new_driver properties options seed now) []
  next :
      {phase : Phase} {d : SessionDriver} {events : List SessionEvent} (t : Turn) (i : Input)
      → Reach properties options phase d events
      → IsNew d i
      → Reach properties options
          (step t i phase d).2
          (step t i phase d).0
          (events ++ (step t i phase d).1)
