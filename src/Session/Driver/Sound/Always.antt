-- ===== src/Session/Driver/Sound/Always.antt =====
-- What holds of the driver at all times.
use lightstreamer_rs.Base.{
  ℕ, ◌≡◌, Bool, true, false, Option, none, some, List, [], ltb, if◌then◌else◌,
}
use lightstreamer_rs.Session.Liveness.{on_stream_closed}
use lightstreamer_rs.Session.Events.{SessionEvent}
use lightstreamer_rs.Session.Outcomes.{UnbindReason, connection_failed}
use lightstreamer_rs.Session.Options.{SessionOptions}
use lightstreamer_rs.Session.Registry.{get}
use lightstreamer_rs.Session.Driver.{
  SessionDriver, StreamState, OpenIntent, Reopen, continue, unbind, closed, plan_after,
  begin_opening,
}
use lightstreamer_rs.Session.Driver.Dispatch.{Turn, Stepped}
use lightstreamer_rs.Session.Driver.Commands.{Flowing, on_command}
use lightstreamer_rs.Session.Driver.Turns.{
  Woke, line, line_failed, lines_ended, command, commands_closed, stop, timer, on_woke,
}
use lightstreamer_rs.Session.Driver.Opening.{TransportProperties, new_driver}
use lightstreamer_rs.Session.Driver.Drive.{
  Phase, waiting, pumping, ended, Opened, established, failed, stopped, Input, woke, waited, finish,
  unbound_with, after_stream, asked, opened_as, waited_on, pumped, wait_woke, step, IsNew, Reach,
  start, next,
}
use lightstreamer_rs.Session.Driver.Sound.Frames.{IsKept, IsKept-Frame, Frame-plan_after}
use lightstreamer_rs.Session.Driver.Sound.Kept.{IsKept-on_line, IsKept-on_timer}
use lightstreamer_rs.Session.Driver.Sound.Commands.{IsKept-on_command}

IsKept-on_woke :
    (t : Turn) (w : Woke) (d : SessionDriver)
    → IsNew d (woke w)
    → IsKept d
    → IsKept (on_woke t w d).0
unfolding on_woke
IsKept-on_woke t (line text) d own k = IsKept-on_line t text d k
IsKept-on_woke t line_failed d own k = k
IsKept-on_woke t lines_ended d own k = k
IsKept-on_woke t (command c) d own k = IsKept-on_command t c d own k
IsKept-on_woke t commands_closed d own k = k
IsKept-on_woke t stop d own k = k
IsKept-on_woke t timer d own k = IsKept-on_timer t d k

IsKept-unbound_with :
    (reason : UnbindReason) (plan : SessionDriver × Option Reopen)
    → IsKept plan.0
    → IsKept (unbound_with reason plan).0
IsKept-unbound_with reason (d, none) k = k
IsKept-unbound_with reason (d, some reopen) k = k

IsKept-after_stream :
    (d : SessionDriver) (reason : UnbindReason) → IsKept d → IsKept (after_stream d reason).0
unfolding after_stream
IsKept-after_stream d reason k =
    let d' : SessionDriver = record d {
      liveness = on_stream_closed d.liveness;
      stream_state = StreamState.establishing;
    } in
    IsKept-unbound_with reason (plan_after d' reason)
      (IsKept-Frame d' (plan_after d' reason).0 (Frame-plan_after d' reason) k)

IsKept-asked : (d : SessionDriver) (intent : OpenIntent) → IsKept d → IsKept (asked d intent)
unfolding begin_opening
IsKept-asked d intent k = k

IsKept-opened_as :
    (t : Turn) (d : SessionDriver) (opened : Opened) → IsKept d → IsKept (opened_as t d opened).0
IsKept-opened_as t d established k = k
IsKept-opened_as t d failed k = IsKept-after_stream d connection_failed k
IsKept-opened_as t d stopped k = k

IsKept-waited_on :
    (reopen : Reopen) (flowing : Flowing) → IsKept flowing.0 → IsKept (waited_on reopen flowing).0
IsKept-waited_on reopen (d, events, continue) k = k
IsKept-waited_on reopen (d, events, unbind reason) k = k
IsKept-waited_on reopen (d, events, closed reason) k = k

IsKept-pumped : (flowing : Flowing) → IsKept flowing.0 → IsKept (pumped flowing).0
IsKept-pumped (d, events, continue) k = k
IsKept-pumped (d, events, unbind reason) k = IsKept-after_stream d reason k
IsKept-pumped (d, events, closed reason) k = k

IsKept-wait_woke :
    (t : Turn) (w : Woke) (reopen : Reopen) (d : SessionDriver)
    → IsNew d (woke w)
    → IsKept d
    → IsKept (wait_woke t w reopen d).0
IsKept-wait_woke t (command c) reopen d own k =
    IsKept-waited_on reopen (on_command t c d) (IsKept-on_command t c d own k)
IsKept-wait_woke t stop reopen d own k = k
IsKept-wait_woke t commands_closed reopen d own k = k
IsKept-wait_woke t (line text) reopen d own k = k
IsKept-wait_woke t line_failed reopen d own k = k
IsKept-wait_woke t lines_ended reopen d own k = k
IsKept-wait_woke t timer reopen d own k = k

if-phase :
    (b : Bool) (x y : Stepped Phase) → IsKept x.0 → IsKept y.0 → IsKept (if b then x else y).0
if-phase true x y kx ky = kx
if-phase false x y kx ky = ky

IsKept-step :
    (t : Turn) (i : Input) (phase : Phase) (d : SessionDriver)
    → IsNew d i
    → IsKept d
    → IsKept (step t i phase d).0
unfolding step
IsKept-step t (waited opened) (waiting reopen) d own k =
    IsKept-opened_as t (asked d reopen.intent) opened (IsKept-asked d reopen.intent k)
IsKept-step t (woke w) (waiting reopen) d own k =
    if-phase (ltb 0 reopen.delay) (wait_woke t w reopen d) (d, [], waiting reopen)
      (IsKept-wait_woke t w reopen d own k) k
IsKept-step t (woke w) pumping d own k = IsKept-pumped (on_woke t w d) (IsKept-on_woke t w d own k)
IsKept-step t finish (ended reason) d own k = k
IsKept-step t other phase d own k = k

IsKept-new_driver :
    (properties : TransportProperties) (options : SessionOptions) (seed now : ℕ)
    → IsKept (new_driver properties options seed now)
unfolding new_driver get
IsKept-new_driver properties options seed now = (
  record {
    linked = λ sub_id key found. (let no : none ≡ some key = found in cc);
    held = λ key sub_id entry found wire. (let no : none ≡ some entry = found in cc);
    ordered = tt;
  },
  (tt, tt),
)

-- At all times of a driver whose client gives each subscription a new key, whatever wakes the driver,
-- however its streams end and whatever the transport takes: the numbers of the subscriptions of its
-- session and the entries that hold them correspond one to one, and the keys of the entries ascend;
-- each control request that the transport has taken has a number below those after it; and the
-- requests that wait for an answer have numbers of their own and were sent in this session.
pub IsKept-Reach :
    (properties : TransportProperties) (options : SessionOptions) (phase : Phase)
    (d : SessionDriver) (events : List SessionEvent)
    → Reach properties options phase d events
    → IsKept d
IsKept-Reach properties options phase d events (start seed now) =
    IsKept-new_driver properties options seed now
IsKept-Reach properties options phase d events
      (next {phase = p} {d = d₀} {events = es} t i reach own) =
    IsKept-step t i p d₀ own (IsKept-Reach properties options p d₀ es reach)
