-- ===== src/Session/Liveness.antt =====
-- src/session/liveness.rs: the clocks that tell when a stream has gone quiet and when a heartbeat is
-- due. `Instant::checked_add` is a parameter: how far the clock reaches is the platform's.
pub mod Deadlines
pub mod Examples
use lightstreamer_rs.Base.{ℕ, min, Bool, true, false, Option, none, some, leb, if◌then◌else◌}
use lightstreamer_rs.Session.Time.{Duration, duration_add}

abbrev pub Instant : Type 0
Instant = ℕ

pub data LivenessAction : Type 0 where
  idle : LivenessAction
  send_heartbeat : LivenessAction
  inbound_stalled : (budget : Duration) → LivenessAction

pub record Liveness : Type 0 where
  pub slack : Duration
  pub inbound_budget : Option Duration
  pub last_inbound : Instant
  pub heartbeat_every : Option Duration
  pub last_outbound : Instant

unfoldable pub new : Duration → Option Duration → Instant → Liveness
new slack heartbeat_every now = record {
  slack = slack;
  inbound_budget = none;
  last_inbound = now;
  heartbeat_every = heartbeat_every;
  last_outbound = now;
}

unfoldable pub on_stream_opened : Liveness → Duration → Instant → Liveness
on_stream_opened l open_timeout now = record {
  slack = l.slack;
  inbound_budget = some open_timeout;
  last_inbound = now;
  heartbeat_every = l.heartbeat_every;
  last_outbound = l.last_outbound;
}

-- The keep-alive with the slack, or alone where a `Duration` does not hold the sum.
abbrev pub bound_budget : Duration → Duration → Duration
bound_budget keep_alive slack = elim (duration_add keep_alive slack) [
  | none ↦ keep_alive
  | some budget ↦ budget
]

unfoldable pub on_bound : Liveness → Duration → Instant → Liveness
on_bound l keep_alive now = record {
  slack = l.slack;
  inbound_budget = some (bound_budget keep_alive l.slack);
  last_inbound = now;
  heartbeat_every = l.heartbeat_every;
  last_outbound = l.last_outbound;
}

unfoldable pub on_stream_closed : Liveness → Liveness
on_stream_closed l = record {
  slack = l.slack;
  inbound_budget = none;
  last_inbound = l.last_inbound;
  heartbeat_every = l.heartbeat_every;
  last_outbound = l.last_outbound;
}

unfoldable pub on_inbound : Liveness → Instant → Liveness
on_inbound l now = record {
  slack = l.slack;
  inbound_budget = l.inbound_budget;
  last_inbound = now;
  heartbeat_every = l.heartbeat_every;
  last_outbound = l.last_outbound;
}

unfoldable pub on_outbound : Liveness → Instant → Liveness
on_outbound l now = record {
  slack = l.slack;
  inbound_budget = l.inbound_budget;
  last_inbound = l.last_inbound;
  heartbeat_every = l.heartbeat_every;
  last_outbound = now;
}

module _ (instant_add : Instant → Duration → Option Instant) where
  abbrev pub deadline : Instant → Duration → Instant
  deadline from budget = elim (instant_add from budget) [ none ↦ from | some at ↦ at ]

  -- The deadline of a clock, where it is armed.
  abbrev pub deadline_of : Instant → Option Duration → Option Instant
  deadline_of from none = none
  deadline_of from (some budget) = some (deadline from budget)

  abbrev pub earlier : Option Instant → Option Instant → Option Instant
  earlier (some a) (some b) = some (min a b)
  earlier (some a) none = some a
  earlier none other = other

  unfoldable pub next_deadline : Liveness → Option Instant
  next_deadline l =
      earlier (deadline_of l.last_inbound l.inbound_budget)
        (deadline_of l.last_outbound l.heartbeat_every)

  -- Whether a clock is armed and its deadline has passed.
  abbrev pub is_due : Instant → Option Duration → Instant → Bool
  is_due from none now = false
  is_due from (some budget) now = leb (deadline from budget) now

  abbrev pub stalled : Option Duration → LivenessAction
  stalled none = idle
  stalled (some budget) = inbound_stalled budget

  unfoldable pub due : Liveness → Instant → LivenessAction
  due l now =
      if is_due l.last_inbound l.inbound_budget now
      then stalled l.inbound_budget
      else if is_due l.last_outbound l.heartbeat_every now
      then send_heartbeat
      else idle
