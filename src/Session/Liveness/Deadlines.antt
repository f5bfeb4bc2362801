-- ===== src/Session/Liveness/Deadlines.antt =====
-- What `due` answers, and what the deadline promises about it.
use lightstreamer_rs.Base.{
  ◌+◌, ◌≤◌, ◌<◌, ◌≡◌, ◌≢◌, ◌↔◌, inl, inr, refl, arith, Option, none, some, List, [], ◌∷◌, All,
  Option-cases, if◌then◌else◌,
}
use lightstreamer_rs.Session.Time.{Duration}
use lightstreamer_rs.Session.Liveness.{
  Instant, LivenessAction, idle, send_heartbeat, inbound_stalled, Liveness, deadline, deadline_of,
  next_deadline, due, on_stream_opened, on_bound, on_stream_closed, on_inbound, on_outbound,
  bound_budget, earlier, is_due, stalled,
}

-- What the driver tells the clocks.
pub data Event : Type 0 where
  opened : (open_timeout : Duration) → Instant → Event
  bound : (keep_alive : Duration) → Instant → Event
  closed : Event
  inbound : Instant → Event
  outbound : Instant → Event

abbrev pub handle : Liveness → Event → Liveness
handle l (opened open_timeout now) = on_stream_opened l open_timeout now
handle l (bound keep_alive now) = on_bound l keep_alive now
handle l closed = on_stream_closed l
handle l (inbound now) = on_inbound l now
handle l (outbound now) = on_outbound l now

abbrev pub run : Liveness → List Event → Liveness
run l [] = l
run l (event ∷ events) = run (handle l event) events

-- Nothing comes from the server: requests leave, and that is all.
abbrev pub IsMute : Event → Type 0
IsMute (opened open_timeout now) = ⊥
IsMute (bound keep_alive now) = ⊥
IsMute closed = ⊥
IsMute (inbound now) = ⊥
IsMute (outbound now) = Unit

run-IsMute :
    (l : Liveness) (events : List Event)
    → All IsMute events
    → ((run l events).inbound_budget ≡ l.inbound_budget)
      × ((run l events).last_inbound ≡ l.last_inbound)
unfolding on_outbound
run-IsMute l [] h = (refl, refl)
run-IsMute l (opened open_timeout now ∷ events) (never, h) = absurd never
run-IsMute l (bound keep_alive now ∷ events) (never, h) = absurd never
run-IsMute l (closed ∷ events) (never, h) = absurd never
run-IsMute l (inbound now ∷ events) (never, h) = absurd never
run-IsMute l (outbound now ∷ events) (quiet, h) = run-IsMute (on_outbound l now) events h

module _ (instant_add : Instant → Duration → Option Instant) where
  -- Whether an optional instant has come.
  abbrev pub Passed : Option Instant → Instant → Type 0
  Passed none now = ⊥
  Passed (some at) now = at ≤ now

  abbrev answer : Instant → Option Duration → Instant → Option Duration → Instant → LivenessAction
  answer last_inbound budget last_outbound every now =
      if is_due instant_add last_inbound budget now
      then stalled instant_add budget
      else if is_due instant_add last_outbound every now
      then send_heartbeat
      else idle

  answer-earlier :
      (last_inbound : Instant) (budget : Option Duration) (last_outbound : Instant)
      (every : Option Duration) (now : Instant)
      → (answer last_inbound budget last_outbound every now ≢ idle)
        ↔ Passed
            (earlier instant_add
              (deadline_of instant_add last_inbound budget)
              (deadline_of instant_add last_outbound every))
            now
  answer-earlier last_inbound none last_outbound none now = ground arith
  answer-earlier last_inbound none last_outbound (some every) now = ground arith
  answer-earlier last_inbound (some budget) last_outbound none now = ground arith
  answer-earlier last_inbound (some budget) last_outbound (some every) now = ground arith

  -- Something is due exactly if the next deadline has passed: a driver that sleeps until the
  -- deadline neither wakes for nothing nor misses an action.
  pub due-next_deadline :
      (l : Liveness) (now : Instant)
      → (due instant_add l now ≢ idle) ↔ Passed (next_deadline instant_add l) now
  unfolding due next_deadline
  due-next_deadline l now =
      answer-earlier l.last_inbound l.inbound_budget l.last_outbound l.heartbeat_every now

  due-stalled :
      (l : Liveness) (now : Instant) (budget : Duration)
      → l.inbound_budget ≡ some budget
      → deadline instant_add l.last_inbound budget ≤ now
      → due instant_add l now ≡ inbound_stalled budget
  unfolding due
  due-stalled l now budget e le = ground arith

  -- A bound stream from which nothing comes within the keep-alive and the slack is reported as
  -- stalled, whatever is sent meanwhile, and even where a heartbeat is due too.
  pub due-mute :
      (l : Liveness) (keep_alive : Duration) (since now : Instant) (events : List Event)
      → All IsMute events
      → deadline instant_add since (bound_budget keep_alive l.slack) ≤ now
      → due instant_add (run (on_bound l keep_alive since) events) now
        ≡ inbound_stalled (bound_budget keep_alive l.slack)
  unfolding on_bound
  due-mute l keep_alive since now events h le =
      let quiet = run-IsMute (on_bound l keep_alive since) events h in
      due-stalled (run (on_bound l keep_alive since) events) now (bound_budget keep_alive l.slack)
        quiet.0 (rw quiet.1 le)

  -- If a clock's sum is the sum of its parts and the clock reaches far enough, a stream is not
  -- reported as stalled before its budget has gone by since its clock was last set.
  pub due-heard :
      (l : Liveness) (now : Instant) (budget : Duration)
      → ((from at : Instant) (d : Duration) → instant_add from d ≡ some at → at ≡ from + d)
      → l.inbound_budget ≡ some budget
      → instant_add l.last_inbound budget ≢ none
      → now < l.last_inbound + budget
      → due instant_add l now ≢ inbound_stalled budget
  unfolding due
  due-heard l now budget sum e reached lt =
      elim (Option-cases (instant_add l.last_inbound budget)) [
        | inl f ↦ absurd (reached f)
        | inr (at, f) ↦ let s = sum l.last_inbound at budget f in ground arith
      ]
