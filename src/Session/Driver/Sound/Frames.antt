-- ===== src/Session/Driver/Sound/Frames.antt =====
-- The steps that leave the registry and the numbers of requests alone.
use lightstreamer_rs.Base.{
  ℕ, ◌≡◌, refl, sym, subst, arith, Bool, true, false, Option, none, some, leb, if◌then◌else◌,
}
use lightstreamer_rs.Session.Time.{Duration}
use lightstreamer_rs.Session.Backoff.{Backoff, next_delay, is_spent}
use lightstreamer_rs.Session.Outcomes.{
  ServerCause, Recovery, recreate_session, retry_later, fatal, classify, UnbindReason,
  forced_by_client, content_length_reached, poll_cycle_expired, looped, connection_failed,
  keepalive_expired, rejected, server_refresh,
}
use lightstreamer_rs.Session.Driver.{
  SessionDriver, OpenIntent, rebind, recover, delayed, plan_after, saturating_add_one, on_end,
  ended_with, on_connection_error, refused_with, loop_reason, on_prog, on_prog_for,
}
use lightstreamer_rs.Session.Driver.Sound.{IsSound}
use lightstreamer_rs.Session.Driver.Sound.Numbers.{IsTracked, ledger, IsTracked-ledger}

-- What holds of a driver at all times.
abbrev pub IsKept : SessionDriver → Type 0
IsKept d = IsSound d.registry × IsTracked d

-- A step that leaves both alone.
abbrev pub Frame : SessionDriver → SessionDriver → Type 0
Frame d d' = (d'.registry ≡ d.registry) × (ledger d' ≡ ledger d)

pub IsKept-Frame : (d d' : SessionDriver) → Frame d d' → IsKept d → IsKept d'
IsKept-Frame d d' (e, l) (s, h) = (subst IsSound (sym e) s, IsTracked-ledger d d' l h)

Frame-delayed :
    (d : SessionDriver) (intent : OpenIntent) (drawn : Backoff × Option Duration)
    → Frame d (delayed d intent drawn).0
Frame-delayed d intent (b, none) = (refl, refl)
Frame-delayed d intent (b, some delay) = (refl, refl)

if-Frame :
    {A : Type 0} (d : SessionDriver) (b : Bool) (x y : SessionDriver × A)
    → Frame d x.0
    → Frame d y.0
    → Frame d (if b then x else y).0
if-Frame d true x y fx fy = fx
if-Frame d false x y fx fy = fy

pub Frame-plan_after : (d : SessionDriver) (reason : UnbindReason) → Frame d (plan_after d reason).0
unfolding plan_after
Frame-plan_after d (forced_by_client delay) = (refl, refl)
Frame-plan_after d (content_length_reached delay) = (refl, refl)
Frame-plan_after d (poll_cycle_expired delay) = (refl, refl)
Frame-plan_after d (looped delay) = (refl, refl)
Frame-plan_after d connection_failed =
    Frame-delayed (record d { refresh_streak = 0 }) _ (next_delay d.backoff)
Frame-plan_after d (keepalive_expired budget) =
    Frame-delayed (record d { refresh_streak = 0 }) _ (next_delay d.backoff)
Frame-plan_after d (rejected cause) =
    Frame-delayed (record d { refresh_streak = 0 }) _ (next_delay d.backoff)
Frame-plan_after d (server_refresh cause) =
    let d' : SessionDriver = record d { refresh_streak = saturating_add_one d.refresh_streak } in
    if-Frame d (leb d'.refresh_streak 1) _ _ (refl, refl)
      (if-Frame d (is_spent d.policy.max_attempts d'.refresh_streak) _ _ (refl, refl)
        (Frame-delayed d' OpenIntent.create (next_delay d'.backoff)))

Frame-ended_with :
    (d : SessionDriver) (cause : ServerCause) (recovery : Recovery)
    → Frame d (ended_with d cause recovery).0
Frame-ended_with d cause recreate_session = (refl, refl)
Frame-ended_with d cause retry_later = (refl, refl)
Frame-ended_with d cause fatal = (refl, refl)

pub Frame-on_end : (d : SessionDriver) (cause : ServerCause) → Frame d (on_end d cause).0
unfolding on_end
Frame-on_end d cause =
    if-Frame d d.destroy_requested _ _ (refl, refl) (Frame-ended_with d cause (classify cause.code))

Frame-refused_with :
    (d : SessionDriver) (cause : ServerCause) (recovery : Recovery)
    → Frame d (refused_with d cause recovery).0
Frame-refused_with d cause fatal = (refl, refl)
Frame-refused_with d cause recreate_session = (refl, refl)
Frame-refused_with d cause retry_later = (refl, refl)

pub Frame-on_connection_error :
    (d : SessionDriver) (cause : ServerCause) → Frame d (on_connection_error d cause).0
unfolding on_connection_error
Frame-on_connection_error d cause = Frame-refused_with d cause (classify cause.code)

pub Frame-loop_reason : (d : SessionDriver) (delay : Duration) → Frame d (loop_reason d delay).0
unfolding loop_reason
Frame-loop_reason d delay = ground arith

Frame-on_prog_for :
    (d : SessionDriver) (resumed_at : ℕ) (intent : OpenIntent)
    → Frame d (on_prog_for d resumed_at intent).0
Frame-on_prog_for d resumed_at OpenIntent.create = (refl, refl)
Frame-on_prog_for d resumed_at rebind = (refl, refl)
Frame-on_prog_for d resumed_at (recover requested) = ground arith

pub Frame-on_prog : (d : SessionDriver) (resumed_at : ℕ) → Frame d (on_prog d resumed_at).0
unfolding on_prog
Frame-on_prog d resumed_at = Frame-on_prog_for d resumed_at d.intent
