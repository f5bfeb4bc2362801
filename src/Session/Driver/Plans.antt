-- ===== src/Session/Driver/Plans.antt =====
-- What the driver opens next, and a server that keeps asking for a new session.
use lightstreamer_rs.Base.{
  ℕ, zero, suc, ◌+◌, ◌≤◌, ◌<◌, ◌≡◌, ◌≢◌, refl, sym, ap, subst, ◌∙◌, arith, true, false, leb, ltb,
  if◌then◌else◌, Option, none, some, Bool, u32_mod,
}
use lightstreamer_rs.Session.Backoff.{Backoff, next_delay, reset, is_spent}
use lightstreamer_rs.Text.{Text}
use lightstreamer_rs.Session.Time.{Duration}
use lightstreamer_rs.Session.Outcomes.{
  ServerCause, UnbindReason, forced_by_client, content_length_reached, poll_cycle_expired, looped,
  connection_failed, keepalive_expired, rejected, server_refresh,
}
use lightstreamer_rs.Session.Driver.{
  SessionDriver, OpenIntent, create, rebind, Reopen, plan_after, delayed, plan_refresh, plan_clean,
  recovery_intent, saturating_add_one, StreamOpen, bind,
}
use lightstreamer_rs.Session.Driver.Opening.{build_open, open_for}

-- A stream that binds the session that is known, with or without a point to recover from. If none is
-- known, it asks for a new one.
abbrev pub Binds : SessionDriver → Option ℕ → StreamOpen → Type 0
Binds d recovery_from (bind request) =
    (d.session ≢ none) × (request.session ≡ d.session) × (request.recovery_from ≡ recovery_from)
Binds d recovery_from (StreamOpen.create request) = d.session ≡ none

-- A stream that asks for a new session.
abbrev pub Creates : StreamOpen → Type 0
Creates (bind request) = ⊥
Creates (StreamOpen.create request) = Unit

-- The stream to open after each reason of an unbind: the same session goes on after an end that was
-- due, a stream that failed is recovered from the last notification counted, and a session that was
-- refused or given up by the server is replaced.
abbrev pub IsPlan : SessionDriver → UnbindReason → StreamOpen → Type 0
IsPlan d (forced_by_client delay) stream = Binds d none stream
IsPlan d (content_length_reached delay) stream = Binds d none stream
IsPlan d (poll_cycle_expired delay) stream = Binds d none stream
IsPlan d (looped delay) stream = Binds d none stream
IsPlan d connection_failed stream = Binds d (some d.progressive) stream
IsPlan d (keepalive_expired budget) stream = Binds d (some d.progressive) stream
IsPlan d (rejected cause) stream = Creates stream
IsPlan d (server_refresh cause) stream = Creates stream

delayed_lem :
    (d : SessionDriver) (intent : OpenIntent) (drawn : Backoff × Option Duration)
    → ((delayed d intent drawn).0.refresh_streak ≡ d.refresh_streak)
      × ((delayed d intent drawn).0.policy ≡ d.policy)
delayed_lem d intent (b, none) = (refl, refl)
delayed_lem d intent (b, some delay) = (refl, refl)

delayed-intent :
    (d : SessionDriver) (intent : OpenIntent) (drawn : Backoff × Option Duration) (reopen : Reopen)
    → (delayed d intent drawn).1 ≡ some reopen
    → reopen.intent ≡ intent
delayed-intent d intent (b, none) reopen h = cc
delayed-intent d intent (b, some delay) reopen h =
    let e : ◌≡◌ {A = Reopen} (record { intent = intent; delay = delay }) reopen = cc in
    sym (ap (λ r. r.intent) e)

-- The driver after a request for a new session that was met: the answer of the new session resets the
-- schedule.
abbrev pub refreshed : ServerCause → SessionDriver → SessionDriver
refreshed cause d =
    let d' = (plan_after d (server_refresh cause)).0 in record d' { backoff = reset d'.backoff }

abbrev pub refreshes : ServerCause → ℕ → SessionDriver → SessionDriver
refreshes cause zero d = d
refreshes cause (suc n) d = refreshed cause (refreshes cause n d)

if-both : {A : Type 0} (P : A → Type 0) (b : Bool) (x y : A) → P x → P y → P (if b then x else y)
if-both P true x y px py = px
if-both P false x y px py = py

-- The streak and the policy that a plan leaves.
abbrev Keeps : SessionDriver → SessionDriver × Option Reopen → Type 0
Keeps d out = (out.0.refresh_streak ≡ d.refresh_streak) × (out.0.policy ≡ d.policy)

Keeps-plan_refresh : (d : SessionDriver) → Keeps d (plan_refresh d)
Keeps-plan_refresh d =
    if-both (Keeps d) (leb d.refresh_streak 1) _ _ (refl, refl)
      (if-both (Keeps d) (is_spent d.policy.max_attempts d.refresh_streak) _ _ (refl, refl)
        (delayed_lem d create (next_delay d.backoff)))

refreshed_lem :
    (cause : ServerCause) (d : SessionDriver)
    → d.refresh_streak + 1 < u32_mod
    → ((refreshed cause d).refresh_streak ≡ d.refresh_streak + 1)
      × ((refreshed cause d).policy ≡ d.policy)
unfolding plan_after
refreshed_lem cause d h =
    let (e, ep) =
      Keeps-plan_refresh (record d { refresh_streak = saturating_add_one d.refresh_streak }) in
    let one : saturating_add_one d.refresh_streak ≡ d.refresh_streak + 1 = omega arith in
    (e ∙ one, ep)

refreshes_lem :
    (cause : ServerCause) (n : ℕ) (d : SessionDriver)
    → d.refresh_streak ≡ 0
    → n < u32_mod
    → ((refreshes cause n d).refresh_streak ≡ n) × ((refreshes cause n d).policy ≡ d.policy)
refreshes_lem cause zero d z h = (z, refl)
refreshes_lem cause (suc n) d z h =
    let (e, ep) = refreshes_lem cause n d z (omega arith) in
    let (e', ep') = refreshed_lem cause (refreshes cause n d) (omega arith) in
    (omega arith, ep' ∙ ep)

-- Where the policy bounds the attempts: a driver without a streak, that has been asked for a new
-- session that many times with no data in between, and once at least, gives up when it is asked
-- again, although every new session has reset the schedule.
pub plan_after-refreshes :
    (cause : ServerCause) (n bound : ℕ) (d : SessionDriver)
    → d.refresh_streak ≡ 0
    → d.policy.max_attempts ≡ some bound
    → bound ≤ n
    → 1 ≤ n
    → n + 1 < u32_mod
    → (plan_after (refreshes cause n d) (server_refresh cause)).1 ≡ none
unfolding plan_after
plan_after-refreshes cause n bound d z limit le more h =
    let (e, ep) = refreshes_lem cause n d z (omega arith) in
    let d' = refreshes cause n d in
    let streak : saturating_add_one d'.refresh_streak ≡ n + 1 = omega arith in
    let max : d'.policy.max_attempts ≡ some bound = ap (λ p. p.max_attempts) ep ∙ limit in
    let later : leb (n + 1) 1 ≡ false = ground arith in
    let spent : ltb bound (n + 1) ≡ true = ground arith in rw (streak, max, later, spent) refl

planned-intent : (a b : Reopen) → some a ≡ some b → b.intent ≡ a.intent
planned-intent a b h = let e : a ≡ b = cc in sym (ap (λ r. r.intent) e)

-- What is opened for an intent, in any driver with the same session.
Binds-rebind : (d d' : SessionDriver) → d'.session ≡ d.session → Binds d none (build_open d' rebind)
unfolding build_open
Binds-rebind d d' same = bound_in d'.session same
  where
    bound_in : (o : Option Text) → o ≡ d.session → Binds d none (open_for d' rebind o)
    bound_in none e = sym e
    bound_in (some session) e = ((λ gone. (let no = e ∙ gone in cc)), e, refl)

Binds-recovery_intent :
    (d d' : SessionDriver)
    → d'.session ≡ d.session
    → Binds d (some d.progressive) (build_open d' (recovery_intent d.session d.progressive))
unfolding build_open
Binds-recovery_intent d d' same = recovers d.session d'.session refl same
  where
    recovers :
        (known o : Option Text)
        → known ≡ d.session
        → o ≡ d.session
        → Binds d (some d.progressive) (open_for d' (recovery_intent known d.progressive) o)
    recovers none none e e' = sym e
    recovers none (some session) e e' = sym e
    recovers (some known) none e e' = sym e'
    recovers (some known) (some session) e e' = ((λ gone. (let no = e' ∙ gone in cc)), e', refl)

Creates-create : (d : SessionDriver) → Creates (build_open d create)
unfolding build_open
Creates-create d = opened d.session
  where
    opened : (o : Option Text) → Creates (open_for d create o)
    opened none = tt
    opened (some session) = tt

delayed-session :
    (d : SessionDriver) (intent : OpenIntent) (drawn : Backoff × Option Duration)
    → (delayed d intent drawn).0.session ≡ d.session
delayed-session d intent (b, none) = refl
delayed-session d intent (b, some delay) = refl

refresh-intent :
    (d : SessionDriver) (reopen : Reopen)
    → (plan_refresh d).1 ≡ some reopen
    → reopen.intent ≡ create
refresh-intent d reopen =
    let P : SessionDriver × Option Reopen → Type 0 =
      λ out. out.1 ≡ some reopen → reopen.intent ≡ create in
    if-both P (leb d.refresh_streak 1) _ _ (λ h. planned-intent _ reopen h)
      (if-both P (is_spent d.policy.max_attempts d.refresh_streak) _ _ (λ h. cc)
        (delayed-intent d create (next_delay d.backoff) reopen))

IsPlan-plan_clean :
    (d : SessionDriver) (reason : UnbindReason) (reopen : Reopen)
    → (plan_clean d reason).1 ≡ some reopen
    → Binds d none (build_open (plan_clean d reason).0 reopen.intent)
IsPlan-plan_clean d reason reopen h =
    subst (λ i. Binds d none (build_open (plan_clean d reason).0 i))
      (sym (planned-intent _ reopen h)) (Binds-rebind d (plan_clean d reason).0 refl)

-- The plan after a failure.
Binds-delayed :
    (d : SessionDriver) (reopen : Reopen)
    → (let d₀ : SessionDriver = record d { refresh_streak = 0 } in
        let out = delayed d₀ (recovery_intent d.session d.progressive) (next_delay d.backoff) in
        out.1 ≡ some reopen → Binds d (some d.progressive) (build_open out.0 reopen.intent))
Binds-delayed d reopen h =
    let d₀ : SessionDriver = record d { refresh_streak = 0 } in
    let intent = recovery_intent d.session d.progressive in
    let out = delayed d₀ intent (next_delay d.backoff) in
    subst (λ i. Binds d (some d.progressive) (build_open out.0 i))
      (sym (delayed-intent d₀ intent (next_delay d.backoff) reopen h))
      (Binds-recovery_intent d out.0 (delayed-session d₀ intent (next_delay d.backoff)))

Creates-planned :
    (d : SessionDriver) (reopen : Reopen)
    → reopen.intent ≡ create
    → Creates (build_open d reopen.intent)
Creates-planned d reopen e = subst (λ i. Creates (build_open d i)) (sym e) (Creates-create d)

-- If the driver opens another stream after an unbind, then it is this one: after a loop, and after the
-- end of a poll, it binds the session that is known, without recovery; after a stream that failed or
-- fell silent it binds that session and asks to recover from the last notification counted; where
-- these find no session, and where the server refused the session or asked for a new one, it asks for
-- a new session.
pub IsPlan-plan_after :
    (d : SessionDriver) (reason : UnbindReason) (reopen : Reopen)
    → (plan_after d reason).1 ≡ some reopen
    → IsPlan d reason (build_open (plan_after d reason).0 reopen.intent)
unfolding plan_after
IsPlan-plan_after d (forced_by_client delay) reopen h =
    IsPlan-plan_clean d (forced_by_client delay) reopen h
IsPlan-plan_after d (content_length_reached delay) reopen h =
    IsPlan-plan_clean d (content_length_reached delay) reopen h
IsPlan-plan_after d (poll_cycle_expired delay) reopen h =
    IsPlan-plan_clean d (poll_cycle_expired delay) reopen h
IsPlan-plan_after d (looped delay) reopen h = IsPlan-plan_clean d (looped delay) reopen h
IsPlan-plan_after d connection_failed reopen h = Binds-delayed d reopen h
IsPlan-plan_after d (keepalive_expired budget) reopen h = Binds-delayed d reopen h
IsPlan-plan_after d (rejected cause) reopen h =
    Creates-planned _ reopen (delayed-intent (record d { refresh_streak = 0 }) _ _ reopen h)
IsPlan-plan_after d (server_refresh cause) reopen h =
    Creates-planned _ reopen
      (refresh-intent (record d { refresh_streak = saturating_add_one d.refresh_streak }) reopen h)
