-- ===== src/Session/Backoff/Schedule.antt =====
-- The delays of a schedule, call by call.
use native.Mathlib.Nat.{pow-suc}
use lightstreamer_rs.Base.{
  ℕ, zero, suc, ◌+◌, ◌-◌, ◌*◌, ◌^◌, ◌≤◌, ◌<◌, ◌≡◌, refl, ap, subst, arith, min, Option, some, none,
  u32_mod, true, false, ◌⊎◌, inl, inr,
}
use lightstreamer_rs.Session.Time.{Duration, duration_mod}
use lightstreamer_rs.Session.Backoff.{
  BackoffPolicy, Backoff, doubled, next_delay, below, reset, is_spent,
}
use lightstreamer_rs.Session.Backoff.Jitters.{below-le}

-- The schedule after so many failed attempts.
abbrev pub after : ℕ → Backoff → Backoff
after zero b = b
after (suc n) b = (next_delay (after n b)).0

-- The attempts that are granted: all that a `u32` counts, where the policy has no bound.
abbrev pub budget : Option ℕ → ℕ
budget none = u32_mod - 1
budget (some bound) = bound

-- Durations and counts of the source's types, with a first delay that the ceiling allows.
abbrev pub IsPolicy : BackoffPolicy → Type 0
IsPolicy p = (p.initial ≤ p.max) × (p.max < duration_mod) × (budget p.max_attempts < u32_mod)

-- A schedule that was made or reset.
abbrev pub IsFresh : Backoff → Type 0
IsFresh b = (b.attempts ≡ 0) × (b.base ≡ b.policy.initial)

doubled_lem :
    (p : BackoffPolicy) (base : Duration)
    → base ≤ p.max
    → p.max < duration_mod
    → doubled p base ≡ min (base * 2) p.max
doubled_lem p base le lt = ground arith

is_spent-false : (o : Option ℕ) (n : ℕ) → n < budget o → is_spent o (n + 1) ≡ false
is_spent-false none n lt = refl
is_spent-false (some bound) n lt = ground arith

-- Beyond the budget, the count of attempts is at its end or the bound is passed.
is_spent-true :
    (o : Option ℕ) (n : ℕ) → budget o ≤ n → (u32_mod ≤ n + 1) ⊎ (is_spent o (n + 1) ≡ true)
is_spent-true none n le = inl (omega arith)
is_spent-true (some bound) n le = ground arith

-- A call within the budget counts, doubles the base and returns a delay.
next_delay-granted :
    (b : Backoff)
    → b.attempts < budget b.policy.max_attempts
    → budget b.policy.max_attempts < u32_mod
    → let out = next_delay b in
      (out.0.policy ≡ b.policy)
      × (out.0.attempts ≡ b.attempts + 1)
      × (out.0.base ≡ doubled b.policy b.base)
      × (out.1 ≡ some (below b.jitter b.base).1)
unfolding next_delay
next_delay-granted b lt bound =
    let spent = is_spent-false b.policy.max_attempts b.attempts lt in ground arith

-- A call beyond the budget returns nothing, keeps the policy and stays beyond it.
next_delay-refused :
    (b : Backoff)
    → budget b.policy.max_attempts ≤ b.attempts
    → budget b.policy.max_attempts < u32_mod
    → let out = next_delay b in
      (out.0.policy ≡ b.policy) × (b.attempts ≤ out.0.attempts) × (out.1 ≡ none)
unfolding next_delay
next_delay-refused b le bound =
    let spent = is_spent-true b.policy.max_attempts b.attempts le in ground arith

-- What the schedule holds while the budget lasts.
after-granted :
    (b : Backoff) (n : ℕ)
    → IsPolicy b.policy
    → IsFresh b
    → n ≤ budget b.policy.max_attempts
    → ((after n b).policy ≡ b.policy)
      × ((after n b).attempts ≡ n)
      × ((after n b).base ≡ min (b.policy.initial * 2 ^ n) b.policy.max)
after-granted b zero h fresh le = (refl, fresh.0, rw fresh.1 (omega arith))
after-granted b (suc n) h fresh le =
    let (ep, ea, eb) = after-granted b n h fresh (omega arith) in
    let c = after n b in
    let granted = next_delay-granted c (rw (ep, ea) (omega arith)) (rw ep h.2) in
    let d = doubled_lem b.policy c.base (rw eb (omega arith)) h.1 in
    let p = ap (λ k. b.policy.initial * k) (pow-suc 2 n) in
    (rw (granted.0, ep), rw (granted.1, ea) (omega arith), rw (granted.2, ep, d, eb) (omega arith))

-- Under a policy of the source's types whose first delay is within the ceiling: in a fresh schedule
-- the call after `n` others returns a delay as long as `n` is within the budget,
-- and the delay is at most the first one doubled `n` times, and at most the ceiling.
pub next_delay-after :
    (b : Backoff) (n : ℕ)
    → IsPolicy b.policy
    → IsFresh b
    → n < budget b.policy.max_attempts
    → (delay : Duration) × ((next_delay (after n b)).1 ≡ some delay)
      × (delay ≤ min (b.policy.initial * 2 ^ n) b.policy.max)
next_delay-after b n h fresh lt =
    let (ep, ea, eb) = after-granted b n h fresh (omega arith) in
    let c = after n b in
    let granted = next_delay-granted c (rw (ep, ea) (omega arith)) (rw ep h.2) in
    (
      (below c.jitter c.base).1,
      granted.3,
      subst (λ k. (below c.jitter c.base).1 ≤ k) eb (below-le c.jitter c.base),
    )

decide-le : (m n : ℕ) → (m ≤ n) ⊎ (n < m)
decide-le m n = omega arith

after-refused :
    (b : Backoff) (n : ℕ)
    → IsPolicy b.policy
    → IsFresh b
    → budget b.policy.max_attempts ≤ n
    → ((after n b).policy ≡ b.policy) × (budget b.policy.max_attempts ≤ (after n b).attempts)
after-refused b zero h fresh le = (refl, omega arith)
after-refused b (suc n) h fresh le = elim (decide-le (budget b.policy.max_attempts) n) [
  | inl e ↦
      let (ep, ea) = after-refused b n h fresh e in
      let (rp, ra, ro) = next_delay-refused (after n b) (rw ep ea) (rw ep h.2) in
      (rw (rp, ep), omega arith)
  | inr lt ↦ let (ep, ea, eb) = after-granted b (suc n) h fresh (omega arith) in (ep, omega arith)
]

-- Under such a policy, from a fresh schedule: once the budget is spent, every further call returns nothing.
pub next_delay-spent :
    (b : Backoff) (n : ℕ)
    → IsPolicy b.policy
    → IsFresh b
    → budget b.policy.max_attempts ≤ n
    → (next_delay (after n b)).1 ≡ none
next_delay-spent b n h fresh le =
    let (ep, ea) = after-refused b n h fresh le in
    (next_delay-refused (after n b) (rw ep ea) (rw ep h.2)).2

-- A reset makes the schedule fresh again, whatever it went through, under the same policy.
pub reset-IsFresh : (b : Backoff) → IsFresh (reset b) × ((reset b).policy ≡ b.policy)
unfolding reset
reset-IsFresh b = ((refl, refl), refl)
