-- ===== src/Session/Backoff.antt =====
-- src/session/backoff.rs: the reconnection schedule, with its jitter.
pub mod Jitters
pub mod Schedule
pub mod Examples
use lightstreamer_rs.Base.{
  ℕ, zero, suc, ◌+◌, ◌-◌, ◌*◌, ◌/◌, ◌%◌, ◌^◌, min, Bool, true, false, Option, none, some, ◌==◌, ltb,
  if◌then◌else◌, checked_add, usize_mod, u32_mod,
}
use lightstreamer_rs.Session.Time.{Duration, duration_mul}

-- `NonZeroU32` is a number, here: a bound of zero would be `none` in the source.
pub record BackoffPolicy : Type 0 where
  pub initial : Duration
  pub max : Duration
  pub max_attempts : Option ℕ

abbrev pub default : BackoffPolicy
default = record { initial = 500 * 1000000; max = 30 * 1000000000; max_attempts = some 8 }

pub record Jitter : Type 0 where
  pub state : ℕ

pub record Backoff : Type 0 where
  pub policy : BackoffPolicy
  pub attempts : ℕ
  pub base : Duration
  pub jitter : Jitter

abbrev pub from_seed : ℕ → Jitter
from_seed seed = record { state = if seed == 0 then 0x9E3779B97F4A7C15 else seed }

-- The `^` of two integers of so many bits.
unfoldable pub bit_xor : ℕ → ℕ → ℕ → ℕ
bit_xor zero a b = 0
bit_xor (suc bits) a b = (a + b) % 2 + 2 * bit_xor bits (a / 2) (b / 2)

-- The three assignments of `next_u64`.
abbrev pub shift_12 : ℕ → ℕ
shift_12 x = bit_xor 64 x (x / 2 ^ 12)

abbrev pub shift_25 : ℕ → ℕ
shift_25 x = bit_xor 64 x (x * 2 ^ 25 % 2 ^ 64)

abbrev pub shift_27 : ℕ → ℕ
shift_27 x = bit_xor 64 x (x / 2 ^ 27)

unfoldable pub next_u64 : Jitter → Jitter × ℕ
next_u64 j =
    let x = shift_27 (shift_25 (shift_12 j.state)) in
    (record { state = x }, x * 0x2545F4914F6CDD1D % 2 ^ 64)

-- `below`, whose `try_from` saturates at the largest `u64`.
unfoldable pub below : Jitter → Duration → Jitter × Duration
below j bound = elim (checked_add usize_mod (min bound (usize_mod - 1)) 1) [
  | none ↦ (j, bound)
  | some range ↦ let (j', drawn) = next_u64 j in (j', drawn % range)
]

-- `Backoff::with_seed`. `Backoff::new` takes the seed from the entropy of the process.
abbrev pub with_seed : BackoffPolicy → ℕ → Backoff
with_seed policy seed = record {
  policy = policy;
  attempts = 0;
  base = policy.initial;
  jitter = from_seed seed;
}

-- Whether the attempt budget is spent.
abbrev pub is_spent : Option ℕ → ℕ → Bool
is_spent none attempts = false
is_spent (some bound) attempts = ltb bound attempts

-- The base of the next attempt.
abbrev pub doubled : BackoffPolicy → Duration → Duration
doubled policy base = elim (duration_mul base 2) [
  | none ↦ min policy.max policy.max
  | some twice ↦ min twice policy.max
]

unfoldable pub next_delay : Backoff → Backoff × Option Duration
next_delay b = elim (checked_add u32_mod b.attempts 1) [
  | none ↦ (b, none)
  | some attempts ↦
      if is_spent b.policy.max_attempts attempts
      then (
        record { policy = b.policy; attempts = attempts; base = b.base; jitter = b.jitter },
        none,
      )
      else let (jitter, delay) = below b.jitter b.base in
        (
          record {
            policy = b.policy;
            attempts = attempts;
            base = doubled b.policy b.base;
            jitter = jitter;
          },
          some delay,
        )
]

unfoldable pub reset : Backoff → Backoff
reset b = record { policy = b.policy; attempts = 0; base = b.policy.initial; jitter = b.jitter }
