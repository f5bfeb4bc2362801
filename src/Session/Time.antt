-- ===== src/Session/Time.antt =====
-- `std::time::Duration` in nanoseconds.
use lightstreamer_rs.Base.{ℕ, ◌*◌, ◌^◌, Option, checked_add, checked_mul}

abbrev pub Duration : Type 0
Duration = ℕ

-- A duration is at most `u64::MAX` seconds and 999,999,999 nanoseconds.
abbrev pub duration_mod : ℕ
duration_mod = 2 ^ 64 * 1000000000

-- `Duration::checked_add` and `Duration::checked_mul`.
abbrev pub duration_add : Duration → Duration → Option Duration
duration_add = checked_add duration_mod

abbrev pub duration_mul : Duration → ℕ → Option Duration
duration_mul = checked_mul duration_mod
