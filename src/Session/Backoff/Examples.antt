-- ===== src/Session/Backoff/Examples.antt =====
-- Runs of a schedule, and the theorems about it at concrete inputs.
use lightstreamer_rs.Base.{◌≡◌, refl, none, some, arith, min, ◌*◌, ◌^◌, ◌≤◌}
use lightstreamer_rs.Session.Time.{Duration}
use lightstreamer_rs.Session.Backoff.{
  Backoff, default, with_seed, next_u64, bit_xor, next_delay, below,
}
use lightstreamer_rs.Session.Backoff.Schedule.{after, IsPolicy, next_delay-after, next_delay-spent}

abbrev seeded : Backoff
seeded = with_seed default 42

IsPolicy-default : IsPolicy default
IsPolicy-default = (omega arith, omega arith, omega arith)

ninth_call : (next_delay (after 8 seeded)).1 ≡ none
unfolding next_delay below next_u64 bit_xor
ninth_call = refl

next_delay-after_example :
    (delay : Duration) × ((next_delay (after 7 seeded)).1 ≡ some delay)
    × (delay ≤ min (500000000 * 2 ^ 7) 30000000000)
next_delay-after_example = next_delay-after seeded 7 IsPolicy-default (refl, refl) (omega arith)

next_delay-spent_example : (next_delay (after 9 seeded)).1 ≡ none
next_delay-spent_example = next_delay-spent seeded 9 IsPolicy-default (refl, refl) (omega arith)
