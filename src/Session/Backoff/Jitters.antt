-- ===== src/Session/Backoff/Jitters.antt =====
-- The generator of `Jitter`, its state and its draws.
use native.Mathlib.Nat.{pow-succ'}
use lightstreamer_rs.Base.{ℕ, zero, suc, ◌*◌, ◌/◌, ◌%◌, ◌^◌, ◌≤◌, ◌<◌, ◌≡◌, ◌≢◌, arith}
use lightstreamer_rs.Session.Time.{Duration}
use lightstreamer_rs.Session.Backoff.{
  Jitter, from_seed, bit_xor, shift_12, shift_25, shift_27, next_u64, below,
}

bit_xor-lt : (bits a b : ℕ) → bit_xor bits a b < 2 ^ bits
unfolding bit_xor
bit_xor-lt zero a b = omega arith
bit_xor-lt (suc bits) a b =
    let ih = bit_xor-lt bits (a / 2) (b / 2) in let p = pow-succ' 2 bits in omega arith

bit_xor-zero : (bits a b : ℕ) → a < 2 ^ bits → b < 2 ^ bits → bit_xor bits a b ≡ 0 → a ≡ b
unfolding bit_xor
bit_xor-zero zero a b p q h = omega arith
bit_xor-zero (suc bits) a b p q h =
    let w = pow-succ' 2 bits in
    let ih = bit_xor-zero bits (a / 2) (b / 2) (omega arith) (omega arith) (omega arith) in
    omega arith

-- A state that xorshift may take.
abbrev pub IsLive : ℕ → Type 0
IsLive x = (0 < x) × (x < 2 ^ 64)

-- An integer is combined with another by `^` without becoming zero, unless the two are equal.
bit_xor-IsLive : (a b : ℕ) → a < 2 ^ 64 → b < 2 ^ 64 → a ≢ b → IsLive (bit_xor 64 a b)
bit_xor-IsLive a b p q ne =
    let z = bit_xor-zero 64 a b p q in let lt = bit_xor-lt 64 a b in ground arith

shift_12-IsLive : (x : ℕ) → IsLive x → IsLive (shift_12 x)
shift_12-IsLive x h = bit_xor-IsLive x (x / 2 ^ 12) (omega arith) (omega arith) (omega arith)

shift_25-IsLive : (x : ℕ) → IsLive x → IsLive (shift_25 x)
shift_25-IsLive x h =
    bit_xor-IsLive x (x * 2 ^ 25 % 2 ^ 64) (omega arith) (omega arith) (omega arith)

shift_27-IsLive : (x : ℕ) → IsLive x → IsLive (shift_27 x)
shift_27-IsLive x h = bit_xor-IsLive x (x / 2 ^ 27) (omega arith) (omega arith) (omega arith)

from_seed-IsLive : (seed : ℕ) → seed < 2 ^ 64 → IsLive (from_seed seed).state
from_seed-IsLive seed h = ground arith

-- From a nonzero 64-bit state, a draw of the generator leaves another and yields a 64-bit integer.
pub next_u64-IsLive :
    (j : Jitter) → IsLive j.state → IsLive (next_u64 j).0.state × ((next_u64 j).1 < 2 ^ 64)
unfolding next_u64
next_u64-IsLive j h =
    let live =
      shift_27-IsLive (shift_25 (shift_12 j.state))
        (shift_25-IsLive (shift_12 j.state) (shift_12-IsLive j.state h)) in
    (live, omega arith)

-- The drawn delay is at most the bound.
pub below-le : (j : Jitter) (bound : Duration) → (below j bound).1 ≤ bound
unfolding below
below-le j bound = ground arith
