-- ===== src/Protocol/Escaping/Loop.antt =====
-- How the loop of `percent_decode` takes a plain byte and an escape, and what its fast path skips.
use native.Mathlib.Nat.{add-zero}
use lightstreamer_rs.Base.{
  ℕ, zero, suc, false, ◌+◌, ◌*◌, ◌/◌, ◌%◌, ◌<◌, ◌≡◌, ◌≢◌, refl, Bool, true, none, some, [], ◌∷◌,
  ◌++◌, arith, ◌==◌, ==_iff, ok, ◌>>=◌, take, drop, append_assoc, append-nil,
}
use lightstreamer_rs.Text.{Bytes, find_byte}
use lightstreamer_rs.Protocol.Escaping.{hex_value, hex_digit, joined, escaped_byte, unescape}

pub unescape_plain :
    (i : ℕ) (acc : Bytes) (b : ℕ) (rest : Bytes)
    → b ≢ b'%'
    → unescape i acc (b ∷ rest) ≡ unescape (i + 1) (acc ++ b ∷ []) rest
unfolding unescape
unescape_plain i acc b [] h = ground arith
unescape_plain i acc b (c ∷ []) h = ground arith
unescape_plain i acc b (c ∷ d ∷ rest) h = ground arith

pub unescape_escape :
    (i : ℕ) (acc : Bytes) (h l : ℕ) (rest : Bytes)
    → unescape i acc (b'%' ∷ h ∷ l ∷ rest)
      ≡ (escaped_byte i h l >>= λ byte. unescape (i + 3) (acc ++ byte ∷ []) rest)
unfolding unescape
unescape_escape i acc h l rest = refl

pub hex_value-hex_digit : (n : ℕ) → n < 16 → hex_value (hex_digit n) ≡ some n
unfolding hex_value hex_digit
hex_value-hex_digit n h = ground arith

-- The bytes below a bound whose nibbles, joined, are not the byte: checked by evaluation.
nibbles_agree : ℕ → Bool
nibbles_agree zero = true
nibbles_agree (suc byte) = elim (joined (byte / 16) (byte % 16) == byte) [
  | true ↦ nibbles_agree byte
  | false ↦ false
]

joined-nibbles_agree :
    (bound byte : ℕ)
    → byte < bound
    → nibbles_agree bound ≡ true
    → joined (byte / 16) (byte % 16) ≡ byte
unfolding nibbles_agree
joined-nibbles_agree zero byte lt agree = absurd (omega arith)
joined-nibbles_agree (suc bound) byte lt agree =
    ground (arith, joined-nibbles_agree bound byte, ==_iff (joined (bound / 16) (bound % 16)) bound)

every_byte : nibbles_agree 256 ≡ true
unfolding nibbles_agree joined
every_byte = refl

-- The two nibbles of a byte make the byte again.
pub joined_nibbles : (b : ℕ) → b < 256 → joined (b / 16) (b % 16) ≡ b
joined_nibbles b h = joined-nibbles_agree 256 b h every_byte

pub joined_sum : (h l : ℕ) → h < 16 → l < 16 → joined h l ≡ h * 16 + l
joined_sum h l p q =
    let high : (h * 16 + l) / 16 ≡ h = omega arith in
    let low : (h * 16 + l) % 16 ≡ l = omega arith in
    rw (high, low) at (joined_nibbles (h * 16 + l) (omega arith))

-- The prefix before the first `%` is copied as it is.
pub unescape-find_byte :
    (bs : Bytes) (first n : ℕ) (acc : Bytes)
    → find_byte b'%' bs ≡ some first
    → unescape n acc bs ≡ unescape (n + first) (acc ++ take first bs) (drop first bs)
unfolding find_byte
unescape-find_byte [] first n acc h = cc
unescape-find_byte (b ∷ bs) zero n acc h = simp (add-zero, append-nil)
unescape-find_byte (b ∷ bs) (suc first) n acc h = ground (
  arith,
  unescape_plain n acc b bs,
  unescape-find_byte bs first (n + 1) (acc ++ b ∷ []),
  append_assoc acc (b ∷ []) (take first bs),
)

pub escaped_byte_lem :
    (i h l : ℕ) {x y : ℕ}
    → hex_value h ≡ some x
    → hex_value l ≡ some y
    → escaped_byte i h l ≡ ok (joined x y)
unfolding escaped_byte
escaped_byte_lem i h l p q = ground arith

-- Without a `%` all is copied.
pub unescape-find_byte-none :
    (bs : Bytes) (n : ℕ) (acc : Bytes)
    → find_byte b'%' bs ≡ none
    → unescape n acc bs ≡ ok (acc ++ bs)
unfolding find_byte
unescape-find_byte-none [] n acc h = unfold unescape in rw append-nil
unescape-find_byte-none (b ∷ bs) n acc h = ground (
  arith,
  unescape_plain n acc b bs,
  unescape-find_byte-none bs (n + 1) (acc ++ b ∷ []),
  append_assoc acc (b ∷ []) bs,
)
