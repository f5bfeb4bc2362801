-- ===== src/Text/Utf8.antt =====
-- UTF-8, as `str::as_bytes` and `String::from_utf8` of the standard library have it.
use lightstreamer_rs.Base.{
  ℕ, zero, suc, ◌+◌, ◌-◌, ◌*◌, ◌/◌, ◌%◌, ◌<◌, ◌≤◌, ◌≡◌, refl, ◌⊎◌, ◌&&◌, List, [], ◌∷◌, ◌++◌, arith,
  ltb, leb, ◌==◌, if◌then◌else◌, All, All-append, append_assoc, Result, ok, err, map_ok,
}

-- The bytes of one character.
unfoldable pub encode_char : ℕ → List ℕ
encode_char c =
    if ltb c 0x80
    then c ∷ []
    else if ltb c 0x800
    then (0xC0 + c / 64) ∷ (0x80 + c % 64) ∷ []
    else if ltb c 0x10000
    then (0xE0 + c / 4096) ∷ (0x80 + c / 64 % 64) ∷ (0x80 + c % 64) ∷ []
    else (0xF0 + c / 262144) ∷ (0x80 + c / 4096 % 64) ∷ (0x80 + c / 64 % 64) ∷ (0x80 + c % 64) ∷ []

-- `str::as_bytes`.
unfoldable pub as_bytes : List ℕ → List ℕ
as_bytes [] = []
as_bytes (c ∷ cs) = encode_char c ++ as_bytes cs

-- Where a decoder stands inside a sequence: `partial left lo hi value` wants `left` + 1 more bytes,
-- the next one between `lo` and `hi`, and has read `value`.
pub data Progress : Type 0 where
  boundary : Progress
  partial : ℕ → ℕ → ℕ → ℕ → Progress

pub data Step : Type 0 where
  emit : ℕ → Step
  more : Progress → Step
  reject : Step

-- The well-formed first bytes, with the range of the second byte (Unicode, table 3-7).
lead : ℕ → Step
lead b =
    if ltb b 0x80
    then emit b
    else if leb 0xC2 b && leb b 0xDF
    then more (partial 0 0x80 0xBF (b - 0xC0))
    else if b == 0xE0
    then more (partial 1 0xA0 0xBF 0)
    else if b == 0xED
    then more (partial 1 0x80 0x9F 13)
    else if leb 0xE1 b && leb b 0xEF
    then more (partial 1 0x80 0xBF (b - 0xE0))
    else if b == 0xF0
    then more (partial 2 0x90 0xBF 0)
    else if leb 0xF1 b && leb b 0xF3
    then more (partial 2 0x80 0xBF (b - 0xF0))
    else if b == 0xF4
    then more (partial 2 0x80 0x8F 4)
    else reject

next : ℕ → ℕ → Step
next zero v = emit v
next (suc n) v = more (partial n 0x80 0xBF v)

pub step : Progress → ℕ → Step
unfolding lead next
step boundary b = lead b
step (partial left lo hi value) b =
    if leb lo b && leb b hi then next left (value * 64 + (b - 0x80)) else reject

-- `valid` is the offset up to which the bytes are valid, `read` the number of bytes read. The error
-- is `Utf8Error::valid_up_to`.
pub decode : Progress → ℕ → ℕ → List ℕ → Result ℕ (List ℕ)
decode boundary valid read [] = ok []
decode (partial left lo hi value) valid read [] = err valid
decode p valid read (b ∷ bs) = elim (step p b) [
  | emit c ↦ map_ok (λ cs. c ∷ cs) (decode boundary (read + 1) (read + 1) bs)
  | more q ↦ decode q valid (read + 1) bs
  | reject ↦ err valid
]

-- `String::from_utf8`.
unfoldable pub from_utf8 : List ℕ → Result ℕ (List ℕ)
unfolding decode step
from_utf8 = decode boundary 0 0

abbrev IsChar : ℕ → Type 0
IsChar c = (c < 0xD800) ⊎ (0xE000 ≤ c) × (c < 0x110000)

module _ (c n : ℕ) (rest : List ℕ) where
  decode_one :
      c < 0x80
      → decode boundary n n (c ∷ rest)
        ≡ map_ok (λ cs. c ∷ cs) (decode boundary (n + 1) (n + 1) rest)
  unfolding decode step
  decode_one h = ground arith

  decode_two :
      0x80 ≤ c
      → c < 0x800
      → decode boundary n n ((0xC0 + c / 64) ∷ (0x80 + c % 64) ∷ rest)
        ≡ map_ok (λ cs. c ∷ cs) (decode boundary (n + 1 + 1) (n + 1 + 1) rest)
  unfolding decode step
  decode_two h k = ground arith

  decode_three :
      0x800 ≤ c
      → c < 0x10000
      → IsChar c
      → decode boundary n n ((0xE0 + c / 4096) ∷ (0x80 + c / 64 % 64) ∷ (0x80 + c % 64) ∷ rest)
        ≡ map_ok (λ cs. c ∷ cs) (decode boundary (n + 1 + 1 + 1) (n + 1 + 1 + 1) rest)
  unfolding decode step
  decode_three h k s = ground arith

  decode_four :
      0x10000 ≤ c
      → c < 0x110000
      → decode boundary n n (
          (0xF0 + c / 262144)
          ∷ (0x80 + c / 4096 % 64)
          ∷ (0x80 + c / 64 % 64)
          ∷ (0x80 + c % 64)
          ∷ rest)
        ≡ map_ok (λ cs. c ∷ cs) (decode boundary (n + 1 + 1 + 1 + 1) (n + 1 + 1 + 1 + 1) rest)
  unfolding decode step
  decode_four h k = ground arith

decode-as_bytes : (cs : List ℕ) (n : ℕ) → All IsChar cs → decode boundary n n (as_bytes cs) ≡ ok cs
unfolding as_bytes encode_char
decode-as_bytes [] n _ = unfold decode in refl
decode-as_bytes (c ∷ cs) n (h, hs) = ground (
  arith,
  decode_one c n (as_bytes cs),
  decode_two c n (as_bytes cs),
  decode_three c n (as_bytes cs),
  decode_four c n (as_bytes cs),
  decode-as_bytes cs (n + 1) hs,
  decode-as_bytes cs (n + 1 + 1) hs,
  decode-as_bytes cs (n + 1 + 1 + 1) hs,
  decode-as_bytes cs (n + 1 + 1 + 1 + 1) hs,
)

-- Every text is read back from its bytes.
pub from_utf8-as_bytes : (cs : List ℕ) → All IsChar cs → from_utf8 (as_bytes cs) ≡ ok cs
unfolding from_utf8
from_utf8-as_bytes cs h = decode-as_bytes cs 0 h

encode_char-IsByte : (c : ℕ) → IsChar c → All (λ b. b < 256) (encode_char c)
unfolding encode_char
encode_char-IsByte c h = ground arith

pub as_bytes-IsByte : (cs : List ℕ) → All IsChar cs → All (λ b. b < 256) (as_bytes cs)
unfolding as_bytes
as_bytes-IsByte [] _ = tt
as_bytes-IsByte (c ∷ cs) (h, hs) =
    All-append _ (encode_char c) (as_bytes cs) (encode_char-IsByte c h) (as_bytes-IsByte cs hs)

pub as_bytes-append : (cs ds : List ℕ) → as_bytes (cs ++ ds) ≡ as_bytes cs ++ as_bytes ds
unfolding as_bytes
as_bytes-append [] ds = refl
as_bytes-append (c ∷ cs) ds = simp (as_bytes-append cs ds, append_assoc)
