-- ===== src/Protocol/Escaping/RoundTrip.antt =====
-- `percent_decode` undoes `encode_form_value`, and what the encoder may emit.
use native.Mathlib.Nat.{zero-add}
use lightstreamer_rs.Base.{
  ℕ, ◌+◌, ◌/◌, ◌%◌, ◌<◌, ◌≤◌, ◌≡◌, ◌≢◌, ◌⊎◌, inl, inr, refl, sym, ◌∙◌, true, none, codes, [], ◌∷◌,
  ◌++◌, arith, Result, err, ok, ◌>>=◌, map_ok, map_err, All, All-append, append_assoc, append-nil,
  Bool-cases, Option-cases, take, drop,
}
use lightstreamer_rs.Text.{Lacks, find_byte, Text, Bytes, IsText, IsByte}
use lightstreamer_rs.Text.Utf8.{
  as_bytes, encode_char, from_utf8, from_utf8-as_bytes, as_bytes-IsByte,
}
use lightstreamer_rs.Protocol.Escaping.{
  into_owned, owned, is_unreserved, hex_digit, unescape, percent_decode, all_unreserved,
  encode_byte, encode_bytes, encode_form_value, input_offset_of_decoded_byte,
}
use lightstreamer_rs.Protocol.Errors.{escaping, not_utf8}
use lightstreamer_rs.Protocol.Escaping.Loop.{
  unescape_plain, unescape_escape, hex_value-hex_digit, escaped_byte_lem, joined_nibbles,
  unescape-find_byte, unescape-find_byte-none,
}

-- The encoding of each byte, one after the other.
pub spelled : Bytes → Text
spelled [] = []
spelled (b ∷ bs) = encode_byte b ++ spelled bs

encode_bytes-spelled : (bs acc : Bytes) → encode_bytes acc bs ≡ acc ++ spelled bs
unfolding encode_bytes spelled
encode_bytes-spelled [] acc = sym (append-nil acc)
encode_bytes-spelled (b ∷ bs) acc = simp (encode_bytes-spelled bs, append_assoc)

unreserved-ne-percent : (b : ℕ) → is_unreserved b ≡ true → b ≢ b'%'
unfolding is_unreserved
unreserved-ne-percent b h = ground arith

unescape-encode_byte :
    (b i : ℕ) (acc rest : Bytes)
    → b < 256
    → (j : ℕ) × (unescape i acc (encode_byte b ++ rest) ≡ unescape j (acc ++ b ∷ []) rest)
unfolding encode_byte
unescape-encode_byte b i acc rest h = elim (Bool-cases (is_unreserved b)) [
  | inl u ↦ (i + 1, rw u (unescape_plain i acc b rest (unreserved-ne-percent b u)))
  | inr r ↦ (
    i + 3,
    rw (
      r,
      unescape_escape,
      escaped_byte_lem i (hex_digit (b / 16)) (hex_digit (b % 16))
          (hex_value-hex_digit (b / 16) (omega arith)) (hex_value-hex_digit (b % 16) (omega arith)),
      joined_nibbles b h,
    ),
  )
]

unescape-spelled :
    (bs acc : Bytes) (i : ℕ) → All IsByte bs → unescape i acc (spelled bs) ≡ ok (acc ++ bs)
unfolding spelled
unescape-spelled [] acc i _ = unfold unescape in rw append-nil
unescape-spelled (b ∷ bs) acc i (h, hs) =
    let (j, e) = unescape-encode_byte b i acc (spelled bs) h in
    rw (e, unescape-spelled bs (acc ++ b ∷ []) j hs, append_assoc)

owned_bind :
    {E : Type 0} {A : Type 0} (r : Result E A) (g : A → Result E Text)
    → map_ok into_owned (r >>= λ d. g d >>= λ t. ok (owned t)) ≡ (r >>= g)
owned_bind {E} (err e) g = refl
owned_bind {E} (ok d) g = go (g d)
  where
    go : (u : Result E Text) → map_ok into_owned (u >>= λ t. ok (owned t)) ≡ u
    go (ok t) = refl
    go (err e) = refl

-- The decoder without its fast path and without the copied prefix.
pub percent_decode_lem :
    (t : Text)
    → IsText t
    → map_ok into_owned (percent_decode t) ≡ (
        unescape 0 [] (as_bytes t) >>= λ d.
        map_err (λ v. escaping (input_offset_of_decoded_byte t v) not_utf8) (from_utf8 d))
unfolding percent_decode
percent_decode_lem t h = elim (Option-cases (find_byte b'%' (as_bytes t))) [
  | inl e ↦
      rw (e, percent_decode, unescape-find_byte-none (as_bytes t) 0 [] e, from_utf8-as_bytes t h)
  | inr (first, e) ↦
      rw (e, percent_decode, unescape-find_byte (as_bytes t) first 0 [] e, zero-add)
        (owned_bind (unescape first (take first (as_bytes t)) (drop first (as_bytes t)))
          (λ d. map_err (λ v. escaping (input_offset_of_decoded_byte t v) not_utf8) (from_utf8 d)))
]

as_bytes_ascii : (t : Text) → All (λ c. c < 128) t → as_bytes t ≡ t
unfolding as_bytes encode_char
as_bytes_ascii [] _ = refl
as_bytes_ascii (c ∷ t) (h, hs) = ground (arith, as_bytes_ascii t hs)

find_byte-none_of_Lacks : (x : ℕ) (t : Text) → Lacks x t → find_byte x t ≡ none
unfolding find_byte
find_byte-none_of_Lacks x [] h = refl
find_byte-none_of_Lacks x (c ∷ t) (hc, h) = ground (arith, find_byte-none_of_Lacks x t h)

-- Text without an escape is returned as it is.
pub percent_decode_plain :
    (t : Text) → All (λ c. c < 128) t → Lacks b'%' t → map_ok into_owned (percent_decode t) ≡ ok t
unfolding percent_decode
percent_decode_plain t ascii h =
    rw (percent_decode, as_bytes_ascii t ascii, find_byte-none_of_Lacks b'%' t h)

encode_byte_ascii : (b : ℕ) → b < 256 → All (λ c. c < 128) (encode_byte b)
unfolding encode_byte is_unreserved hex_digit
encode_byte_ascii b h = ground arith

spelled_ascii : (bs : Bytes) → All IsByte bs → All (λ c. c < 128) (spelled bs)
unfolding spelled
spelled_ascii [] _ = tt
spelled_ascii (b ∷ bs) (h, hs) =
    All-append _ (encode_byte b) (spelled bs) (encode_byte_ascii b h) (spelled_ascii bs hs)

as_bytes_unreserved : (t : Text) → all_unreserved (as_bytes t) ≡ true → as_bytes t ≡ t
unfolding all_unreserved is_unreserved as_bytes encode_char
as_bytes_unreserved [] h = refl
as_bytes_unreserved (c ∷ t) h = ground (arith, as_bytes_unreserved t)

spelled_unreserved : (bs : Bytes) → all_unreserved bs ≡ true → spelled bs ≡ bs
unfolding all_unreserved spelled encode_byte
spelled_unreserved [] h = refl
spelled_unreserved (b ∷ bs) h = ground (arith, spelled_unreserved bs)

-- The fast path of the encoder changes nothing.
pub encode_form_value_lem : (t : Text) → into_owned (encode_form_value t) ≡ spelled (as_bytes t)
unfolding encode_form_value
encode_form_value_lem t = elim (Bool-cases (all_unreserved (as_bytes t))) [
  | inl u ↦ rw u (sym (spelled_unreserved _ u ∙ as_bytes_unreserved t u))
  | inr r ↦ rw (r, encode_bytes-spelled)
]

ascii-IsText : (t : Text) → All (λ c. c < 128) t → IsText t
ascii-IsText [] _ = tt
ascii-IsText (c ∷ t) (h, hs) = (omega arith, ascii-IsText t hs)

-- Whatever text a request value holds, the percent-decoder reads it back from its encoding.
pub percent_decode-encode_form_value :
    (t : Text)
    → IsText t
    → map_ok into_owned (percent_decode (into_owned (encode_form_value t))) ≡ ok t
percent_decode-encode_form_value t h =
    let bytes = as_bytes-IsByte t h in
    let ascii = spelled_ascii (as_bytes t) bytes in
    rw (
      encode_form_value_lem,
      percent_decode_lem _ (ascii-IsText _ ascii),
      as_bytes_ascii _ ascii,
      unescape-spelled (as_bytes t) [] 0 bytes,
      from_utf8-as_bytes t h,
    )

-- The unreserved characters of RFC 3986: letters, digits and four marks.
abbrev pub IsRfc3986Unreserved : ℕ → Type 0
IsRfc3986Unreserved c =
    ((b'A' ≤ c) × (c ≤ b'Z'))
    ⊎ ((b'a' ≤ c) × (c ≤ b'z'))
    ⊎ ((b'0' ≤ c) × (c ≤ b'9'))
    ⊎ (c ≡ b'-')
    ⊎ (c ≡ b'.')
    ⊎ (c ≡ b'_')
    ⊎ (c ≡ b'~')

-- A character that stands for itself, or the mark of an escape.
abbrev pub IsSafe : ℕ → Type 0
IsSafe c = IsRfc3986Unreserved c ⊎ (c ≡ b'%')

encode_byte-IsSafe : (b : ℕ) → b < 256 → All IsSafe (encode_byte b)
unfolding encode_byte is_unreserved hex_digit
encode_byte-IsSafe b h = ground arith

spelled-IsSafe : (bs : Bytes) → All IsByte bs → All IsSafe (spelled bs)
unfolding spelled
spelled-IsSafe [] _ = tt
spelled-IsSafe (b ∷ bs) (h, hs) =
    All-append _ (encode_byte b) (spelled bs) (encode_byte-IsSafe b h) (spelled-IsSafe bs hs)

-- An encoded value holds unreserved characters of RFC 3986 and the `%` of escapes only, so no
-- reserved character of a request line.
pub encode_form_value-IsSafe : (t : Text) → IsText t → All IsSafe (into_owned (encode_form_value t))
encode_form_value-IsSafe t h =
    rw encode_form_value_lem (spelled-IsSafe (as_bytes t) (as_bytes-IsByte t h))

-- A space is escaped: the identifier that a client sends.
pub encode_form_value_space :
    into_owned (encode_form_value (codes "mgQkwtwdysogQz2BJ4Ji kOj2Bg"))
    ≡ codes "mgQkwtwdysogQz2BJ4Ji%20kOj2Bg"
unfolding encode_form_value encode_bytes all_unreserved is_unreserved as_bytes encode_char
    encode_byte hex_digit
encode_form_value_space = refl
