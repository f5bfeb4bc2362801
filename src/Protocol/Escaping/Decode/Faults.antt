-- ===== src/Protocol/Escaping/Decode/Faults.antt =====
-- What `percent_decode` refuses, and the position that its errors name.
use lightstreamer_rs.Base.{
  ℕ, suc, ◌+◌, ◌*◌, ◌≡◌, ◌⊎◌, inl, inr, refl, sym, ◌∙◌, ap, [], ◌∷◌, ◌++◌, none, arith, Result, ok,
  err, ◌>>=◌, map_ok, map_err, drop, take, length,
}
use lightstreamer_rs.Text.{Text, Bytes, IsText}
use lightstreamer_rs.Text.Utf8.{as_bytes, from_utf8}
use lightstreamer_rs.Protocol.Errors.{
  ProtocolError, escaping, EscapeReason, truncated, not_hex, not_utf8,
}
use lightstreamer_rs.Protocol.Escaping.{
  into_owned, hex_value, unescape, percent_decode, input_offset_of_decoded_byte,
}
use lightstreamer_rs.Protocol.Escaping.Loop.{unescape_plain}
use lightstreamer_rs.Protocol.Escaping.RoundTrip.{percent_decode_lem}
use lightstreamer_rs.Protocol.Escaping.Decode.Offsets.{input_offset-Cut}
use lightstreamer_rs.Protocol.Escaping.Decode.{
  Unescapes, percent_or_plain, escape_case, good, bad, unescape_bad, unescape_good, unescape_sound,
}

-- What stands at the position that an error names.
abbrev pub IsMalformed : EscapeReason → Bytes → Type 0
IsMalformed truncated (b ∷ []) = b ≡ b'%'
IsMalformed truncated (b ∷ h ∷ []) = b ≡ b'%'
IsMalformed not_hex (b ∷ h ∷ l ∷ rest) = (b ≡ b'%') × ((hex_value h ≡ none) ⊎ (hex_value l ≡ none))
IsMalformed r bs = ⊥

abbrev Faulty : Bytes → ℕ → ProtocolError → Type 0
Faulty bs i e = (j : ℕ) × (r : EscapeReason) × (e ≡ escaping (i + j) r) × IsMalformed r (drop j bs)

Faulty-suc : (bs : Bytes) (b i : ℕ) (e : ProtocolError) → Faulty bs (i + 1) e → Faulty (b ∷ bs) i e
Faulty-suc bs b i e (j, r, p, m) = (suc j, r, ground arith, m)

Faulty-escape :
    (bs : Bytes) (b h l i : ℕ) (e : ProtocolError)
    → Faulty bs (i + 3) e
    → Faulty (b ∷ h ∷ l ∷ bs) i e
Faulty-escape bs b h l i e (j, r, p, m) = (suc (suc (suc j)), r, ground arith, m)

unescape_err :
    (bs : Bytes) (i : ℕ) (acc : Bytes) (e : ProtocolError)
    → unescape i acc bs ≡ err e
    → Faulty bs i e
unfolding unescape
unescape_err [] i acc e h = absurd (cc)
unescape_err (b ∷ []) i acc e h = elim (percent_or_plain b) [
  | inl p ↦ (0, truncated, ground arith, p)
  | inr n ↦
      Faulty-suc [] b i e
        (unescape_err [] (i + 1) (acc ++ b ∷ []) e (sym (unescape_plain i acc b [] n) ∙ h))
]
unescape_err (b ∷ c ∷ []) i acc e h = elim (percent_or_plain b) [
  | inl p ↦ (0, truncated, ground arith, p)
  | inr n ↦ Faulty-suc (c ∷ []) b i e (
      unescape_err (c ∷ []) (i + 1) (acc ++ b ∷ []) e (sym (unescape_plain i acc b (c ∷ []) n) ∙ h))
]
unescape_err (b ∷ c ∷ d ∷ rest) i acc e h = elim (percent_or_plain b) [
  | inr n ↦ Faulty-suc (c ∷ d ∷ rest) b i e (
      unescape_err (c ∷ d ∷ rest) (i + 1) (acc ++ b ∷ []) e
        (sym (unescape_plain i acc b (c ∷ d ∷ rest) n) ∙ h))
  | inl q ↦ elim (escape_case i c d) [
    | bad f s ↦ (
      0,
      not_hex,
      ground
          (arith, unescape_bad i c d acc rest s, h, ap (λ z. unescape i acc (z ∷ c ∷ d ∷ rest)) q),
      (q, f),
    )
    | good x y p s ↦ Faulty-escape rest b c d i e (
        unescape_err rest (i + 3) (acc ++ (x * 16 + y) ∷ []) e (
          sym (unescape_good i c d acc rest p s)
          ∙ sym (ap (λ z. unescape i acc (z ∷ c ∷ d ∷ rest)) q)
          ∙ h))
  ]
]

-- Why an input is refused: a malformed escape at the position that is reported; or bytes that are not
-- UTF-8 once the escapes are replaced, and then what stands before the reported position is decoded to
-- as many of them as are valid UTF-8, and what stands from there on to the others.
pub data Fault (t : Text) (e : ProtocolError) : Type 0 where
  bad_escape :
      (i : ℕ) (r : EscapeReason)
      → e ≡ escaping i r
      → IsMalformed r (drop i (as_bytes t))
      → Fault t e
  bad_text :
      (ds before after : Bytes) (valid : ℕ)
      → from_utf8 ds ≡ err valid
      → as_bytes t ≡ before ++ after
      → Unescapes before (take valid ds)
      → Unescapes after (drop valid ds)
      → e ≡ escaping (length before) not_utf8
      → Fault t e

map_ok-err :
    {E : Type 0} {A B : Type 0} (f : A → B) (r : Result E A) {e : E}
    → r ≡ err e
    → map_ok f r ≡ err e
map_ok-err f r h = rw h

-- Every error of `percent_decode` names the position of a fault of its input: of an escape that is
-- malformed, or of the part whose decoding is the first that is not UTF-8.
pub percent_decode-Fault :
    (t : Text) (e : ProtocolError) → IsText t → percent_decode t ≡ err e → Fault t e
percent_decode-Fault t e h q = go (unescape 0 [] (as_bytes t)) refl
  where
    failed :
        (unescape 0 [] (as_bytes t) >>= λ d.
        map_err (λ v. escaping (input_offset_of_decoded_byte t v) not_utf8) (from_utf8 d))
        ≡ err e
    failed = sym (percent_decode_lem t h) ∙ map_ok-err into_owned (percent_decode t) q

    text :
        (d : Bytes) (u : Result ℕ Text)
        → unescape 0 [] (as_bytes t) ≡ ok d
        → from_utf8 d ≡ u
        → map_err (λ v. escaping (input_offset_of_decoded_byte t v) not_utf8) u ≡ err e
        → Fault t e
    text d (ok u) p s z = absurd (cc)
    text d (err v) p s z =
        let (ds, c, w) = unescape_sound (as_bytes t) 0 [] d p in
        let (cut, at) = input_offset-Cut t ds v w in
        let named : e ≡ escaping (input_offset_of_decoded_byte t v) not_utf8 = ground arith in
        bad_text ds cut.before cut.after v (ap from_utf8 (sym c) ∙ s) cut.whole cut.decoded_before
          cut.decoded_after (named ∙ ap (λ i. escaping i not_utf8) at)

    go : (r : Result ProtocolError Bytes) → unescape 0 [] (as_bytes t) ≡ r → Fault t e
    go (ok d) p = text d (from_utf8 d) p refl (rw p at failed)
    go (err f) p =
        let (j, r, c, m) = unescape_err (as_bytes t) 0 [] f p in
        let same : err f ≡ err e = rw p at failed in bad_escape j r (ground arith) m
