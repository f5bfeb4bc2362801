-- ===== src/Protocol/Escaping/Decode.antt =====
-- What `percent_decode` accepts and returns, against an independent description of the escapes.
pub mod Offsets
pub mod Faults
use lightstreamer_rs.Base.{
  ℕ, ◌+◌, ◌-◌, ◌*◌, ◌<◌, ◌≤◌, ◌≡◌, ◌≢◌, ◌⊎◌, ◌↔◌, inl, inr, refl, sym, ◌∙◌, ap, [], ◌∷◌, ◌++◌, none,
  some, arith, ◌==◌, if◌then◌else◌, Option-cases, Result, ok, err, ◌>>=◌, map_ok, map_err,
  append_assoc, append-nil,
}
use lightstreamer_rs.Text.{Text, Bytes, IsText}
use lightstreamer_rs.Text.Utf8.{as_bytes, from_utf8}
use lightstreamer_rs.Protocol.Errors.{escaping, not_hex}
use lightstreamer_rs.Protocol.Escaping.{
  into_owned, hex_value, escaped_byte, unescape, percent_decode,
}
use lightstreamer_rs.Protocol.Escaping.Loop.{
  unescape_plain, unescape_escape, escaped_byte_lem, joined_sum,
}
use lightstreamer_rs.Protocol.Escaping.RoundTrip.{percent_decode_lem}

-- The second text is the first with its escapes replaced by the bytes that they stand for.
pub data Unescapes : Bytes → Bytes → Type 0 where
  done : Unescapes [] []
  plain : {b : ℕ} {bs ds : Bytes} → b ≢ b'%' → Unescapes bs ds → Unescapes (b ∷ bs) (b ∷ ds)
  escape :
      {p h l x y d : ℕ} {bs ds : Bytes}
      → p ≡ b'%'
      → hex_value h ≡ some x
      → hex_value l ≡ some y
      → d ≡ x * 16 + y
      → Unescapes bs ds
      → Unescapes (p ∷ h ∷ l ∷ bs) (d ∷ ds)

hex_value-lt : (b x : ℕ) → hex_value b ≡ some x → x < 16
unfolding hex_value
hex_value-lt b x h = ground arith

unescape-Unescapes :
    {bs ds : Bytes} → Unescapes bs ds → (i : ℕ) (acc : Bytes) → unescape i acc bs ≡ ok (acc ++ ds)
unescape-Unescapes done i acc = unfold unescape in rw append-nil
unescape-Unescapes (plain {b} {bs} {ds} h u) i acc =
    rw (unescape_plain i acc b bs h, unescape-Unescapes u (i + 1) (acc ++ b ∷ []), append_assoc)
unescape-Unescapes (escape {p} {h} {l} {x} {y} {d} {bs} {ds} e hx hy s u) i acc = rw (
  e,
  unescape_escape,
  escaped_byte_lem i h l hx hy,
  joined_sum x y (hex_value-lt h x hx) (hex_value-lt l y hy),
  ← s,
  unescape-Unescapes u (i + 3) (acc ++ d ∷ []),
  append_assoc,
)

abbrev Decoded : Bytes → Bytes → Bytes → Type 0
Decoded bs acc r = (ds : Bytes) × (r ≡ acc ++ ds) × Unescapes bs ds

Decoded-plain :
    (bs acc r : Bytes) (b : ℕ) → b ≢ b'%' → Decoded bs (acc ++ b ∷ []) r → Decoded (b ∷ bs) acc r
Decoded-plain bs acc r b h (ds, e, u) = (b ∷ ds, e ∙ append_assoc acc (b ∷ []) ds, plain h u)

-- The two outcomes of one escape.
data EscapeCase (i h l : ℕ) : Type 0 where
  good : (x y : ℕ) → hex_value h ≡ some x → hex_value l ≡ some y → EscapeCase i h l
  bad :
      (hex_value h ≡ none) ⊎ (hex_value l ≡ none)
      → escaped_byte i h l ≡ err (escaping i not_hex)
      → EscapeCase i h l

escape_case : (i h l : ℕ) → EscapeCase i h l
unfolding escaped_byte
escape_case i h l = elim (Option-cases (hex_value h)) [
  | inl e ↦ bad (inl e) (ground arith)
  | inr (x, p) ↦ elim (Option-cases (hex_value l)) [
    | inl e ↦ bad (inr e) (ground arith)
    | inr (y, q) ↦ good x y p q
  ]
]

unescape_bad :
    (i h l : ℕ) (acc rest : Bytes)
    → escaped_byte i h l ≡ err (escaping i not_hex)
    → unescape i acc (b'%' ∷ h ∷ l ∷ rest) ≡ err (escaping i not_hex)
unescape_bad i h l acc rest e = rw (unescape_escape, e)

unescape_good :
    (i h l : ℕ) (acc rest : Bytes) {x y : ℕ}
    → hex_value h ≡ some x
    → hex_value l ≡ some y
    → unescape i acc (b'%' ∷ h ∷ l ∷ rest) ≡ unescape (i + 3) (acc ++ (x * 16 + y) ∷ []) rest
unescape_good i h l acc rest {x} {y} p q = rw (
  unescape_escape,
  escaped_byte_lem i h l p q,
  joined_sum x y (hex_value-lt h x p) (hex_value-lt l y q),
)

percent_or_plain : (b : ℕ) → (b ≡ b'%') ⊎ (b ≢ b'%')
percent_or_plain b = ground arith

unescape_sound : (bs : Bytes) (i : ℕ) (acc r : Bytes) → unescape i acc bs ≡ ok r → Decoded bs acc r
unfolding unescape
unescape_sound [] i acc r h = ([], ground (arith, append-nil acc), done)
unescape_sound (b ∷ []) i acc r h = elim (percent_or_plain b) [
  | inl e ↦ absurd (ground arith)
  | inr n ↦
      Decoded-plain [] acc r b n
        (unescape_sound [] (i + 1) (acc ++ b ∷ []) r (sym (unescape_plain i acc b [] n) ∙ h))
]
unescape_sound (b ∷ c ∷ []) i acc r h = elim (percent_or_plain b) [
  | inl e ↦ absurd (ground arith)
  | inr n ↦ Decoded-plain (c ∷ []) acc r b n (
      unescape_sound (c ∷ []) (i + 1) (acc ++ b ∷ []) r
        (sym (unescape_plain i acc b (c ∷ []) n) ∙ h))
]
unescape_sound (b ∷ c ∷ d ∷ rest) i acc r h = elim (percent_or_plain b) [
  | inr n ↦ Decoded-plain (c ∷ d ∷ rest) acc r b n (
      unescape_sound (c ∷ d ∷ rest) (i + 1) (acc ++ b ∷ []) r
        (sym (unescape_plain i acc b (c ∷ d ∷ rest) n) ∙ h))
  | inl e ↦ elim (escape_case i c d) [
    | bad _ q ↦
        absurd
          (cc (h, unescape_bad i c d acc rest q, ap (λ p. unescape i acc (p ∷ c ∷ d ∷ rest)) e))
    | good x y p q ↦
        let (ds, s, u) = unescape_sound rest (i + 3) (acc ++ (x * 16 + y) ∷ []) r (
          sym (unescape_good i c d acc rest p q)
          ∙ sym (ap (λ z. unescape i acc (z ∷ c ∷ d ∷ rest)) e)
          ∙ h) in
        ((x * 16 + y) ∷ ds, s ∙ append_assoc acc ((x * 16 + y) ∷ []) ds, escape e p q refl u)
  ]
]

>>=-eq-ok :
    {E F : Type 0} {A B : Type 0} (r : Result F A) (f : E → F) (g : A → Result E B) {b : B}
    → (r >>= λ d. map_err f (g d)) ≡ ok b
    → (d : A) × (r ≡ ok d) × (g d ≡ ok b)
>>=-eq-ok (err e) f g h = absurd (cc)
>>=-eq-ok {E} {F} {A} {B} (ok d) f g {b} h = (d, refl, go (g d) h)
  where
    go : (x : Result E B) → map_err f x ≡ ok b → x ≡ ok b
    go (ok c) q = ground arith
    go (err e) q = absurd (cc)

-- `percent_decode` returns `u` exactly if the bytes of `u` are the bytes of the input with every
-- escape replaced by the byte that its two hexadecimal digits spell.
pub percent_decode_iff :
    (t u : Text)
    → IsText t
    → (map_ok into_owned (percent_decode t) ≡ ok u)
      ↔ ((ds : Bytes) × Unescapes (as_bytes t) ds × (from_utf8 ds ≡ ok u))
percent_decode_iff t u h = (to, from)
  where
    to :
        map_ok into_owned (percent_decode t) ≡ ok u
        → (ds : Bytes) × Unescapes (as_bytes t) ds × (from_utf8 ds ≡ ok u)
    to e =
        let (d, p, q) =
          >>=-eq-ok (unescape 0 [] (as_bytes t)) _ from_utf8 (sym (percent_decode_lem t h) ∙ e) in
        let (ds, s, v) = unescape_sound (as_bytes t) 0 [] d p in (ds, v, ap from_utf8 (sym s) ∙ q)

    from :
        ((ds : Bytes) × Unescapes (as_bytes t) ds × (from_utf8 ds ≡ ok u))
        → map_ok into_owned (percent_decode t) ≡ ok u
    from (ds, v, q) = rw (percent_decode_lem t h, unescape-Unescapes v 0 [], q)
