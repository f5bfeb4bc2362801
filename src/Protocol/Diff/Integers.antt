-- ===== src/Protocol/Diff/Integers.antt =====
-- The encoded integers of a TLCP-diff: an encoder by the example table of Appendix D, and the decoder
-- as its inverse.
use native.Mathlib.Nat.{add_assoc}
use lightstreamer_rs.Base.{
  ℕ, zero, suc, ◌+◌, ◌-◌, ◌*◌, ◌/◌, ◌%◌, ◌<◌, ◌≤◌, ◌≡◌, refl, sym, ◌∙◌, ap, inl, inr, true, false,
  [], ◌∷◌, ◌++◌, arith, ◌==◌, if◌then◌else◌, ok, usize_mod, All, length, length-append, Bool-cases,
}
use lightstreamer_rs.Text.{Text, is_ascii_uppercase}
use lightstreamer_rs.Protocol.Diff.{decode_integer, alphabet_index, accumulate}

-- The capital letters in front of `out`. A capital letter of value v counts v + 1 at its weight, so
-- the digits of `q` are those of the bijective numeration in base 26.
pub capitals : ℕ → ℕ → Text → Text
capitals zero q out = out
capitals (suc rounds) q out =
    if q == 0 then out else capitals rounds ((q - 1) / 26) ((b'A' + (q - 1) % 26) ∷ out)

unfoldable pub encode_integer : ℕ → Text
unfolding capitals
encode_integer n = capitals (n / 26) (n / 26) ((b'a' + n % 26) ∷ [])

decode_capital :
    (p acc v : ℕ) (rest : Text)
    → v < 26
    → acc * 26 + v + 1 < usize_mod
    → decode_integer p acc ((b'A' + v) ∷ rest) ≡ decode_integer (p + 1) (acc * 26 + v + 1) rest
unfolding decode_integer alphabet_index accumulate
decode_capital p acc v rest h k = ground arith

decode_small :
    (p acc v : ℕ) (rest : Text)
    → v < 26
    → acc * 26 + v < usize_mod
    → decode_integer p acc ((b'a' + v) ∷ rest) ≡ ok (acc * 26 + v, p + 1, rest)
unfolding decode_integer alphabet_index accumulate
decode_small p acc v rest h k = ground arith

decode-capitals :
    (rounds q p : ℕ) (out : Text)
    → q ≤ rounds
    → q < usize_mod
    → (k : ℕ) × (decode_integer p 0 (capitals rounds q out) ≡ decode_integer k q out)
unfolding capitals
decode-capitals zero q p out h b = (p, ground arith)
decode-capitals (suc rounds) q p out h b = elim (Bool-cases (q == 0)) [
  | inl e ↦ (p, ground arith)
  | inr e ↦
      let (k, d) =
        decode-capitals rounds ((q - 1) / 26) p ((b'A' + (q - 1) % 26) ∷ out) (ground arith)
          (omega arith) in
      let value : (q - 1) / 26 * 26 + (q - 1) % 26 + 1 ≡ q = ground arith in
      let last = decode_capital k ((q - 1) / 26) ((q - 1) % 26) out (omega arith) (omega arith) in
      (k + 1, rw e (d ∙ last ∙ ap (λ v. decode_integer (k + 1) v out) value))
]

capitals-append :
    (rounds q : ℕ) (out rest : Text)
    → capitals rounds q out ++ rest ≡ capitals rounds q (out ++ rest)
unfolding capitals
capitals-append zero q out rest = refl
capitals-append (suc rounds) q out rest =
    ground (arith, capitals-append rounds ((q - 1) / 26) ((b'A' + (q - 1) % 26) ∷ out) rest)

-- An integer read leaves the position as far on as characters were read.
pub decode_integer-position :
    (text : Text) (p acc : ℕ) {n p' : ℕ} {rest : Text}
    → decode_integer p acc text ≡ ok (n, p', rest)
    → (p' + length rest ≡ p + length text) × (length rest < length text) × (n < usize_mod)
unfolding decode_integer alphabet_index accumulate
decode_integer-position [] p acc h = absurd (cc)
decode_integer-position (c ∷ text) p acc {n} {p'} {rest} h = ground (
  arith,
  decode_integer-position text (p + 1) (acc * 26 + (c - b'A' + 1)) {n = n} {p' = p'} {rest = rest},
)

decode_encoded :
    (n p : ℕ) (rest : Text)
    → n < usize_mod
    → (k : ℕ) × (decode_integer p 0 (encode_integer n ++ rest) ≡ ok (n, k, rest))
unfolding encode_integer
decode_encoded n p rest h =
    let (k, d) =
      decode-capitals (n / 26) (n / 26) p ((b'a' + n % 26) ∷ rest) (omega arith) (omega arith) in
    let last = decode_small k (n / 26) (n % 26) rest (omega arith) (omega arith) in
    let value : n / 26 * 26 + n % 26 ≡ n = omega arith in
    (k + 1, rw capitals-append (d ∙ last ∙ ap (λ v. ok (v, k + 1, rest)) value))

-- The decoder reads every `usize` back from its encoding, whatever follows it, and stops right behind
-- it.
pub decode_integer-encode_integer :
    (n p : ℕ) (rest : Text)
    → n < usize_mod
    → decode_integer p 0 (encode_integer n ++ rest) ≡ ok (n, p + length (encode_integer n), rest)
decode_integer-encode_integer n p rest h =
    let (k, d) = decode_encoded n p rest h in
    let (e, _, _) = decode_integer-position (encode_integer n ++ rest) p 0 d in
    let stop : k ≡ p + length (encode_integer n) =
      omega (arith, length-append (encode_integer n) rest) in
    d ∙ ap (λ j. ok (n, j, rest)) stop

capitals_rounds : (f g q : ℕ) (out : Text) → q ≤ f → q ≤ g → capitals f q out ≡ capitals g q out
unfolding capitals
capitals_rounds zero zero q out h k = refl
capitals_rounds zero (suc g) q out h k = ground arith
capitals_rounds (suc f) zero q out h k = ground arith
capitals_rounds (suc f) (suc g) q out h k =
    ground (arith, capitals_rounds f g ((q - 1) / 26) ((b'A' + (q - 1) % 26) ∷ out))

-- A capital letter is the next digit.
capitals_digit :
    (acc v : ℕ) (out : Text)
    → v < 26
    → capitals (acc * 26 + v + 1) (acc * 26 + v + 1) out ≡ capitals acc acc ((b'A' + v) ∷ out)
unfolding capitals
capitals_digit acc v out h =
    let high : (acc * 26 + v) / 26 ≡ acc = omega arith in
    let low : (acc * 26 + v) % 26 ≡ v = omega arith in
    ground (arith, capitals_rounds (acc * 26 + v) acc acc ((b'A' + v) ∷ out))

after_capital :
    (c p acc : ℕ) (text : Text) {n p' : ℕ} {rest : Text}
    → is_ascii_uppercase c ≡ true
    → decode_integer p acc (c ∷ text) ≡ ok (n, p', rest)
    → decode_integer (p + 1) (acc * 26 + (c - b'A') + 1) text ≡ ok (n, p', rest)
unfolding decode_integer alphabet_index accumulate
after_capital c p acc text u h = ground (arith, add_assoc (acc * 26) (c - b'A') 1)

after_small :
    (c p acc : ℕ) (text : Text) {n p' : ℕ} {rest : Text}
    → is_ascii_uppercase c ≡ false
    → decode_integer p acc (c ∷ text) ≡ ok (n, p', rest)
    → (b'a' ≤ c) × (c ≤ b'z') × (n ≡ acc * 26 + (c - b'a')) × (rest ≡ text)
unfolding decode_integer alphabet_index accumulate
after_small c p acc text u h = ground arith

-- What the decoder has read is the encoding of the value, and no other spelling of it.
pub decode_integer_canonical :
    (text : Text) (p acc : ℕ) {n p' : ℕ} {rest : Text}
    → decode_integer p acc text ≡ ok (n, p', rest)
    → (read : Text) × (text ≡ read ++ rest) × (capitals acc acc read ≡ encode_integer n)
decode_integer_canonical [] p acc h = absurd (unfold decode_integer in cc)
decode_integer_canonical (c ∷ text) p acc {n} {p'} {rest} h =
    elim (Bool-cases (is_ascii_uppercase c)) [
      | inl u ↦
          let v = c - b'A' in
          let letter : b'A' + v ≡ c = ground arith in
          let (read, s, e) =
            decode_integer_canonical text (p + 1) (acc * 26 + v + 1)
              (after_capital c p acc text u h) in
          (
            c ∷ read,
            ap (λ t. c ∷ t) s,
            ap (λ l. capitals acc acc (l ∷ read)) (sym letter)
                ∙ sym (capitals_digit acc v read (ground arith))
                ∙ e,
          )
      | inr u ↦
          let (lo, hi, value, same) = after_small c p acc text u h in
          let high : n / 26 ≡ acc = omega arith in
          let letter : b'a' + n % 26 ≡ c = omega arith in
          (c ∷ [], ap (λ t. c ∷ t) (sym same), unfold encode_integer in rw (high, letter))
    ]

length-capitals : (rounds q : ℕ) (out : Text) → length out ≤ length (capitals rounds q out)
unfolding capitals
length-capitals zero q out = omega arith
length-capitals (suc rounds) q out =
    ground (arith, length-capitals rounds ((q - 1) / 26) ((b'A' + (q - 1) % 26) ∷ out))

pub encode_integer_pos : (n : ℕ) → 0 < length (encode_integer n)
unfolding encode_integer
encode_integer_pos n = length-capitals (n / 26) (n / 26) ((b'a' + n % 26) ∷ [])

-- The integer at the front of an accepted text is spelled by the encoder.
pub integer_spelled :
    (text : Text) (p : ℕ) {n q : ℕ} {rest : Text}
    → decode_integer p 0 text ≡ ok (n, q, rest)
    → encode_integer n ++ rest ≡ text
unfolding capitals
integer_spelled text p {n} {q} {rest} h =
    let (read, s, e) = decode_integer_canonical text p 0 h in ap (λ l. l ++ rest) (sym e) ∙ sym s

capitals-All :
    (rounds q : ℕ) (out : Text)
    → All (λ c. c < 128) out
    → All (λ c. c < 128) (capitals rounds q out)
unfolding capitals
capitals-All zero q out h = h
capitals-All (suc rounds) q out h =
    ground
      (arith, capitals-All rounds ((q - 1) / 26) ((b'A' + (q - 1) % 26) ∷ out) (omega arith, h))

pub encode_integer_ascii : (n : ℕ) → All (λ c. c < 128) (encode_integer n)
unfolding encode_integer
encode_integer_ascii n = capitals-All (n / 26) (n / 26) ((b'a' + n % 26) ∷ []) (omega arith, tt)
