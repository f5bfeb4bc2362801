-- ===== src/Protocol/TlcpRequest/Values.antt =====
-- Which texts are the values of a request.
use lightstreamer_rs.Base.{
  ℕ, ◌≡◌, ◌≢◌, ◌≤◌, ◌↔◌, ◌⊎◌, inl, inr, refl, sym, subst, ap, arith, Bool, true, false, [], ◌∷◌,
  ◌++◌, ok, err, All, codes, none, Option-cases, Bool-cases, if◌then◌else◌,
}
use lightstreamer_rs.Text.{
  Text, Lacks, same_text, same_text_refl, same_text-ne, split_once, split_once-append,
  split_once-parts,
}
use lightstreamer_rs.Text.Numbers.{IsDigit}
use lightstreamer_rs.Protocol.Arguments.{is_decimal_number, is_digits, all_digits}
use lightstreamer_rs.Protocol.Errors.{ProtocolError, request, reserved_sequence, sequence_not_word}
use lightstreamer_rs.Protocol.Requests.{
  message_name, DecimalNumber, new_decimal_number, SequenceName, new_sequence_name, all_word,
}

-- A letter, a digit or an underscore.
abbrev pub IsWordChar : ℕ → Type 0
IsWordChar c = IsDigit c ⊎ (b'A' ≤ c) × (c ≤ b'Z') ⊎ (b'a' ≤ c) × (c ≤ b'z') ⊎ (c ≡ b'_')

all_word_iff : (t : Text) → (all_word t ≡ true) ↔ All IsWordChar t
unfolding all_word
all_word_iff [] = ground arith
all_word_iff (c ∷ t) = ground (arith, all_word_iff t)

all_digits_iff : (t : Text) → (all_digits t ≡ true) ↔ All IsDigit t
unfolding all_digits
all_digits_iff [] = ground arith
all_digits_iff (c ∷ t) = ground (arith, all_digits_iff t)

same_text-false_iff : (t u : Text) → (same_text t u ≡ false) ↔ (t ≢ u)
same_text-false_iff t u = (
  (λ h e.
      let same : same_text t u ≡ true = subst (λ v. same_text t v ≡ true) e (same_text_refl t) in
      cc),
  (λ h. same_text-ne t u h),
)

named_iff :
    (reserved word : Bool) (t : Text) (s : SequenceName) (e f : ProtocolError)
    → ((if reserved then err e else if word then ok (record { text = t }) else err f) ≡ ok s)
      ↔ (s.text ≡ t) × (reserved ≡ false) × (word ≡ true)
named_iff true word t s e f = ground arith
named_iff false true t s e f = (
  (λ h.
      let same : ◌≡◌ {A = SequenceName} (record { text = t }) s = cc in
      (sym (ap (λ v. v.text) same), refl, refl)),
  (λ h. ap (λ v. ok (record { text = v })) (sym h.0)),
)
named_iff false false t s e f = ground arith

-- The name of a sequence is accepted exactly if it is a nonempty run of letters, digits and
-- underscores other than the reserved word, and it is kept as it is.
new_sequence_name_iff :
    (t : Text) (s : SequenceName)
    → (new_sequence_name t ≡ ok s)
      ↔ (s.text ≡ t) × (t ≢ []) × (t ≢ codes "UNORDERED_MESSAGES") × All IsWordChar t
unfolding new_sequence_name
new_sequence_name_iff [] s = ground arith
new_sequence_name_iff (c ∷ t) s =
    let (there, back) =
      named_iff (same_text (c ∷ t) (codes "UNORDERED_MESSAGES")) (all_word (c ∷ t)) (c ∷ t) s
        (request message_name reserved_sequence)
        (request message_name (sequence_not_word (c ∷ t))) in
    let (w, w') = all_word_iff (c ∷ t) in
    let (r, r') = same_text-false_iff (c ∷ t) (codes "UNORDERED_MESSAGES") in
    ((λ h. let (e, n, a) = there h in (e, (λ q. cc), r n, w a)), (λ h. back (h.0, r' h.2, w' h.3)))

-- One digit or more.
abbrev pub IsNumeral : Text → Type 0
IsNumeral t = (t ≢ []) × All IsDigit t

-- A numeral, or two of them around a dot.
abbrev pub IsDecimal : Text → Type 0
IsDecimal t =
    IsNumeral t ⊎ (a : Text) × (b : Text) × (t ≡ a ++ b'.' ∷ b) × IsNumeral a × IsNumeral b

is_digits_iff : (t : Text) → (is_digits t ≡ true) ↔ IsNumeral t
is_digits_iff [] = ground arith
is_digits_iff (c ∷ t) = ground (arith, all_digits_iff (c ∷ t))

Lacks-digits : (t : Text) → All IsDigit t → Lacks b'.' t
Lacks-digits [] h = tt
Lacks-digits (c ∷ t) (hc, h) = (omega arith, Lacks-digits t h)

split_once-none : (x : ℕ) (t : Text) → Lacks x t → split_once x t ≡ none
unfolding split_once
split_once-none x [] h = refl
split_once-none x (c ∷ t) (hc, h) = ground (arith, split_once-none x t h)

is_decimal_number_iff : (t : Text) → (is_decimal_number t ≡ true) ↔ IsDecimal t
unfolding is_decimal_number
is_decimal_number_iff t = (there, back)
  where
    there : is_decimal_number t ≡ true → IsDecimal t
    there h = elim (Option-cases (split_once b'.' t)) [
      | inl e ↦ let d : is_digits t ≡ true = ground arith in inl ((is_digits_iff t).0 d)
      | inr ((a, b), e) ↦
          let ha : is_digits a ≡ true = ground arith in
          let hb : is_digits b ≡ true = ground arith in
          inr (
            a,
            b,
            sym (split_once-parts b'.' t a b e).0,
            (is_digits_iff a).0 ha,
            (is_digits_iff b).0 hb,
          )
    ]

    back : IsDecimal t → is_decimal_number t ≡ true
    back (inl h) =
        rw (is_decimal_number, split_once-none b'.' t (Lacks-digits t h.1)) ((is_digits_iff t).1 h)
    back (inr (a, b, e, ha, hb)) = rw (
      e,
      is_decimal_number,
      split_once-append b'.' a b (Lacks-digits a ha.1),
      (is_digits_iff a).1 ha,
      (is_digits_iff b).1 hb,
    )

-- A decimal number is accepted exactly if it is a numeral or two numerals around a dot, and it is
-- kept as it is.
new_decimal_number_iff :
    (t : Text) (n : DecimalNumber) → (new_decimal_number t ≡ ok n) ↔ (n.text ≡ t) × IsDecimal t
unfolding new_decimal_number
new_decimal_number_iff t n = (there, back)
  where
    there : new_decimal_number t ≡ ok n → (n.text ≡ t) × IsDecimal t
    there h = elim (Bool-cases (is_decimal_number t)) [
      | inl e ↦
          let same : ◌≡◌ {A = DecimalNumber} (record { text = t }) n = ground arith in
          (sym (ap (λ v. v.text) same), (is_decimal_number_iff t).0 e)
      | inr e ↦ ground arith
    ]

    back : (n.text ≡ t) × IsDecimal t → new_decimal_number t ≡ ok n
    back (e, d) = rw (new_decimal_number, (is_decimal_number_iff t).1 d, sym e) refl
