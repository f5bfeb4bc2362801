-- ===== src/Text/Numbers.antt =====
-- Numbers as texts: `ToString` and `FromStr` of the integer types.
use lightstreamer_rs.Base.{
  inl, inr, Bool-cases, ltb→lt, ap, ◌∙◌, ℕ, zero, suc, ◌+◌, ◌-◌, ◌*◌, ◌/◌, ◌%◌, ◌^◌, ◌≤◌, ◌<◌, ◌≡◌,
  ◌≢◌, refl, arith, Option, none, some, [], ◌∷◌, ◌++◌, ltb, ◌==◌, if◌then◌else◌, checked_add,
  checked_mul, All, All-append,
}
use lightstreamer_rs.Text.{Text, Lacks, is_ascii_digit}

-- `i64` and `i32`.
pub data ℤ : Type 0 where
  pos : ℕ → ℤ
  negsuc : ℕ → ℤ

-- The digits of a number, for so many rounds.
unfoldable pub digits : ℕ → ℕ → Text
digits zero n = []
digits (suc rounds) n =
    let higher = digits rounds (n / 10) in
    if ltb n 10 then (b'0' + n) ∷ [] else higher ++ (b'0' + n % 10) ∷ []

-- `ToString` of a number; as many rounds as the number and one more are enough.
unfoldable pub decimal : ℕ → Text
unfolding digits
decimal n = digits (suc n) n

abbrev pub signed_decimal : ℤ → Text
signed_decimal (pos n) = decimal n
signed_decimal (negsuc n) = b'-' ∷ decimal (suc n)

-- The loop of `FromStr` over the digits, for numbers below a modulus.
unfoldable pub parse_digits : ℕ → ℕ → Text → Option ℕ
parse_digits modulus total [] = some total
parse_digits modulus total (c ∷ text) =
    if is_ascii_digit c
    then (elim (checked_mul modulus total 10) [
      | none ↦ none
      | some tens ↦ elim (checked_add modulus tens (c - b'0')) [
        | none ↦ none
        | some total' ↦ parse_digits modulus total' text
      ]
    ])
    else none

-- Digits, at least one of them.
abbrev pub parse_magnitude : ℕ → Text → Option ℕ
parse_magnitude modulus [] = none
parse_magnitude modulus (c ∷ text) = parse_digits modulus 0 (c ∷ text)

-- `FromStr` of an unsigned type: a plus sign may stand before the digits.
unfoldable pub parse_unsigned : ℕ → Text → Option ℕ
unfolding parse_digits
parse_unsigned modulus [] = none
parse_unsigned modulus (c ∷ text) =
    if c == b'+' then parse_magnitude modulus text else parse_magnitude modulus (c ∷ text)

abbrev pub negated : Option ℕ → Option ℤ
negated none = none
negated (some zero) = some (pos 0)
negated (some (suc n)) = some (negsuc n)

abbrev pub positive : Option ℕ → Option ℤ
positive none = none
positive (some n) = some (pos n)

-- `i64::from_str`.
unfoldable pub parse_signed : Text → Option ℤ
unfolding parse_digits
parse_signed [] = none
parse_signed (c ∷ text) =
    if c == b'-'
    then negated (parse_magnitude (2 ^ 63 + 1) text)
    else positive (parse_unsigned (2 ^ 63) (c ∷ text))

abbrev pub IsDigit : ℕ → Type 0
IsDigit c = (b'0' ≤ c) × (c ≤ b'9')

digits-IsDigit : (rounds n : ℕ) → All IsDigit (digits rounds n)
unfolding digits
digits-IsDigit zero n = tt
digits-IsDigit (suc rounds) n =
    let ih = digits-IsDigit rounds (n / 10) in
    let all =
      All-append IsDigit (digits rounds (n / 10)) ((b'0' + n % 10) ∷ []) ih (omega arith, tt) in
    ground arith

pub decimal-IsDigit : (n : ℕ) → All IsDigit (decimal n)
unfolding decimal
decimal-IsDigit n = digits-IsDigit (suc n) n

append-ne-nil : (xs : Text) (c : ℕ) → xs ++ c ∷ [] ≢ []
append-ne-nil [] c h = cc
append-ne-nil (x ∷ xs) c h = cc

pub decimal-ne-nil : (n : ℕ) → decimal n ≢ []
unfolding decimal digits
decimal-ne-nil n = elim (Bool-cases (ltb n 10)) [
  | inl e ↦ rw e (λ h. cc)
  | inr e ↦ rw e (append-ne-nil (digits n (n / 10)) (b'0' + n % 10))
]

parse_digits-append :
    (modulus total mid : ℕ) (xs ys : Text)
    → parse_digits modulus total xs ≡ some mid
    → parse_digits modulus total (xs ++ ys) ≡ parse_digits modulus mid ys
unfolding parse_digits
parse_digits-append modulus total mid [] ys h = ground arith
parse_digits-append modulus total mid (c ∷ xs) ys h =
    ground (arith, parse_digits-append modulus (total * 10 + (c - b'0')) mid xs ys)

parse_digits_one :
    (modulus total d : ℕ)
    → d < 10
    → total * 10 + d < modulus
    → parse_digits modulus total ((b'0' + d) ∷ []) ≡ some (total * 10 + d)
unfolding parse_digits
parse_digits_one modulus total d h lt = ground arith

parse_digits-digits :
    (rounds modulus n : ℕ)
    → n < rounds
    → n < modulus
    → parse_digits modulus 0 (digits rounds n) ≡ some n
unfolding digits
parse_digits-digits zero modulus n h lt = absurd (omega arith)
parse_digits-digits (suc rounds) modulus n h lt = elim (Bool-cases (ltb n 10)) [
  | inl e ↦
      rw e (parse_digits_one modulus 0 n (ltb→lt n 10 e) (omega arith) ∙ ap some (omega arith))
  | inr e ↦
      let small : n / 10 < rounds = ground arith in
      let ih = parse_digits-digits rounds modulus (n / 10) small (omega arith) in
      let value : n / 10 * 10 + n % 10 ≡ n = omega arith in
      rw e (
        parse_digits-append modulus 0 (n / 10) (digits rounds (n / 10)) ((b'0' + n % 10) ∷ []) ih
        ∙ parse_digits_one modulus (n / 10) (n % 10) (omega arith) (omega arith)
        ∙ ap some value)
]

-- A text of digits is read by `parse_digits`, with a sign admitted or not.
magnitude-decimal : (modulus n : ℕ) → n < modulus → parse_magnitude modulus (decimal n) ≡ some n
magnitude-decimal modulus n lt =
    go (decimal n) (decimal-ne-nil n)
      (unfold decimal in parse_digits-digits (suc n) modulus n (omega arith) lt)
  where
    go :
        (t : Text) → t ≢ [] → parse_digits modulus 0 t ≡ some n → parse_magnitude modulus t ≡ some n
    go [] ne e = absurd (ne refl)
    go (c ∷ t) ne e = e

unsigned-magnitude :
    (modulus : ℕ) (t : Text) → All IsDigit t → parse_unsigned modulus t ≡ parse_magnitude modulus t
unfolding parse_unsigned
unsigned-magnitude modulus [] h = refl
unsigned-magnitude modulus (c ∷ t) (hc, h) = ground arith

pub parse_unsigned-decimal :
    (modulus n : ℕ) → n < modulus → parse_unsigned modulus (decimal n) ≡ some n
parse_unsigned-decimal modulus n lt =
    unsigned-magnitude modulus (decimal n) (decimal-IsDigit n) ∙ magnitude-decimal modulus n lt

signed-unsigned : (t : Text) → All IsDigit t → parse_signed t ≡ positive (parse_unsigned (2 ^ 63) t)
unfolding parse_signed
signed-unsigned [] h = unfold parse_unsigned in refl
signed-unsigned (c ∷ t) (hc, h) = ground arith

-- The numbers of an `i64`.
abbrev pub IsI64 : ℤ → Type 0
IsI64 (pos n) = n < 2 ^ 63
IsI64 (negsuc n) = n < 2 ^ 63

pub parse_signed-decimal : (z : ℤ) → IsI64 z → parse_signed (signed_decimal z) ≡ some z
parse_signed-decimal (pos n) h =
    rw (signed-unsigned (decimal n) (decimal-IsDigit n), parse_unsigned-decimal (2 ^ 63) n h)
parse_signed-decimal (negsuc n) h =
    unfold parse_signed in rw (magnitude-decimal (2 ^ 63 + 1) (suc n) (omega arith))

pub Lacks-decimal : (x n : ℕ) → x < b'0' → Lacks x (decimal n)
Lacks-decimal x n h = go (decimal n) (decimal-IsDigit n)
  where
    go : (t : Text) → All IsDigit t → Lacks x t
    go [] hs = tt
    go (c ∷ t) (hc, hs) = (omega arith, go t hs)

pub Lacks-signed_decimal : (x : ℕ) (z : ℤ) → x < b'-' → Lacks x (signed_decimal z)
Lacks-signed_decimal x (pos n) h = Lacks-decimal x n (omega arith)
Lacks-signed_decimal x (negsuc n) h = (omega arith, Lacks-decimal x (suc n) (omega arith))
