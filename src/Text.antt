-- ===== src/Text.antt =====
-- Rust's `str`, `String` and `char`: a text is the list of its Unicode scalar values, and its bytes
-- are their UTF-8 encoding.
pub mod Utf8
pub mod Numbers
use lightstreamer_rs.Base.{
  ◌++◌, ◌≡◌, ◌≢◌, refl, arith, ==_iff, Bool-cases, Option-cases, inl, inr, ℕ, suc, ◌<◌, ◌≤◌, ◌+◌,
  ◌⊎◌, List, [], ◌∷◌, All, Bool, true, false, Option, none, some, ◌&&◌, ◌||◌, leb, ◌==◌,
}

abbrev pub Bytes : Type 0
Bytes = List ℕ

abbrev pub Text : Type 0
Text = List ℕ

-- A byte of the source's `u8`.
abbrev pub IsByte : ℕ → Type 0
IsByte b = b < 256

-- A `char`: a code point that is no surrogate.
abbrev pub IsScalar : ℕ → Type 0
IsScalar c = (c < 0xD800) ⊎ (0xE000 ≤ c) × (c < 0x110000)

-- What every `str` satisfies.
abbrev pub IsText : Text → Type 0
IsText = All IsScalar

abbrev pub is_ascii_digit : ℕ → Bool
is_ascii_digit c = leb b'0' c && leb c b'9'

abbrev pub is_ascii_uppercase : ℕ → Bool
is_ascii_uppercase c = leb b'A' c && leb c b'Z'

abbrev pub is_ascii_lowercase : ℕ → Bool
is_ascii_lowercase c = leb b'a' c && leb c b'z'

abbrev pub is_ascii_alphabetic : ℕ → Bool
is_ascii_alphabetic c = is_ascii_uppercase c || is_ascii_lowercase c

abbrev pub is_ascii_alphanumeric : ℕ → Bool
is_ascii_alphanumeric c = is_ascii_digit c || is_ascii_alphabetic c

-- The position of the first byte of a value: `str::find`, `Iterator::position`.
unfoldable pub find_byte : ℕ → Bytes → Option ℕ
find_byte x [] = none
find_byte x (b ∷ bs) = elim (b == x) [
  | true ↦ some 0
  | false ↦ elim (find_byte x bs) [ none ↦ none | some i ↦ some (suc i) ]
]

-- `==` of two texts.
abbrev pub same_text : Text → Text → Bool
same_text [] [] = true
same_text [] (d ∷ ds) = false
same_text (c ∷ cs) [] = false
same_text (c ∷ cs) (d ∷ ds) = (c == d) && same_text cs ds

pub same_text_refl : (t : Text) → same_text t t ≡ true
same_text_refl [] = refl
same_text_refl (c ∷ t) = ground (arith, same_text_refl t)

pub same_text-eq : (xs ys : Text) → same_text xs ys ≡ true → xs ≡ ys
same_text-eq [] [] h = refl
same_text-eq [] (y ∷ ys) h = cc
same_text-eq (x ∷ xs) [] h = cc
same_text-eq (x ∷ xs) (y ∷ ys) h = ground (arith, ==_iff x y, same_text-eq xs ys)

pub same_text-ne : (xs ys : Text) → xs ≢ ys → same_text xs ys ≡ false
same_text-ne xs ys ne = elim (Bool-cases (same_text xs ys)) [
  | inl e ↦ absurd (ne (same_text-eq xs ys e))
  | inr e ↦ e
]

-- The text before the first separator and the text behind it: `str::split_once`.
unfoldable pub split_once : ℕ → Text → Option (Text × Text)
split_once x [] = none
split_once x (c ∷ t) = elim (c == x) [
  | true ↦ some ([], t)
  | false ↦ elim (split_once x t) [ none ↦ none | some (a, b) ↦ some (c ∷ a, b) ]
]

-- A text without a character.
abbrev pub Lacks : ℕ → Text → Type 0
Lacks x = All (λ c. c ≢ x)

pub split_once-append : (x : ℕ) (a b : Text) → Lacks x a → split_once x (a ++ x ∷ b) ≡ some (a, b)
unfolding split_once
split_once-append x [] b h = ground arith
split_once-append x (c ∷ a) b (hc, h) = ground (arith, split_once-append x a b h)

-- What stood around the separator.
pub split_once-parts :
    (x : ℕ) (t a b : Text) → split_once x t ≡ some (a, b) → (a ++ x ∷ b ≡ t) × Lacks x a
unfolding split_once
split_once-parts x [] a b h = cc
split_once-parts x (c ∷ t) [] b h = ground (arith, ==_iff c x)
split_once-parts x (c ∷ t) (d ∷ a) b h = ground (arith, ==_iff c x, split_once-parts x t a b)
