-- ===== src/Protocol/Diff/Rounds.antt =====
-- The loop of the parser has rounds enough.
use lightstreamer_rs.Base.{
  ℕ, zero, suc, ◌+◌, ◌-◌, ◌*◌, ◌≤◌, ◌≡◌, ◌≢◌, refl, [], ◌∷◌, arith, ok, err, ◌>>=◌, Result, length,
  length-drop, inl, inr, ◌⊎◌,
}
use lightstreamer_rs.Text.{Text}
use lightstreamer_rs.Protocol.Errors.{ProtocolError, field_value, out_of_rounds}
use lightstreamer_rs.Protocol.Diff.{
  DiffInstruction, parse_tlcp_diff, parse_sections, decode_integer, read_section, next_section,
  take_literal, alphabet_index, accumulate,
}
use lightstreamer_rs.Protocol.Diff.Integers.{decode_integer-position}

decode_integer-Real :
    (text : Text) (p acc : ℕ) (e : ProtocolError)
    → decode_integer p acc text ≡ err e
    → e ≢ field_value out_of_rounds
unfolding decode_integer alphabet_index accumulate
decode_integer-Real [] p acc e h = ground arith
decode_integer-Real (c ∷ text) p acc e h =
    ground (arith, decode_integer-Real text (p + 1) (acc * 26 + (c - b'A' + 1)) e)

read_section-Real :
    (s n p : ℕ) (rest : Text) (e : ProtocolError)
    → read_section s (n, p, rest) ≡ err e
    → e ≢ field_value out_of_rounds
unfolding read_section take_literal
read_section-Real zero n p rest e h = ground arith
read_section-Real (suc zero) n p rest e h = ground arith
read_section-Real (suc (suc s)) n p rest e h = ground arith

-- A section reads no character twice.
read_section-length :
    (s n p : ℕ) (text : Text) {i : DiffInstruction} {q : ℕ} {rest : Text}
    → read_section s (n, p, text) ≡ ok (i, q, rest)
    → length rest ≤ length text
unfolding read_section take_literal
read_section-length zero n p text h = ground arith
read_section-length (suc zero) n p text h = ground (arith, length-drop n text)
read_section-length (suc (suc s)) n p text h = ground arith

>>=-eq-err :
    {E A B : Type 0} (r : Result E A) (f : A → Result E B) {e : E}
    → (r >>= f) ≡ err e
    → (r ≡ err e) ⊎ (a : A) × (r ≡ ok a) × (f a ≡ err e)
>>=-eq-err (ok a) f h = inr (a, refl, h)
>>=-eq-err (err d) f h = inl (ground arith)

parse_sections-Real :
    (rounds s p : ℕ) (text : Text) (e : ProtocolError)
    → length text ≤ rounds
    → parse_sections rounds s p text ≡ err e
    → e ≢ field_value out_of_rounds
unfolding parse_sections
parse_sections-Real rounds s p [] e b h = absurd (cc)
parse_sections-Real zero s p (c ∷ text) e b h = absurd (omega arith)
parse_sections-Real (suc f) s p (c ∷ text) e b h =
    elim (>>=-eq-err (decode_integer p 0 (c ∷ text)) _ h) [
      | inl q ↦ decode_integer-Real (c ∷ text) p 0 e q
      | inr ((n, p', r), d, h₁) ↦ elim (>>=-eq-err (read_section s (n, p', r)) _ h₁) [
        | inl q ↦ read_section-Real s n p' r e q
        | inr ((i, q, rest), g, h₂) ↦
            elim (>>=-eq-err (parse_sections f (next_section s) q rest) _ h₂) [
              | inl k ↦
                  let (_, less, _) = decode_integer-position (c ∷ text) p 0 d in
                  let shorter = read_section-length s n p' r g in
                  parse_sections-Real f (next_section s) q rest e (omega arith) k
              | inr (_, _, bad) ↦ absurd (cc bad)
            ]
      ]
    ]

-- The bound on the rounds of the parser's loop is never met: each payload is parsed or refused for a
-- reason that the code gives.
pub parse_tlcp_diff-ne-out_of_rounds :
    (payload : Text) → parse_tlcp_diff payload ≢ err (field_value out_of_rounds)
unfolding parse_tlcp_diff
parse_tlcp_diff-ne-out_of_rounds [] h = cc
parse_tlcp_diff-ne-out_of_rounds (c ∷ payload) h =
    parse_sections-Real (length (c ∷ payload)) 0 0 (c ∷ payload) _ (omega arith) h refl
