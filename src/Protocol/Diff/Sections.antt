-- ===== src/Protocol/Diff/Sections.antt =====
-- The parser of TLCP-diff payloads is the inverse of a printer, and its loop has rounds enough.
use lightstreamer_rs.Base.{
  ℕ, zero, suc, ◌+◌, ◌<◌, ◌≤◌, ◌≡◌, ◌≢◌, refl, ◌∙◌, ap, List, [], ◌∷◌, ◌++◌, arith, ok, ◌>>=◌,
  >>=-ok, map_ok, usize_mod, length, length-append, take-append, drop-append, append_assoc,
}
use lightstreamer_rs.Text.{Text}
use lightstreamer_rs.Protocol.Diff.{
  DiffInstruction, copy, add, del, decode_integer, take_literal, read_section, next_section,
  parse_sections, parse_tlcp_diff,
}
use lightstreamer_rs.Protocol.Diff.Integers.{
  encode_integer_pos, encode_integer, decode_integer-position, decode_integer-encode_integer,
}

-- The text of one section.
unfoldable pub print_section : DiffInstruction → Text
print_section (copy n) = encode_integer n
print_section (add t) = encode_integer (length t) ++ t
print_section (del n) = encode_integer n

unfoldable pub print_sections : List DiffInstruction → Text
print_sections [] = []
print_sections (i ∷ is) = print_section i ++ print_sections is

-- The sections follow the fixed cycle COPY, ADD, DEL, and their counts are `usize`s.
pub data InCycle : ℕ → List DiffInstruction → Type 0 where
  stop : {section : ℕ} → InCycle section []
  copy_next :
      {n : ℕ} {is : List DiffInstruction}
      → n < usize_mod
      → InCycle 1 is
      → InCycle zero (copy n ∷ is)
  add_next :
      {t : Text} {is : List DiffInstruction}
      → length t < usize_mod
      → InCycle 2 is
      → InCycle (suc zero) (add t ∷ is)
  del_next :
      {n : ℕ} {is : List DiffInstruction}
      → n < usize_mod
      → InCycle 0 is
      → InCycle (suc (suc zero)) (del n ∷ is)

-- One round of the loop.
parse_round :
    (rounds section p : ℕ) (text : Text) {n p' : ℕ} {rest : Text} {i : DiffInstruction} {p'' : ℕ}
    {rest' : Text}
    → decode_integer p 0 text ≡ ok (n, p', rest)
    → read_section section (n, p', rest) ≡ ok (i, p'', rest')
    → parse_sections (suc rounds) section p text
      ≡ map_ok (λ is. i ∷ is) (parse_sections rounds (next_section section) p'' rest')
unfolding parse_sections
parse_round rounds section p [] d r = absurd (unfold decode_integer in cc)
parse_round rounds section p (c ∷ text) {i = i} d r =
    rw (d, parse_sections) (rw (r, ◌>>=◌) (>>=-ok (λ is. i ∷ is) _))

take_literal_lem :
    (p : ℕ) (t rest : Text)
    → p + length t < usize_mod
    → take_literal p (length t) (t ++ rest) ≡ ok (t, p + length t, rest)
unfolding take_literal
take_literal_lem p t rest h =
    ground (arith, take-append t rest, drop-append t rest, length-append t rest)

print_pos :
    (i : DiffInstruction) (is : List DiffInstruction)
    → length (print_sections is) < length (print_sections (i ∷ is))
unfolding print_section print_sections
print_pos (copy n) is =
    omega (arith, encode_integer_pos n, length-append (encode_integer n) (print_sections is))
print_pos (add t) is = omega (
  arith,
  encode_integer_pos (length t),
  length-append (encode_integer (length t)) t,
  length-append (encode_integer (length t) ++ t) (print_sections is),
)
print_pos (del n) is =
    omega (arith, encode_integer_pos n, length-append (encode_integer n) (print_sections is))

parse-print :
    {s : ℕ} {is : List DiffInstruction}
    → InCycle s is
    → (rounds p : ℕ) → length (print_sections is) ≤ rounds
    → p + length (print_sections is) < usize_mod
    → parse_sections rounds s p (print_sections is) ≡ ok is
unfolding print_section print_sections read_section next_section
parse-print stop rounds p b o = unfold parse_sections in refl
parse-print (copy_next {n} {is} hn h) zero p b o = absurd (omega (arith, print_pos (copy n) is))
parse-print (add_next {t} {is} ht h) zero p b o = absurd (omega (arith, print_pos (add t) is))
parse-print (del_next {n} {is} hn h) zero p b o = absurd (omega (arith, print_pos (del n) is))
parse-print (copy_next {n} {is} hn h) (suc f) p b o =
    let e = decode_integer-encode_integer n p (print_sections is) hn in
    let pos = decode_integer-position (encode_integer n ++ print_sections is) p 0 e in
    parse_round f 0 p (encode_integer n ++ print_sections is) e refl
    ∙ ap (map_ok (λ is'. copy n ∷ is'))
        (parse-print h f (p + length (encode_integer n)) (omega arith) (omega arith))
parse-print (add_next {t} {is} ht h) (suc f) p b o =
    let code = encode_integer (length t) in
    let rest = print_sections is in
    let split = append_assoc code t rest in
    let e = decode_integer-encode_integer (length t) p (t ++ rest) ht in
    let pos = decode_integer-position (code ++ (t ++ rest)) p 0 e in
    let sizes = length-append t rest in
    let sum = ap length split in
    let literal = take_literal_lem (p + length code) t rest (omega arith) in
    rw split (
      parse_round f 1 p (code ++ (t ++ rest)) e (rw literal)
      ∙ ap (map_ok (λ is'. add t ∷ is'))
          (parse-print h f (p + length code + length t) (omega arith) (omega arith)))
parse-print (del_next {n} {is} hn h) (suc f) p b o =
    let e = decode_integer-encode_integer n p (print_sections is) hn in
    let pos = decode_integer-position (encode_integer n ++ print_sections is) p 0 e in
    parse_round f 2 p (encode_integer n ++ print_sections is) e refl
    ∙ ap (map_ok (λ is'. del n ∷ is'))
        (parse-print h f (p + length (encode_integer n)) (omega arith) (omega arith))

-- A printed sequence of sections is parsed back.
pub parse_tlcp_diff-print_sections :
    (is : List DiffInstruction)
    → InCycle 0 is
    → is ≢ []
    → length (print_sections is) < usize_mod
    → parse_tlcp_diff (print_sections is) ≡ ok is
parse_tlcp_diff-print_sections [] h n b = absurd (n refl)
parse_tlcp_diff-print_sections (i ∷ is) h n b =
    go (print_sections (i ∷ is)) (print_pos i is)
      (parse-print h (length (print_sections (i ∷ is))) 0 (omega arith) (omega arith))
  where
    go :
        (text : Text)
        → length (print_sections is) < length text
        → parse_sections (length text) 0 0 text ≡ ok (i ∷ is)
        → parse_tlcp_diff text ≡ ok (i ∷ is)
    go [] h e = absurd (omega arith)
    go (c ∷ text) h e = unfold parse_tlcp_diff in e
