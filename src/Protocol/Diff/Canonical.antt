-- ===== src/Protocol/Diff/Canonical.antt =====
-- Every payload that the parser accepts is the print of what it returns, and the parser's loop has
-- rounds enough.
use lightstreamer_rs.Base.{
  ℕ, zero, suc, ◌<◌, ◌≤◌, ◌≡◌, ◌≢◌, ◌↔◌, refl, ◌∙◌, ap, List, [], ◌∷◌, ◌++◌, arith, ok, >>=-eq-ok,
  take-append-drop, usize_mod, length, append_assoc, length-take,
}
use lightstreamer_rs.Text.{Text}
use lightstreamer_rs.Protocol.Diff.{
  DiffInstruction, copy, add, del, decode_integer, take_literal, read_section, next_section,
  parse_sections, parse_tlcp_diff,
}
use lightstreamer_rs.Protocol.Diff.Integers.{
  encode_integer, decode_integer-position, integer_spelled,
}
use lightstreamer_rs.Protocol.Diff.Sections.{
  print_section, print_sections, InCycle, stop, copy_next, add_next, del_next,
  parse_tlcp_diff-print_sections,
}

-- What one round reads.
record Round (rounds s p : ℕ) (text : Text) (is : List DiffInstruction) : Type 0 where
  count : ℕ
  position : ℕ
  rest : Text
  first : DiffInstruction
  position' : ℕ
  rest' : Text
  others : List DiffInstruction
  integer : decode_integer p 0 text ≡ ok (count, position, rest)
  section : read_section s (count, position, rest) ≡ ok (first, position', rest')
  more : parse_sections rounds (next_section s) position' rest' ≡ ok others
  all : is ≡ first ∷ others

Round-parse_sections :
    (rounds s p c : ℕ) (text : Text) (is : List DiffInstruction)
    → parse_sections (suc rounds) s p (c ∷ text) ≡ ok is
    → Round rounds s p (c ∷ text) is
unfolding parse_sections
Round-parse_sections rounds s p c text is h =
    let ((n, q, r), d, h₁) = >>=-eq-ok (decode_integer p 0 (c ∷ text)) _ h in
    let ((i, q', r'), e, h₂) = >>=-eq-ok (read_section s (n, q, r)) _ h₁ in
    let (js, g, h₃) = >>=-eq-ok (parse_sections rounds (next_section s) q' r') _ h₂ in
    record {
      count = n;
      position = q;
      rest = r;
      first = i;
      position' = q';
      rest' = r';
      others = js;
      integer = d;
      section = e;
      more = g;
      all = ground arith;
    }

take_literal-eq-ok :
    (p n : ℕ) (text : Text) {t : Text} {q : ℕ} {rest : Text}
    → take_literal p n text ≡ ok (t, q, rest)
    → (t ++ rest ≡ text) × (length t ≡ n) × (n < usize_mod)
unfolding take_literal
take_literal-eq-ok p n text h = ground (arith, take-append-drop n text, length-take n text)

abbrev Parsed : ℕ → List DiffInstruction → Text → Type 0
Parsed s is text = InCycle s is × (print_sections is ≡ text)

module _ (f p c : ℕ) (text : Text) (is : List DiffInstruction) where
  Parsed-Round :
      (s : ℕ)
      → s ≤ 2
      → (r : Round f s p (c ∷ text) is) → Parsed (next_section s) r.others r.rest'
      → Parsed s is (c ∷ text)
  unfolding read_section next_section print_sections print_section
  Parsed-Round zero b r (cycle, printed) =
      let all : is ≡ copy r.count ∷ r.others = ground arith in
      let same : r.rest' ≡ r.rest = ground arith in
      let spelled = integer_spelled (c ∷ text) p r.integer in
      let (_, _, small) = decode_integer-position (c ∷ text) p 0 r.integer in
      rw all
        (copy_next small cycle, ap (λ l. encode_integer r.count ++ l) (printed ∙ same) ∙ spelled)
  Parsed-Round (suc zero) b r (cycle, printed) =
      let ((t, end, rest'), e, k) =
        >>=-eq-ok (take_literal r.position r.count r.rest) _ r.section in
      let (joined, size, small) = take_literal-eq-ok r.position r.count r.rest e in
      let all : is ≡ add t ∷ r.others = ground arith in
      let same : r.rest' ≡ rest' = ground arith in
      let spelled = integer_spelled (c ∷ text) p r.integer in
      rw (all, size)
        (
          add_next (omega arith) cycle,
          append_assoc (encode_integer r.count) t (print_sections r.others)
              ∙ ap (λ l. encode_integer r.count ++ l) (ap (λ l. t ++ l) (printed ∙ same) ∙ joined)
              ∙ spelled,
        )
  Parsed-Round (suc (suc zero)) b r (cycle, printed) =
      let all : is ≡ del r.count ∷ r.others = ground arith in
      let same : r.rest' ≡ r.rest = ground arith in
      let spelled = integer_spelled (c ∷ text) p r.integer in
      let (_, _, small) = decode_integer-position (c ∷ text) p 0 r.integer in
      rw all
        (del_next small cycle, ap (λ l. encode_integer r.count ++ l) (printed ∙ same) ∙ spelled)
  Parsed-Round (suc (suc (suc s))) b r h = absurd (omega arith)

next_section_le : (s : ℕ) → next_section s ≤ 2
unfolding next_section
next_section_le s = ground arith

parse_sections-Parsed :
    (rounds s p : ℕ) (text : Text) (is : List DiffInstruction)
    → s ≤ 2
    → parse_sections rounds s p text ≡ ok is
    → Parsed s is text
parse_sections-Parsed rounds s p [] [] b h = (stop, unfold print_sections in refl)
parse_sections-Parsed rounds s p [] (i ∷ is) b h = absurd (unfold parse_sections in cc)
parse_sections-Parsed zero s p (c ∷ text) is b h = absurd (unfold parse_sections in cc)
parse_sections-Parsed (suc f) s p (c ∷ text) is b h =
    let r = Round-parse_sections f s p c text is h in
    Parsed-Round f p c text is s b r (
      parse_sections-Parsed f (next_section s) r.position' r.rest' r.others (next_section_le s)
        r.more)

nonempty :
    (c : ℕ) (text : Text) (is : List DiffInstruction) → print_sections is ≡ c ∷ text → is ≢ []
unfolding print_sections
nonempty c text [] e q = cc
nonempty c text (i ∷ is) e q = cc

pub parse_tlcp_diff-Parsed :
    (text : Text) (is : List DiffInstruction)
    → parse_tlcp_diff text ≡ ok is
    → InCycle 0 is × (is ≢ []) × (print_sections is ≡ text)
unfolding parse_tlcp_diff
parse_tlcp_diff-Parsed [] is h = absurd (cc)
parse_tlcp_diff-Parsed (c ∷ text) is h =
    let (cycle, printed) =
      parse_sections-Parsed (length (c ∷ text)) 0 0 (c ∷ text) is (omega arith) h in
    (cycle, nonempty c text is printed, printed)

-- A payload that fits in memory is accepted, with the instructions `is`, exactly if `is` is not
-- empty, follows the cycle COPY, ADD, DEL, and the payload is its print: the parser takes one
-- spelling of each instruction list and no other.
pub parse_tlcp_diff_iff :
    (payload : Text) (is : List DiffInstruction)
    → length payload < usize_mod
    → (parse_tlcp_diff payload ≡ ok is) ↔ (InCycle 0 is × (is ≢ []) × (print_sections is ≡ payload))
parse_tlcp_diff_iff payload is b = (parse_tlcp_diff-Parsed payload is, from)
  where
    from :
        InCycle 0 is × (is ≢ []) × (print_sections is ≡ payload) → parse_tlcp_diff payload ≡ ok is
    from (cycle, n, printed) =
        rw printed at (parse_tlcp_diff-print_sections is cycle n (omega (arith, ap length printed)))
