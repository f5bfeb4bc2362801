-- ===== src/Protocol/Diff/Replacement.antt =====
-- A TLCP-diff of one replacement, from the sender's side.
use lightstreamer_rs.Base.{
  ℕ, ◌<◌, ◌≡◌, ◌≢◌, refl, ◌∙◌, ap, List, [], ◌∷◌, ◌++◌, arith, ok, usize_mod, length, take,
  take-append, drop-append, append-nil, length-append, All, All-append, leb, some, true,
}
use lightstreamer_rs.Text.{Text}
use lightstreamer_rs.Protocol.Errors.{astral_base, astral_payload}
use lightstreamer_rs.Protocol.Diff.{DiffInstruction, copy, add, del, apply_tlcp_diff}
use lightstreamer_rs.Protocol.Diff.Sections.{
  print_sections, InCycle, copy_next, add_next, del_next, stop, parse_tlcp_diff-print_sections,
}
use lightstreamer_rs.Protocol.Diff.Values.{IsBmp, IsBmp-reject_astral}
use lightstreamer_rs.Protocol.Diff.Apply.{
  advance, patch, apply_tlcp_instructions-patch, to_option-eq-some,
}
use lightstreamer_rs.Protocol.Diff.Integers.{encode_integer, encode_integer_ascii}
use lightstreamer_rs.Protocol.Diff.Sections.{print_section}

-- The instructions that put `new` in the place of `old`, between `before` and `after`.
unfoldable pub replacement : Text → Text → Text → Text → List DiffInstruction
replacement before old new after =
    copy (length before) ∷ add new ∷ del (length old) ∷ copy (length after) ∷ []

prefix_fits : (s t : Text) → leb (length s) (length (s ++ t)) ≡ true
prefix_fits s t = ground (arith, length-append s t)

all_fits : (s : Text) → leb (length s) (length s) ≡ true
all_fits s = ground arith

take_all : (s : Text) → take (length s) s ≡ s
take_all [] = refl
take_all (c ∷ s) = ap (λ t. c ∷ t) (take_all s)

patch-replacement :
    (before old new after : Text)
    → patch (some (before ++ (old ++ after))) (replacement before old new after)
      ≡ some (before ++ (new ++ after))
unfolding patch replacement
patch-replacement before old new after = rw (
  prefix_fits before (old ++ after),
  take-append before (old ++ after),
  drop-append before (old ++ after),
  prefix_fits old after,
  drop-append old after,
  all_fits after,
  take_all after,
  append-nil after,
)

IsBmp-ascii : (t : Text) → All (λ c. c < 128) t → IsBmp t
IsBmp-ascii [] h = tt
IsBmp-ascii (c ∷ t) (p, h) = (omega arith, IsBmp-ascii t h)

print-IsBmp :
    (before old new after : Text)
    → IsBmp new
    → IsBmp (print_sections (replacement before old new after))
unfolding print_sections print_section replacement
print-IsBmp before old new after h =
    let letters = λ (n : ℕ). IsBmp-ascii (encode_integer n) (encode_integer_ascii n) in
    All-append _ (encode_integer (length before)) _ (letters (length before)) (
      All-append _ (encode_integer (length new) ++ new) _
        (All-append _ (encode_integer (length new)) new (letters (length new)) h)
        (All-append _ (encode_integer (length old)) _ (letters (length old))
          (All-append _ (encode_integer (length after)) [] (letters (length after)) tt)))

module _ (before old new after : Text) where
  replacement-InCycle :
      length (before ++ (old ++ after)) < usize_mod
      → length (print_sections (replacement before old new after)) < usize_mod
      → InCycle 0 (replacement before old new after)
  unfolding replacement print_sections print_section
  replacement-InCycle h k =
      let base = length-append before (old ++ after) in
      let tail = length-append old after in
      let printed =
        length-append (encode_integer (length before))
          (print_sections (add new ∷ del (length old) ∷ copy (length after) ∷ [])) in
      let printed' =
        length-append (encode_integer (length new) ++ new)
          (print_sections (del (length old) ∷ copy (length after) ∷ [])) in
      let added = length-append (encode_integer (length new)) new in
      copy_next (omega arith)
        (add_next (omega arith) (del_next (omega arith) (copy_next (omega arith) stop)))

  replacement-ne-nil : replacement before old new after ≢ []
  unfolding replacement
  replacement-ne-nil e = cc

  advance-replacement :
      length (before ++ (old ++ after)) < usize_mod
      → advance (replacement before old new after) < usize_mod
  unfolding replacement
  advance-replacement h =
      omega (arith, length-append before (old ++ after), length-append old after)

-- A server that replaces `old` by `new` and prints the instructions for it makes the client hold
-- exactly the new value, if that value and the base fit in memory and hold no surrogate pair.
pub apply_tlcp_diff-replacement :
    (before old new after : Text)
    → length (before ++ (old ++ after)) < usize_mod
    → length (print_sections (replacement before old new after)) < usize_mod
    → IsBmp (before ++ (old ++ after))
    → IsBmp new
    → apply_tlcp_diff (before ++ (old ++ after)) (print_sections (replacement before old new after))
      ≡ ok (before ++ (new ++ after))
unfolding apply_tlcp_diff
apply_tlcp_diff-replacement before old new after h k b p =
    rw
      (
        IsBmp-reject_astral astral_base _ b,
        IsBmp-reject_astral astral_payload _ (print-IsBmp before old new after p),
        parse_tlcp_diff-print_sections (replacement before old new after)
            (replacement-InCycle before old new after h k) (replacement-ne-nil before old new after)
            k,
      )
      (to_option-eq-some _ (
        apply_tlcp_instructions-patch _ _ (advance-replacement before old new after h)
        ∙ patch-replacement before old new after))
