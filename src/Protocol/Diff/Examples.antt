-- ===== src/Protocol/Diff/Examples.antt =====
-- Runs of the TLCP-diff decoder on the tables of the specification's Appendix D, and its theorems at
-- concrete inputs.
use lightstreamer_rs.Base.{
  ◌+◌, ◌++◌, ◌≡◌, ◌≢◌, ◌↔◌, refl, some, none, [], ◌∷◌, ok, err, codes, arith, length, List,
}
use lightstreamer_rs.Protocol.Errors.{field_value, out_of_rounds, copy_past_end, astral_base}
use lightstreamer_rs.Protocol.Diff.{
  apply_tlcp_diff, apply_tlcp_instructions, supported_diffs, parse_tlcp_diff, decode_integer,
  reject_astral, DiffInstruction, copy, add, del,
}
use lightstreamer_rs.Protocol.Diff.Integers.{encode_integer, decode_integer-encode_integer}
use lightstreamer_rs.Protocol.Diff.Sections.{InCycle, print_section, print_sections}
use lightstreamer_rs.Protocol.Diff.Canonical.{parse_tlcp_diff_iff}
use lightstreamer_rs.Protocol.Diff.Apply.{patch, to_option, apply_tlcp_instructions-patch}
use lightstreamer_rs.Protocol.Diff.Values.{apply_tlcp_diff-reject_astral}
use lightstreamer_rs.Protocol.Diff.Replacement.{replacement, apply_tlcp_diff-replacement}
use lightstreamer_rs.Protocol.Diff.Rounds.{parse_tlcp_diff-ne-out_of_rounds}

copy_of_part : apply_tlcp_diff (codes "foobar") (codes "d") ≡ ok (codes "foo")
unfolding apply_tlcp_diff
copy_of_part = refl

two_letters :
    parse_tlcp_diff (codes "Adbxyc") ≡ ok (copy 29 ∷ add (codes "x") ∷ del 24 ∷ copy 2 ∷ [])
unfolding parse_tlcp_diff
two_letters = refl

past_the_base : apply_tlcp_diff (codes "foo") (codes "e") ≡ err (field_value (copy_past_end 4 0))
unfolding apply_tlcp_diff
past_the_base = refl

advertised : supported_diffs none ≡ codes "T"
unfolding supported_diffs
advertised = refl

advertised_with_patch : supported_diffs (some (λ b p. ok b)) ≡ codes "T,P"
unfolding supported_diffs
advertised_with_patch = refl

abbrev script : List DiffInstruction
script = copy 3 ∷ add (codes "x") ∷ del 1 ∷ copy 2 ∷ []

decode_integer-encode_integer_example :
    decode_integer 4 0 (encode_integer 29 ++ codes "rest")
    ≡ ok (29, 4 + length (encode_integer 29), codes "rest")
decode_integer-encode_integer_example =
    decode_integer-encode_integer 29 4 (codes "rest") (omega arith)

parse_tlcp_diff_iff_example :
    (parse_tlcp_diff (codes "dbxbc") ≡ ok script)
    ↔ (InCycle 0 script × (script ≢ []) × (print_sections script ≡ codes "dbxbc"))
parse_tlcp_diff_iff_example = parse_tlcp_diff_iff (codes "dbxbc") script (omega arith)

parse_tlcp_diff-ne-out_of_rounds_example :
    parse_tlcp_diff (codes "dbxbc") ≢ err (field_value out_of_rounds)
parse_tlcp_diff-ne-out_of_rounds_example = parse_tlcp_diff-ne-out_of_rounds (codes "dbxbc")

apply_tlcp_instructions-patch_example :
    to_option (apply_tlcp_instructions (codes "foobar") script)
    ≡ patch (some (codes "foobar")) script
apply_tlcp_instructions-patch_example =
    apply_tlcp_instructions-patch (codes "foobar") script (omega arith)

apply_tlcp_diff-reject_astral_example : reject_astral astral_base (codes "foo") ≡ ok tt
unfolding apply_tlcp_diff
apply_tlcp_diff-reject_astral_example =
    apply_tlcp_diff-reject_astral (codes "foobar") (codes "d") (codes "foo") refl

apply_tlcp_diff-replacement_example :
    apply_tlcp_diff
      (codes "foobar")
      (print_sections (replacement (codes "foo") (codes "b") (codes "x") (codes "ar")))
    ≡ ok (codes "fooxar")
unfolding print_sections print_section replacement encode_integer
apply_tlcp_diff-replacement_example =
    apply_tlcp_diff-replacement (codes "foo") (codes "b") (codes "x") (codes "ar") (omega arith)
      (omega arith) (omega arith) (omega arith)
