-- ===== src/Protocol/Response/Refusals.antt =====
-- What the parser refuses: too few arguments, and tags that it does not know.
use lightstreamer_rs.Base.{
  ℕ, zero, suc, ◌+◌, ◌<◌, ◌≡◌, ◌≢◌, ◌↔◌, refl, ap, subst, map_ok-eq-ok, ◌∙◌, arith, Option, none,
  some, List, [], ◌∷◌, ◌++◌, ok, err, codes, All, Option-cases, inl, inr,
}
use lightstreamer_rs.Text.{
  Text, Lacks, split_once, split_once-append, split_once-parts, same_text-ne,
}
use lightstreamer_rs.Protocol.Errors.{argument_count, unknown_tag}
use lightstreamer_rs.Protocol.Arguments.{Arguments, split_arguments, split_fixed, count_commas}
use lightstreamer_rs.Protocol.Response.Printer.{argument, crlf}
use lightstreamer_rs.Protocol.Response.Pieces.{parse_line-argument}
use lightstreamer_rs.Protocol.Response.{parse_line, parse_tag}

-- Arguments joined by commas again.
abbrev pub join : (n : ℕ) → Arguments n → Text
join zero a = a
join (suc n) (a, rest) = argument a (join n rest)

-- No argument but the last one holds a comma.
abbrev pub IsCut : (n : ℕ) → Arguments n → Type 0
IsCut zero a = Unit
IsCut (suc n) (a, rest) = Lacks b',' a × IsCut n rest

-- Without a comma there is one argument.
split_once-count : (t : Text) → split_once b',' t ≡ none → count_commas t ≡ 0
unfolding split_once count_commas
split_once-count [] h = refl
split_once-count (c ∷ t) h = ground (arith, split_once-count t)

split_once-count_some :
    (t a b : Text) → split_once b',' t ≡ some (a, b) → count_commas t ≡ suc (count_commas b)
unfolding split_once count_commas
split_once-count_some [] a b h = cc
split_once-count_some (c ∷ t) [] b h = ground arith
split_once-count_some (c ∷ t) (d ∷ a) b h = ground (arith, split_once-count_some t a b)

split_arguments_few :
    (tag rest : Text) (expected index n : ℕ)
    → count_commas rest < n
    → split_arguments tag expected index n rest
      ≡ err (argument_count tag expected (index + count_commas rest + 1))
unfolding split_arguments
split_arguments_few tag rest expected index zero lt = absurd (omega arith)
split_arguments_few tag rest expected index (suc n) lt =
    elim (Option-cases (split_once b',' rest)) [
      | inl e ↦
          let z = split_once-count rest e in
          let one : index + count_commas rest + 1 ≡ index + 1 = omega arith in
          rw (split_arguments, e, one)
      | inr ((a, b), e) ↦
          let c = split_once-count_some rest a b e in
          let ih = split_arguments_few tag b expected (index + 1) n (omega arith) in
          let more : index + count_commas rest + 1 ≡ index + 1 + count_commas b + 1 = omega arith in
          rw (split_arguments, e, ih, more)
    ]

-- An argument list with fewer commas than are wanted is refused with the number that was found.
split_fixed_few :
    (n : ℕ) (tag rest : Text)
    → count_commas rest < n
    → split_fixed n tag (some rest) ≡ err (argument_count tag (suc n) (count_commas rest + 1))
unfolding split_fixed
split_fixed_few n tag rest lt =
    split_arguments_few tag rest (suc n) 0 n lt
    ∙ (let e : 0 + count_commas rest + 1 ≡ count_commas rest + 1 = omega arith in
        ap (λ (k : ℕ). err (argument_count tag (suc n) k)) e)

split_arguments-join :
    (tag : Text) (expected index n : ℕ) (args : Arguments n)
    → IsCut n args
    → split_arguments tag expected index n (join n args) ≡ ok args
unfolding split_arguments
split_arguments-join tag expected index zero a h = refl
split_arguments-join tag expected index (suc n) (a, rest) (free, h) = rw (
  split_arguments,
  split_once-append b',' a (join n rest) free,
  split_arguments-join tag expected (index + 1) n rest h,
)

join-split_arguments :
    (tag : Text) (expected index n : ℕ) (rest : Text) (args : Arguments n)
    → split_arguments tag expected index n rest ≡ ok args
    → (join n args ≡ rest) × IsCut n args
unfolding split_arguments
join-split_arguments tag expected index zero rest args h = (cc, tt)
join-split_arguments tag expected index (suc n) rest (a, args) h =
    elim (Option-cases (split_once b',' rest)) [
      | inl e ↦ (let h' = rw (split_arguments, e) at h in cc)
      | inr ((b, rest'), e) ↦
          let h' = rw (split_arguments, e) at h in
          let (found, r, q) =
            map_ok-eq-ok (λ args'. (b, args')) (split_arguments tag expected (index + 1) n rest')
              h' in
          let same : b ≡ a = ap (λ p. p.0) q in
          let rest_same : found ≡ args = ap (λ p. p.1) q in
          let (joined, cut) =
            join-split_arguments tag expected (index + 1) n rest' args (r ∙ ap ok rest_same) in
          let (whole, free) = split_once-parts b',' rest b rest' e in
          (rw (joined, ← same) whole, (subst (Lacks b',') same free, cut))
    ]

-- An argument list is accepted exactly as the arguments that are free of commas, but for the last
-- one, and give the list when commas are put between them.
split_fixed_iff :
    (n : ℕ) (tag rest : Text) (args : Arguments n)
    → (split_fixed n tag (some rest) ≡ ok args) ↔ ((join n args ≡ rest) × IsCut n args)
unfolding split_fixed
split_fixed_iff n tag rest args = (
  join-split_arguments tag (suc n) 0 n rest args,
  λ (e, h). rw (← e) (split_arguments-join tag (suc n) 0 n args h),
)

abbrev pub known_tags : List Text
known_tags =
    codes "U"
    ∷ codes "SUBOK"
    ∷ codes "SUBCMD"
    ∷ codes "UNSUB"
    ∷ codes "EOS"
    ∷ codes "CS"
    ∷ codes "OV"
    ∷ codes "CONF"
    ∷ codes "MSGDONE"
    ∷ codes "MSGFAIL"
    ∷ codes "CONS"
    ∷ codes "SYNC"
    ∷ codes "CLIENTIP"
    ∷ codes "SERVNAME"
    ∷ codes "PROG"
    ∷ codes "NOOP"
    ∷ codes "PROBE"
    ∷ codes "LOOP"
    ∷ codes "END"
    ∷ codes "CONOK"
    ∷ codes "CONERR"
    ∷ codes "REQOK"
    ∷ codes "REQERR"
    ∷ codes "ERROR"
    ∷ codes "WSOK"
    ∷ []

parse_tag-unknown :
    (line tag : Text) (rest : Option Text)
    → All (λ known. tag ≢ known) known_tags
    → parse_tag line tag rest ≡ err (unknown_tag tag line)
unfolding parse_tag
parse_tag-unknown line tag rest
      (
        h0,
        (
          h1,
          (
            h2,
            (
              h3,
              (
                h4,
                (
                  h5,
                  (
                    h6,
                    (
                      h7,
                      (
                        h8,
                        (
                          h9,
                          (
                            h10,
                            (
                              h11,
                              (
                                h12,
                                (
                                  h13,
                                  (
                                    h14,
                                    (
                                      h15,
                                      (
                                        h16,
                                        (h17, (h18, (h19, (h20, (h21, (h22, (h23, (h24, end)))))))),
                                      ),
                                    ),
                                  ),
                                ),
                              ),
                            ),
                          ),
                        ),
                      ),
                    ),
                  ),
                ),
              ),
            ),
          ),
        ),
      ) =
    rw (
      same_text-ne tag (codes "U") h0,
      same_text-ne tag (codes "SUBOK") h1,
      same_text-ne tag (codes "SUBCMD") h2,
      same_text-ne tag (codes "UNSUB") h3,
      same_text-ne tag (codes "EOS") h4,
      same_text-ne tag (codes "CS") h5,
      same_text-ne tag (codes "OV") h6,
      same_text-ne tag (codes "CONF") h7,
      same_text-ne tag (codes "MSGDONE") h8,
      same_text-ne tag (codes "MSGFAIL") h9,
      same_text-ne tag (codes "CONS") h10,
      same_text-ne tag (codes "SYNC") h11,
      same_text-ne tag (codes "CLIENTIP") h12,
      same_text-ne tag (codes "SERVNAME") h13,
      same_text-ne tag (codes "PROG") h14,
      same_text-ne tag (codes "NOOP") h15,
      same_text-ne tag (codes "PROBE") h16,
      same_text-ne tag (codes "LOOP") h17,
      same_text-ne tag (codes "END") h18,
      same_text-ne tag (codes "CONOK") h19,
      same_text-ne tag (codes "CONERR") h20,
      same_text-ne tag (codes "REQOK") h21,
      same_text-ne tag (codes "REQERR") h22,
      same_text-ne tag (codes "ERROR") h23,
      same_text-ne tag (codes "WSOK") h24,
    )

-- A line whose tag is none of the specification's is refused, and the error names the tag and the
-- line.
parse_line-unknown :
    (tag rest : Text)
    → Lacks b',' tag
    → All (λ known. tag ≢ known) known_tags
    → parse_line (argument tag rest ++ crlf) ≡ err (unknown_tag tag (argument tag rest))
parse_line-unknown tag rest free unknown =
    parse_line-argument tag rest free
    ∙ parse_tag-unknown (argument tag rest) tag (some rest) unknown
