-- ===== src/Protocol/Response/Pieces.antt =====
-- The pieces of a line: what the parser makes of a printed argument.
use lightstreamer_rs.Base.{
  ℕ, zero, suc, ◌+◌, ◌≡◌, ◌≢◌, refl, ap, arith, some, none, [], ◌∷◌, ◌++◌, ok, map_ok, All,
}
use lightstreamer_rs.Text.{Text, IsText, Lacks, split_once, split_once-append}
use lightstreamer_rs.Protocol.Escaping.RoundTrip.{
  percent_decode-encode_form_value, IsSafe, encode_form_value-IsSafe,
}
use lightstreamer_rs.Protocol.Arguments.{strip_terminator, split_arguments, split_fixed, decode}
use lightstreamer_rs.Protocol.Response.Printer.{argument, crlf, encoded}
use lightstreamer_rs.Protocol.Response.{parse_line, parse_tag}

pub strip_terminator-append : (t : Text) → strip_terminator (t ++ crlf) ≡ t
unfolding strip_terminator
strip_terminator-append [] = refl
strip_terminator-append (c ∷ []) = refl
strip_terminator-append (c ∷ d ∷ []) = refl
strip_terminator-append (c ∷ d ∷ e ∷ t) = ap (λ r. c ∷ r) (strip_terminator-append (d ∷ e ∷ t))

module _ (tag a : Text) (free : Lacks b',' a) where
  split_arguments-argument :
      (expected index n : ℕ) (rest : Text)
      → split_arguments tag expected index (suc n) (argument a rest)
        ≡ map_ok (λ arguments. (a, arguments)) (split_arguments tag expected (index + 1) n rest)
  unfolding split_arguments
  split_arguments-argument expected index n rest =
      rw (split_arguments, split_once-append b',' a rest free)

split_arguments_last :
    (tag rest : Text) (expected index : ℕ) → split_arguments tag expected index zero rest ≡ ok rest
unfolding split_arguments
split_arguments_last tag rest expected index = refl

pub split_one : (tag a : Text) → split_fixed 0 tag (some a) ≡ ok a
unfolding split_fixed
split_one tag a = split_arguments_last tag a 1 0

module _ (tag a b : Text) (la : Lacks b',' a) where
  pub split_two : split_fixed 1 tag (some (argument a b)) ≡ ok (a, b)
  unfolding split_fixed
  split_two = rw (split_arguments-argument tag a la 2 0 0 b, split_arguments_last)

module _ (tag a b c : Text) (la : Lacks b',' a) (lb : Lacks b',' b) where
  pub split_three : split_fixed 2 tag (some (argument a (argument b c))) ≡ ok (a, (b, c))
  unfolding split_fixed
  split_three = rw (
    split_arguments-argument tag a la 3 0 1 (argument b c),
    split_arguments-argument tag b lb 3 1 0 c,
    split_arguments_last,
  )

module _ (tag a b c d : Text) (la : Lacks b',' a) (lb : Lacks b',' b) (lc : Lacks b',' c) where
  pub split_four :
      split_fixed 3 tag (some (argument a (argument b (argument c d)))) ≡ ok (a, (b, (c, d)))
  unfolding split_fixed
  split_four = rw (
    split_arguments-argument tag a la 4 0 2 (argument b (argument c d)),
    split_arguments-argument tag b lb 4 1 1 (argument c d),
    split_arguments-argument tag c lc 4 2 0 d,
    split_arguments_last,
  )

  pub split_five :
      (e : Text)
      → Lacks b',' d
      → split_fixed 4 tag (some (argument a (argument b (argument c (argument d e)))))
        ≡ ok (a, (b, (c, (d, e))))
  unfolding split_fixed
  split_five e ld = rw (
    split_arguments-argument tag a la 5 0 3 (argument b (argument c (argument d e))),
    split_arguments-argument tag b lb 5 1 2 (argument c (argument d e)),
    split_arguments-argument tag c lc 5 2 1 (argument d e),
    split_arguments-argument tag d ld 5 3 0 e,
    split_arguments_last,
  )

pub decode-encoded : (t : Text) → IsText t → decode (encoded t) ≡ ok t
unfolding decode
decode-encoded t h = percent_decode-encode_form_value t h

comma_unsafe : (c : ℕ) → IsSafe c → c ≢ b','
comma_unsafe c h = ground arith

safe-Lacks : (t : Text) → All IsSafe t → Lacks b',' t
safe-Lacks [] h = tt
safe-Lacks (c ∷ t) (hc, h) = (comma_unsafe c hc, safe-Lacks t h)

pub Lacks-encoded : (t : Text) → IsText t → Lacks b',' (encoded t)
Lacks-encoded t h = safe-Lacks (encoded t) (encode_form_value-IsSafe t h)

pub parse_line-argument :
    (tag rest : Text)
    → Lacks b',' tag
    → parse_line (argument tag rest ++ crlf) ≡ parse_tag (argument tag rest) tag (some rest)
unfolding parse_line
parse_line-argument tag rest h =
    rw (parse_line, strip_terminator-append (argument tag rest), split_once-append b',' tag rest h)

pub parse_line_bare :
    (tag : Text) → split_once b',' tag ≡ none → parse_line (tag ++ crlf) ≡ parse_tag tag tag none
unfolding parse_line
parse_line_bare tag h = rw (parse_line, strip_terminator-append tag, h)
