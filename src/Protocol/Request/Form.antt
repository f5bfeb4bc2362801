-- ===== src/Protocol/Request/Form.antt =====
-- How a server reads a line of parameters: an independent description of what `ParameterLine` writes.
use lightstreamer_rs.Base.{
  ℕ, ◌<◌, ◌≡◌, ◌≢◌, refl, ap, sym, arith, true, false, Option, none, some, List, [], ◌∷◌, ◌++◌,
  append_assoc, append-nil, ◌==◌, Result, ok, err, All, All-append,
}
use lightstreamer_rs.Text.{Text, IsText, Lacks, split_once, split_once-append}
use lightstreamer_rs.Text.Numbers.{decimal, IsDigit, decimal-IsDigit}
use lightstreamer_rs.Protocol.Errors.{ProtocolError}
use lightstreamer_rs.Protocol.Escaping.{encode_form_value, into_owned}
use lightstreamer_rs.Protocol.Escaping.RoundTrip.{
  IsSafe, encode_form_value-IsSafe, percent_decode-encode_form_value, percent_decode_plain,
}
use lightstreamer_rs.Protocol.Arguments.{decode}
use lightstreamer_rs.Protocol.Parameters.{ParameterLine, verbatim}

-- The pieces between separators; `piece` is the one being read.
unfoldable pub split_all : ℕ → Text → Text → List Text
split_all x piece [] = piece ∷ []
split_all x piece (c ∷ t) = elim (c == x) [
  | true ↦ piece ∷ split_all x [] t
  | false ↦ split_all x (piece ++ c ∷ []) t
]

abbrev pub Pairs : Type 0
Pairs = List (Text × Text)

abbrev pub named_value : Text → Result ProtocolError Text → Option (Text × Text)
named_value name (ok value) = some (name, value)
named_value name (err e) = none

abbrev pub pair_of : Option (Text × Text) → Option (Text × Text)
pair_of none = none
pair_of (some (name, value)) = named_value name (decode value)

-- A name and a percent-encoded value, parted by the first `=`.
unfoldable pub read_pair : Text → Option (Text × Text)
read_pair piece = pair_of (split_once b'=' piece)

abbrev pub cons_pair : Option (Text × Text) → Option Pairs → Option Pairs
cons_pair none pairs = none
cons_pair (some pair) none = none
cons_pair (some pair) (some pairs) = some (pair ∷ pairs)

unfoldable pub read_pairs : List Text → Option Pairs
read_pairs [] = some []
read_pairs (piece ∷ pieces) = cons_pair (read_pair piece) (read_pairs pieces)

-- The parameters of a line: pairs parted by `&`.
unfoldable pub read_form : Text → Option Pairs
read_form [] = some []
read_form (c ∷ t) = read_pairs (split_all b'&' [] (c ∷ t))

split_all-Lacks : (x : ℕ) (piece t : Text) → Lacks x t → split_all x piece t ≡ (piece ++ t) ∷ []
unfolding split_all
split_all-Lacks x piece [] h = ap (λ p. p ∷ []) (sym (append-nil piece))
split_all-Lacks x piece (c ∷ t) (hc, h) =
    ground (arith, split_all-Lacks x (piece ++ c ∷ []) t h, append_assoc piece (c ∷ []) t)

split_all-append :
    (x : ℕ) (piece t rest : Text)
    → Lacks x rest
    → split_all x piece (t ++ x ∷ rest) ≡ split_all x piece t ++ rest ∷ []
unfolding split_all
split_all-append x piece [] rest h = ground (arith, split_all-Lacks x [] rest h)
split_all-append x piece (c ∷ t) rest h =
    ground (arith, split_all-append x [] t rest h, split_all-append x (piece ++ c ∷ []) t rest h)

cons_pair-eq-some :
    (o : Option (Text × Text)) (rest : Option Pairs) {pairs : Pairs}
    → cons_pair o rest ≡ some pairs
    → (pair : Text × Text) × (pairs' : Pairs) × (o ≡ some pair)
      × (rest ≡ some pairs')
      × (pair ∷ pairs' ≡ pairs)
cons_pair-eq-some none rest h = cc
cons_pair-eq-some (some pair) none h = cc
cons_pair-eq-some (some pair) (some pairs') h = (pair, pairs', refl, refl, cc)

read_pairs-append :
    (pieces : List Text) (piece : Text) {pairs : Pairs} (pair : Text × Text)
    → read_pairs pieces ≡ some pairs
    → read_pair piece ≡ some pair
    → read_pairs (pieces ++ piece ∷ []) ≡ some (pairs ++ pair ∷ [])
unfolding read_pairs
read_pairs-append [] piece {pairs} pair h e = let n : [] ≡ pairs = cc in rw (e, sym n)
read_pairs-append (p ∷ pieces) piece {pairs} pair h e =
    let (q, qs, ep, eps, joined) = cons_pair-eq-some (read_pair p) (read_pairs pieces) h in
    rw (ep, read_pairs-append pieces piece pair eps e, sym joined)

-- What may stand for a value behind a name: it has no separator and decodes.
abbrev pub Spells : Text → Text → Type 0
Spells written value = Lacks b'&' written × (decode written ≡ ok value)

-- A parameter's name.
abbrev pub IsName : Text → Type 0
IsName name = Lacks b'&' name × Lacks b'=' name

read_pair-written :
    (name written value : Text)
    → IsName name
    → Spells written value
    → read_pair (name ++ b'=' ∷ written) ≡ some (name, value)
unfolding read_pair
read_pair-written name written value hn hw = rw (split_once-append b'=' name written hn.1, hw.1)

Lacks-written :
    (name written value : Text)
    → IsName name
    → Spells written value
    → Lacks b'&' (name ++ b'=' ∷ written)
Lacks-written name written value hn hw = All-append _ name (b'=' ∷ written) hn.0 (omega arith, hw.0)

read_form_one :
    (piece : Text) (pair : Text × Text)
    → piece ≢ []
    → Lacks b'&' piece
    → read_pair piece ≡ some pair
    → read_form piece ≡ some (pair ∷ [])
unfolding read_form read_pairs
read_form_one [] pair ne h e = absurd (ne refl)
read_form_one (c ∷ t) pair ne h e = rw (split_all-Lacks b'&' [] (c ∷ t) h, e)

append-ne-nil : (xs : Text) (c : ℕ) (ys : Text) → xs ++ c ∷ ys ≢ []
append-ne-nil [] c ys h = cc
append-ne-nil (x ∷ xs) c ys h = cc

pub read_form-verbatim :
    (line : ParameterLine) (pairs : Pairs) (name written value : Text)
    → IsName name
    → Spells written value
    → read_form line ≡ some pairs
    → read_form (verbatim line name written) ≡ some (pairs ++ (name, value) ∷ [])
unfolding verbatim read_form
read_form-verbatim [] pairs name written value hn hw h =
    let n : [] ≡ pairs = cc in
    rw (
      read_form_one (name ++ b'=' ∷ written) (name, value) (append-ne-nil name b'=' written)
          (Lacks-written name written value hn hw) (read_pair-written name written value hn hw),
      sym n,
    )
read_form-verbatim (c ∷ line) pairs name written value hn hw h =
    rw
      (split_all-append b'&' [] (c ∷ line) (name ++ b'=' ∷ written)
        (Lacks-written name written value hn hw))
      (read_pairs-append (split_all b'&' [] (c ∷ line)) (name ++ b'=' ∷ written) (name, value) h
        (read_pair-written name written value hn hw))

-- What a value of the encoder for text spells.
IsSafe-Lacks : (t : Text) → All IsSafe t → Lacks b'&' t
IsSafe-Lacks [] h = tt
IsSafe-Lacks (c ∷ t) (hc, h) = (ground arith, IsSafe-Lacks t h)

pub Spells-text : (t : Text) → IsText t → Spells (into_owned (encode_form_value t)) t
unfolding decode
Spells-text t h =
    (IsSafe-Lacks _ (encode_form_value-IsSafe t h), percent_decode-encode_form_value t h)

-- A character that needs no encoding.
abbrev pub IsBare : ℕ → Type 0
IsBare c = (c < 128) × (c ≢ b'%') × (c ≢ b'&')

pub Spells-bare : (t : Text) → All IsBare t → Spells t t
unfolding decode
Spells-bare t h =
    (go b'&' (λ c hc. hc.2) t h, percent_decode_plain t (go' t h) (go b'%' (λ c hc. hc.1) t h))
  where
    go : (x : ℕ) → ((c : ℕ) → IsBare c → c ≢ x) → (s : Text) → All IsBare s → Lacks x s
    go x ne [] hs = tt
    go x ne (c ∷ s) (hc, hs) = (ne c hc, go x ne s hs)

    go' : (s : Text) → All IsBare s → All (λ c. c < 128) s
    go' [] hs = tt
    go' (c ∷ s) (hc, hs) = (hc.0, go' s hs)

pub IsBare-decimal : (n : ℕ) → All IsBare (decimal n)
IsBare-decimal n = go (decimal n) (decimal-IsDigit n)
  where
    go : (t : Text) → All IsDigit t → All IsBare t
    go [] hs = tt
    go (c ∷ t) (hc, hs) = ((omega arith, omega arith, omega arith), go t hs)
