-- ===== src/Subscription/Update/Tokens.antt =====
-- What the tokens of a value list mean, written without the loop: a token keeps a run of fields, or
-- puts a slot.
use lightstreamer_rs.Base.{
  ℕ, zero, suc, ◌+◌, ◌-◌, ◌*◌, ◌≡◌, ◌≢◌, ◌⊎◌, inl, inr, refl, sym, ap, subst, ◌∙◌, arith, true,
  false, Option, none, some, List, [], ◌∷◌, ◌++◌, All, ok, length, append_assoc, append-nil,
  get_elem?, Result, if-cases, ◌==◌, ==_iff, map_ok, Bool-cases,
}
use lightstreamer_rs.Text.{Text, Lacks}
use lightstreamer_rs.Text.Numbers.{IsDigit}
use lightstreamer_rs.Protocol.Errors.{ProtocolError}
use lightstreamer_rs.Protocol.Escaping.{Cow, percent_decode, into_owned}
use lightstreamer_rs.Protocol.Diff.{
  JsonPatch, DiffDecoder, LexicalForm, as_sent, client_derived, decoder_for, apply_tlcp_diff,
  tlcp_diff_decoder, json_patch_decoder,
}
use lightstreamer_rs.Subscription.Update.{
  FieldSlot, unset, null, value, base_of, parse_usize, parse_unchanged_run, all_digits,
  split_tokens,
}

pub data Effect : Type 0 where
  keep : Effect
  put : FieldSlot → Effect

abbrev pub keeps : ℕ → List Effect
keeps zero = []
keeps (suc n) = keep ∷ keeps n

-- The number that decimal digits stand for, behind a number read before them.
abbrev pub numeral : ℕ → Text → ℕ
numeral total [] = total
numeral total (c ∷ text) = numeral (total * 10 + (c - b'0')) text

-- What a token does to the fields from a position on.
pub data Means (json : JsonPatch) (fields : List FieldSlot) (p : ℕ) (token : Text)
    (es : List Effect) : Type 0 where
  unchanged : token ≡ [] → es ≡ keep ∷ [] → Means json fields p token es
  to_null : token ≡ b'#' ∷ [] → es ≡ put null ∷ [] → Means json fields p token es
  to_empty : token ≡ b'$' ∷ [] → es ≡ put (value [] as_sent) ∷ [] → Means json fields p token es
  run :
      (digits : Text)
      → token ≡ b'^' ∷ digits
      → digits ≢ []
      → All IsDigit digits
      → es ≡ keeps (numeral 0 digits)
      → Means json fields p token es
  tlcp_diff :
      (tail base payload text : Text)
      → token ≡ b'^' ∷ b'T' ∷ tail
      → get_elem? fields p ≡ some (value base as_sent)
      → map_ok into_owned (percent_decode tail) ≡ ok payload
      → apply_tlcp_diff base payload ≡ ok text
      → es ≡ put (value text as_sent) ∷ []
      → Means json fields p token es
  json_patch :
      (tail base payload text : Text) (form : LexicalForm)
      (apply_patch : Text → Text → Result ProtocolError Text)
      → token ≡ b'^' ∷ b'P' ∷ tail
      → json ≡ some apply_patch
      → get_elem? fields p ≡ some (value base form)
      → map_ok into_owned (percent_decode tail) ≡ ok payload
      → apply_patch base payload ≡ ok text
      → es ≡ put (value text client_derived) ∷ []
      → Means json fields p token es
  content :
      (c : ℕ) (rest text : Text)
      → token ≡ c ∷ rest
      → c ≢ b'^'
      → token ≢ b'#' ∷ []
      → token ≢ b'$' ∷ []
      → map_ok into_owned (percent_decode token) ≡ ok text
      → es ≡ put (value text as_sent) ∷ []
      → Means json fields p token es

-- The tokens in their order, each at the position that those before it have reached.
pub data Reads (json : JsonPatch) (fields : List FieldSlot)
    : ℕ → List Text → List Effect → Type 0 where
  read_all : (p : ℕ) → Reads json fields p [] []
  read_one :
      (p : ℕ) (token : Text) (tokens : List Text) (es fs : List Effect)
      → Means json fields p token es
      → Reads json fields (p + length es) tokens fs
      → Reads json fields p (token ∷ tokens) (es ++ fs)

-- Tokens with a pipe between each and the next.
abbrev pub joined : Text → List Text → Text
joined token [] = token
joined token (next ∷ tokens) = token ++ b'|' ∷ joined next tokens

-- The tokens of a value list, as `split` finds them.
pub record Split (text : Text) (tokens : List Text) : Type 0 where
  pub first : Text
  pub others : List Text
  pub found : tokens ≡ first ∷ others
  pub whole : text ≡ joined first others
  pub pipeless : All (Lacks b'|') tokens

joined-append : (a b : Text) (tokens : List Text) → a ++ joined b tokens ≡ joined (a ++ b) tokens
joined-append a b [] = refl
joined-append a b (next ∷ tokens) = sym (append_assoc a b _)

Lacks-snoc : (x c : ℕ) (t : Text) → Lacks x t → c ≢ x → Lacks x (t ++ c ∷ [])
Lacks-snoc x c [] h n = (n, tt)
Lacks-snoc x c (d ∷ t) (m, h) n = (m, Lacks-snoc x c t h n)

split_tokens_pipe :
    (current text : Text) (c : ℕ)
    → c == b'|' ≡ true
    → split_tokens current (c ∷ text) ≡ current ∷ split_tokens [] text
unfolding split_tokens
split_tokens_pipe current text c e = rw (e, split_tokens)

split_tokens_other :
    (current text : Text) (c : ℕ)
    → c == b'|' ≡ false
    → split_tokens current (c ∷ text) ≡ split_tokens (current ++ c ∷ []) text
unfolding split_tokens
split_tokens_other current text c e = rw (e, split_tokens)

pub split_tokens-Split :
    (current text : Text) → Lacks b'|' current → Split (current ++ text) (split_tokens current text)
split_tokens-Split current [] h =
    unfold split_tokens in
    record {
      first = current;
      others = [];
      found = refl;
      whole = append-nil current;
      pipeless = (h, tt);
    }
split_tokens-Split current (c ∷ text) h = elim (Bool-cases (c == b'|')) [
  | inl e ↦
      let is_pipe : c ≡ b'|' = ground (arith, ==_iff c b'|') in
      let rest = split_tokens-Split [] text tt in
      let cut : split_tokens current (c ∷ text) ≡ current ∷ split_tokens [] text =
        split_tokens_pipe current text c e in
      record {
        first = current;
        others = rest.first ∷ rest.others;
        found = cut ∙ ap (λ l. current ∷ l) rest.found;
        whole = ap (λ x. current ++ x ∷ text) is_pipe ∙ ap (λ t. current ++ b'|' ∷ t) rest.whole;
        pipeless = subst (All (Lacks b'|')) (sym cut) (h, rest.pipeless);
      }
  | inr e ↦
      let no_pipe : c ≢ b'|' = ground (arith, ==_iff c b'|') in
      let rest =
        split_tokens-Split (current ++ c ∷ []) text (Lacks-snoc b'|' c current h no_pipe) in
      let grown : split_tokens current (c ∷ text) ≡ split_tokens (current ++ c ∷ []) text =
        split_tokens_other current text c e in
      record {
        first = rest.first;
        others = rest.others;
        found = grown ∙ rest.found;
        whole = sym (append_assoc current (c ∷ []) text) ∙ rest.whole;
        pipeless = subst (All (Lacks b'|')) (sym grown) rest.pipeless;
      }
]

parse_usize-numeral :
    (total : ℕ) (text : Text) (n : ℕ) → parse_usize total text ≡ some n → n ≡ numeral total text
unfolding parse_usize
parse_usize-numeral total [] n h = ground arith
parse_usize-numeral total (c ∷ text) n h =
    let ih = parse_usize-numeral (total * 10 + (c - b'0')) text n in ground arith

all_digits_lem : (text : Text) → all_digits text ≡ true → All IsDigit text
all_digits_lem [] h = tt
all_digits_lem (c ∷ text) h = (ground arith, all_digits_lem text (ground arith))

-- What is read behind a caret as a run.
pub parse_unchanged_run-digits :
    (digits : Text) (count : ℕ)
    → parse_unchanged_run digits ≡ ok count
    → (digits ≢ []) × All IsDigit digits × (count ≡ numeral 0 digits)
unfolding parse_unchanged_run
parse_unchanged_run-digits [] count h = absurd (cc h)
parse_unchanged_run-digits (c ∷ digits) count h = elim (if-cases (all_digits (c ∷ digits)) _ _ h) [
  | inl (all, e) ↦ (
    λ q. absurd (cc q),
    all_digits_lem (c ∷ digits) all,
    parse_usize-numeral 0 (c ∷ digits) count (ground arith),
  )
  | inr (_, bad) ↦ absurd (cc bad)
]

-- The decoder of a tag is that of the tag's format.
decoder_for-formats :
    (json : JsonPatch) (marker : ℕ) (decoder : DiffDecoder)
    → decoder_for json marker ≡ some decoder
    → (marker ≡ b'T') × (decoder ≡ tlcp_diff_decoder)
      ⊎ (apply_patch : Text → Text → Result ProtocolError Text) × (json ≡ some apply_patch)
        × (marker ≡ b'P')
        × (decoder ≡ json_patch_decoder apply_patch)
unfolding decoder_for
decoder_for-formats none marker decoder h = inl (ground arith, ground arith)
decoder_for-formats (some apply_patch) marker decoder h = elim (Bool-cases (b'T' == marker)) [
  | inl e ↦ inl (ground arith, ground arith)
  | inr e ↦ inr (apply_patch, refl, ground arith, ground arith)
]

-- A base is the value of the field, and as it was sent where the decoder needs that.
base_of-value :
    (decoder : DiffDecoder) (p : ℕ) (slot : Option FieldSlot) (base : Text)
    → base_of decoder p slot ≡ ok base
    → (form : LexicalForm) × (slot ≡ some (value base form))
      × (decoder.needs_base_as_sent ≡ true → form ≡ as_sent)
unfolding base_of
base_of-value decoder p (some (value text as_sent)) base h = (as_sent, ground arith, λ q. refl)
base_of-value decoder p (some (value text client_derived)) base h =
    elim (if-cases decoder.needs_base_as_sent _ _ h) [
      | inl (_, bad) ↦ absurd (cc bad)
      | inr (unneeded, e) ↦ (client_derived, ground arith, λ q. absurd (ground arith))
    ]
base_of-value decoder p (some null) base h = absurd (cc h)
base_of-value decoder p (some unset) base h = absurd (cc h)
base_of-value decoder p none base h = absurd (cc h)

-- A diff is applied to a value, in the format of its tag.
pub Means-diff :
    (json : JsonPatch) (fields : List FieldSlot) (p marker : ℕ) (tail base text : Text)
    (payload : Cow) (decoder : DiffDecoder)
    → percent_decode tail ≡ ok payload
    → decoder_for json marker ≡ some decoder
    → base_of decoder p (get_elem? fields p) ≡ ok base
    → decoder.apply base (into_owned payload) ≡ ok text
    → Means json fields p (b'^' ∷ marker ∷ tail) (put (value text decoder.result_form) ∷ [])
unfolding tlcp_diff_decoder json_patch_decoder
Means-diff json fields p marker tail base text payload decoder a b c d =
    let (form, at, needs) = base_of-value decoder p (get_elem? fields p) base c in
    elim (decoder_for-formats json marker decoder b) [
      | inl (m, e) ↦
          tlcp_diff tail base (into_owned payload) text (ground arith)
            (at ∙ ap (λ f. some (value base f)) (needs (ap (λ x. x.needs_base_as_sent) e)))
            (ap (map_ok into_owned) a) (sym (ap (λ x. x.apply base (into_owned payload)) e) ∙ d)
            (ap (λ x. put (value text x.result_form) ∷ []) e)
      | inr (apply_patch, j, m, e) ↦
          json_patch tail base (into_owned payload) text form apply_patch (ground arith) j at
            (ap (map_ok into_owned) a) (sym (ap (λ x. x.apply base (into_owned payload)) e) ∙ d)
            (ap (λ x. put (value text x.result_form) ∷ []) e)
    ]
