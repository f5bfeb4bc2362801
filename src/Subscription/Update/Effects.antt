-- ===== src/Subscription/Update/Effects.antt =====
-- What an accepted value list does to each field of the schema: it keeps a value that is there, or
-- puts a new one.
use lightstreamer_rs.Base.{
  ℕ, zero, suc, ◌+◌, ◌<◌, ◌≤◌, ◌≡◌, refl, sym, ap, ◌∙◌, true, false, none, List, [], ◌∷◌, ◌++◌,
  arith, ok, >>=-eq-ok, length, set, append-nil, ◌≢◌, subst, map_ok, ==_iff, ok_or, inl, inr,
  if-cases, ◌==◌, ◌&&◌, leb, get_elem?,
}
use lightstreamer_rs.Text.{Text, is_ascii_digit, is_ascii_alphabetic}
use lightstreamer_rs.Protocol.Escaping.{percent_decode, into_owned}
use lightstreamer_rs.Protocol.Diff.{JsonPatch, as_sent, decoder_for}
use lightstreamer_rs.Subscription.Update.{
  FieldSlot, value, null, Staging, stage, has_baseline, find_unset, parse_unchanged_run, base_of,
  apply_run, apply_diff, apply_caret, apply_content, read_token, apply_token, is_set, is_nil,
}
use lightstreamer_rs.Subscription.Update.Tokens.{
  Effect, keep, put, keeps, Means, unchanged, to_null, to_empty, run, content,
  parse_unchanged_run-digits, Means-diff,
}

-- The fields after the effects.
abbrev pub overlay : List FieldSlot → List Effect → List FieldSlot
overlay [] es = []
overlay (f ∷ fields) [] = f ∷ fields
overlay (f ∷ fields) (keep ∷ es) = f ∷ overlay fields es
overlay (f ∷ fields) (put slot ∷ es) = slot ∷ overlay fields es

-- The positions of the fields that are put, from `pointer` on.
abbrev pub puts : ℕ → List Effect → List ℕ
puts pointer [] = []
puts pointer (keep ∷ es) = puts (suc pointer) es
puts pointer (put slot ∷ es) = pointer ∷ puts (suc pointer) es

-- A field is kept only if an update has set it, and what is put sets it.
abbrev pub KeepsSet : List FieldSlot → List Effect → Type 0
KeepsSet fields [] = Unit {0}
KeepsSet [] (e ∷ es) = ⊥
KeepsSet (f ∷ fields) (keep ∷ es) = (is_set f ≡ true) × KeepsSet fields es
KeepsSet (f ∷ fields) (put slot ∷ es) = (is_set slot ≡ true) × KeepsSet fields es

-- The same, over the whole schema and from a pointer on.
abbrev pub Kept : List FieldSlot → ℕ → List Effect → Type 0
Kept fields pointer [] = Unit {0}
Kept fields pointer (keep ∷ es) =
    (has_baseline fields pointer ≡ true) × Kept fields (suc pointer) es
Kept fields pointer (put slot ∷ es) = (is_set slot ≡ true) × Kept fields (suc pointer) es

abbrev pub indexed : ℕ → List Effect → List (ℕ × FieldSlot)
indexed pointer [] = []
indexed pointer (keep ∷ es) = indexed (suc pointer) es
indexed pointer (put slot ∷ es) = (pointer, slot) ∷ indexed (suc pointer) es

-- The staging area, once the effects are added to it.
abbrev pub extend : Staging → List Effect → Staging
extend s es = record {
  pointer = s.pointer + length es;
  staged = s.staged ++ indexed s.pointer es;
  changed = s.changed ++ puts s.pointer es;
}

abbrev pub Extends : List FieldSlot → Staging → Staging → Type 0
Extends fields s s' =
    (es : List Effect) × (s' ≡ extend s es)
    × Kept fields s.pointer es
    × (s.pointer + length es ≤ length fields)

pub Staging_eq :
    (s t : Staging) → s.pointer ≡ t.pointer → s.staged ≡ t.staged → s.changed ≡ t.changed → s ≡ t
Staging_eq s t p q r = λ i. record { pointer = p i; staged = q i; changed = r i }

-- The same, where the effects are those that a token means.
abbrev pub Takes : JsonPatch → List FieldSlot → Staging → Text → Staging → Type 0
Takes json fields s token s' = (e : Extends fields s s') × Means json fields s.pointer token e.0

Takes-put :
    (json : JsonPatch) (fields : List FieldSlot) (s s' : Staging) (token : Text) (slot : FieldSlot)
    → s.pointer < length fields
    → is_set slot ≡ true
    → s' ≡ stage s slot
    → Means json fields s.pointer token (put slot ∷ [])
    → Takes json fields s token s'
Takes-put json fields s s' token slot h q e m =
    ((put slot ∷ [], e ∙ Staging_eq _ _ (omega arith) refl refl, (q, tt), omega arith), m)

Takes-keep :
    (json : JsonPatch) (fields : List FieldSlot) (s s' : Staging)
    → s.pointer < length fields
    → has_baseline fields s.pointer ≡ true
    → s' ≡ record s { pointer = s.pointer + 1 }
    → Takes json fields s [] s'
Takes-keep json fields s s' h b e = (
  (
    keep ∷ [],
    e ∙ Staging_eq _ _ (omega arith) (sym (append-nil _)) (sym (append-nil _)),
    (b, tt),
    omega arith,
  ),
  unchanged refl refl,
)

find_unset-Kept :
    (fields : List FieldSlot) (count pointer : ℕ)
    → find_unset fields pointer count ≡ none
    → Kept fields pointer (keeps count)
unfolding find_unset
find_unset-Kept fields zero pointer h = tt
find_unset-Kept fields (suc count) pointer h =
    let next : pointer + 1 ≡ suc pointer = omega arith in
    let rest : find_unset fields (pointer + 1) count ≡ none = ground arith in
    (ground arith, find_unset-Kept fields count (suc pointer) (rw next at rest))

keeps_nil :
    (n p : ℕ) → (length (keeps n) ≡ n) × (indexed p (keeps n) ≡ []) × (puts p (keeps n) ≡ [])
keeps_nil zero p = (refl, refl, refl)
keeps_nil (suc n) p = let (a, b, c) = keeps_nil n (suc p) in (omega arith, b, c)

apply_run-eq-ok :
    (fields : List FieldSlot) (s s' : Staging) (digits : Text) (count : ℕ)
    → parse_unchanged_run digits ≡ ok count
    → apply_run fields s digits ≡ ok s'
    → (find_unset fields s.pointer count ≡ none)
      × (s.pointer + count ≤ length fields)
      × (s' ≡ record s { pointer = s.pointer + count })
unfolding apply_run
apply_run-eq-ok fields s s' digits count e h = ground arith

apply_run-Takes :
    (json : JsonPatch) (fields : List FieldSlot) (s s' : Staging) (digits : Text)
    → apply_run fields s digits ≡ ok s'
    → Takes json fields s (b'^' ∷ digits) s'
apply_run-Takes json fields s s' digits h =
    let (count, e) = parsed h in
    let (f, b, q) = apply_run-eq-ok fields s s' digits count e h in
    let (size, staged, changed) = keeps_nil count s.pointer in
    let (nonempty, all, n) = parse_unchanged_run-digits digits count e in
    (
      (
        keeps count,
        q
            ∙ Staging_eq _ _ (omega arith)
                (sym (append-nil _) ∙ ap (λ l. s.staged ++ l) (sym staged))
                (sym (append-nil _) ∙ ap (λ l. s.changed ++ l) (sym changed)),
        find_unset-Kept fields count s.pointer f,
        omega arith,
      ),
      run digits refl nonempty all (ap keeps n),
    )
  where
    parsed :
        apply_run fields s digits ≡ ok s' → (count : ℕ) × (parse_unchanged_run digits ≡ ok count)
    parsed h =
        unfold apply_run in
        (let (count, e, _) = >>=-eq-ok (parse_unchanged_run digits) _ h in (count, e))

apply_diff-Takes :
    (json : JsonPatch) (fields : List FieldSlot) (s s' : Staging) (marker : ℕ) (tail : Text)
    → s.pointer < length fields
    → apply_diff json fields s marker tail ≡ ok s'
    → Takes json fields s (b'^' ∷ marker ∷ tail) s'
unfolding apply_diff
apply_diff-Takes json fields s s' marker tail b h =
    let (payload, a, h₁) = >>=-eq-ok (percent_decode tail) _ h in
    let (decoder, d, h₂) = >>=-eq-ok (ok_or (decoder_for json marker) _) _ h₁ in
    let (base, c, h₃) = >>=-eq-ok (base_of decoder s.pointer (get_elem? fields s.pointer)) _ h₂ in
    let (text, t, h₄) = >>=-eq-ok (decoder.apply base (into_owned payload)) _ h₃ in
    Takes-put json fields s s' _ (value text decoder.result_form) b refl (ground arith)
      (Means-diff json fields s.pointer marker tail base text payload decoder a (ground arith) c t)

apply_caret-Takes :
    (json : JsonPatch) (fields : List FieldSlot) (s s' : Staging) (rest : Text)
    → s.pointer < length fields
    → apply_caret json fields s rest ≡ ok s'
    → Takes json fields s (b'^' ∷ rest) s'
unfolding apply_caret
apply_caret-Takes json fields s s' [] b h = absurd (cc)
apply_caret-Takes json fields s s' (marker ∷ tail) b h =
    elim (if-cases (is_ascii_digit marker) _ _ h) [
      | inl (_, e) ↦ apply_run-Takes json fields s s' (marker ∷ tail) e
      | inr (_, h₁) ↦ elim (if-cases (is_ascii_alphabetic marker) _ _ h₁) [
        | inl (_, diff) ↦ apply_diff-Takes json fields s s' marker tail b diff
        | inr (_, bad) ↦ absurd (cc bad)
      ]
    ]

apply_content-Takes :
    (json : JsonPatch) (fields : List FieldSlot) (s s' : Staging) (c : ℕ) (rest : Text)
    → s.pointer < length fields
    → c ≢ b'^'
    → c ∷ rest ≢ b'#' ∷ []
    → c ∷ rest ≢ b'$' ∷ []
    → apply_content s (c ∷ rest) ≡ ok s'
    → Takes json fields s (c ∷ rest) s'
unfolding apply_content
apply_content-Takes json fields s s' c rest b caret hash dollar h =
    let (decoded, d, h₁) = >>=-eq-ok (percent_decode (c ∷ rest)) _ h in
    Takes-put json fields s s' (c ∷ rest) (value (into_owned decoded) as_sent) b refl (ground arith)
      (content c rest (into_owned decoded) refl caret hash dollar (ap (map_ok into_owned) d) refl)

-- A token that is one given character.
is_lone :
    (c x : ℕ) (rest : Text)
    → ((c == x && is_nil rest) ≡ true → c ∷ rest ≡ x ∷ [])
      × ((c == x && is_nil rest) ≡ false → c ∷ rest ≢ x ∷ [])
is_lone c x [] = (λ h. ground (arith, ==_iff c x), λ h q. ground (arith, ==_iff c x))
is_lone c x (d ∷ rest) = (λ h. ground arith, λ h q. ground arith)

read_token-Takes :
    (json : JsonPatch) (fields : List FieldSlot) (s s' : Staging) (token : Text)
    → s.pointer < length fields
    → read_token json fields s token ≡ ok s'
    → Takes json fields s token s'
unfolding read_token
read_token-Takes json fields s s' [] b h = elim (if-cases (has_baseline fields s.pointer) _ _ h) [
  | inl (set, e) ↦ Takes-keep json fields s s' b set (ground arith)
  | inr (_, bad) ↦ absurd (cc bad)
]
read_token-Takes json fields s s' (c ∷ rest) b h =
    let (hash, no_hash) = is_lone c b'#' rest in
    let (dollar, no_dollar) = is_lone c b'$' rest in
    elim (if-cases (c == b'#' && is_nil rest) _ _ h) [
      | inl (q, e) ↦
          Takes-put json fields s s' (c ∷ rest) null b refl (ground arith) (to_null (hash q) refl)
      | inr (q, h₁) ↦ elim (if-cases (c == b'$' && is_nil rest) _ _ h₁) [
        | inl (r, e) ↦
            Takes-put json fields s s' (c ∷ rest) (value [] as_sent) b refl (ground arith)
              (to_empty (dollar r) refl)
        | inr (r, h₂) ↦ elim (if-cases (c == b'^') _ _ h₂) [
          | inl (x, e) ↦
              subst (λ d. Takes json fields s (d ∷ rest) s') (ground (arith, ==_iff c b'^'))
                (apply_caret-Takes json fields s s' rest b e)
          | inr (x, e) ↦
              apply_content-Takes json fields s s' c rest b (ground (arith, ==_iff c b'^'))
                (no_hash q) (no_dollar r) e
        ]
      ]
    ]

-- One round of the loop.
pub apply_token-Takes :
    (json : JsonPatch) (fields : List FieldSlot) (s s' : Staging) (token : Text)
    → apply_token json fields s token ≡ ok s'
    → Takes json fields s token s'
unfolding apply_token
apply_token-Takes json fields s s' token h = elim (if-cases (leb (length fields) s.pointer) _ _ h) [
  | inl (_, bad) ↦ absurd (cc bad)
  | inr (b, e) ↦ read_token-Takes json fields s s' token (ground arith) e
]
