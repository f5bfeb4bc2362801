-- ===== src/Subscription/Update/Outcome.antt =====
-- From the effects of the tokens to the effect of `apply`.
use lightstreamer_rs.Base.{
  ℕ, suc, ◌+◌, ◌≤◌, ◌≡◌, refl, sym, ap, ◌∙◌, List, [], ◌∷◌, ◌++◌, arith, Result, ok, err, >>=-eq-ok,
  length, set, append_assoc, append-nil, length-append, inl, inr, if-cases, subst, ltb, All,
}
use lightstreamer_rs.Text.{Text, Lacks}
use lightstreamer_rs.Protocol.Errors.{ProtocolError}
use lightstreamer_rs.Protocol.Diff.{JsonPatch}
use lightstreamer_rs.Subscription.Update.{
  FieldSlot, ItemState, Staging, has_baseline, apply_token, apply_tokens, commit, decode_update,
  settle, apply, split_tokens, UpdateOutcome,
}
use lightstreamer_rs.Subscription.Update.Effects.{
  overlay, puts, KeepsSet, Kept, indexed, extend, Extends, Staging_eq, apply_token-Takes,
}
use lightstreamer_rs.Subscription.Update.Tokens.{
  Effect, keep, put, Reads, read_all, read_one, joined, split_tokens-Split,
}

Kept-append :
    (fields : List FieldSlot) (es fs : List Effect) (p : ℕ)
    → Kept fields p es
    → Kept fields (p + length es) fs
    → Kept fields p (es ++ fs)
Kept-append fields [] fs p h k = subst (λ q. Kept fields q fs) (omega arith) k
Kept-append fields (keep ∷ es) fs p (b, h) k =
    (b, Kept-append fields es fs (suc p) h (subst (λ q. Kept fields q fs) (omega arith) k))
Kept-append fields (put slot ∷ es) fs p (q, h) k =
    (q, Kept-append fields es fs (suc p) h (subst (λ q. Kept fields q fs) (omega arith) k))

indexed-append :
    (es fs : List Effect) (p : ℕ)
    → indexed p (es ++ fs) ≡ indexed p es ++ indexed (p + length es) fs
indexed-append [] fs p = ap (λ q. indexed q fs) (omega arith)
indexed-append (keep ∷ es) fs p =
    indexed-append es fs (suc p) ∙ ap (λ q. indexed (suc p) es ++ indexed q fs) (omega arith)
indexed-append (put slot ∷ es) fs p =
    ap (λ l. (p, slot) ∷ l)
      (indexed-append es fs (suc p) ∙ ap (λ q. indexed (suc p) es ++ indexed q fs) (omega arith))

puts-append :
    (es fs : List Effect) (p : ℕ) → puts p (es ++ fs) ≡ puts p es ++ puts (p + length es) fs
puts-append [] fs p = ap (λ q. puts q fs) (omega arith)
puts-append (keep ∷ es) fs p =
    puts-append es fs (suc p) ∙ ap (λ q. puts (suc p) es ++ puts q fs) (omega arith)
puts-append (put slot ∷ es) fs p =
    ap (λ l. p ∷ l)
      (puts-append es fs (suc p) ∙ ap (λ q. puts (suc p) es ++ puts q fs) (omega arith))

extend-append : (s : Staging) (es fs : List Effect) → extend (extend s es) fs ≡ extend s (es ++ fs)
extend-append s es fs =
    Staging_eq _ _ (omega (arith, length-append es fs))
      (append_assoc s.staged _ _ ∙ ap (λ l. s.staged ++ l) (sym (indexed-append es fs s.pointer)))
      (append_assoc s.changed _ _ ∙ ap (λ l. s.changed ++ l) (sym (puts-append es fs s.pointer)))

-- The same, where the effects are those that the tokens mean.
abbrev TakesAll : JsonPatch → List FieldSlot → Staging → List Text → Staging → Type 0
TakesAll json fields s tokens s' =
    (e : Extends fields s s') × Reads json fields s.pointer tokens e.0

TakesAll-refl :
    (json : JsonPatch) (fields : List FieldSlot) (s s' : Staging)
    → s.pointer ≤ length fields
    → s ≡ s'
    → TakesAll json fields s [] s'
TakesAll-refl json fields s s' h same = (
  (
    [],
    sym same
        ∙ Staging_eq _ _ (omega arith) (sym (append-nil s.staged)) (sym (append-nil s.changed)),
    tt,
    omega arith,
  ),
  read_all s.pointer,
)

Extends-trans :
    (fields : List FieldSlot) (s t u : Staging) (e : Extends fields s t) (f : Extends fields t u)
    → (g : Extends fields s u) × (g.0 ≡ e.0 ++ f.0)
Extends-trans fields s t u (es, e, k, b) (fs, f, l, c) =
    let p : t.pointer ≡ s.pointer + length es = ap (λ x. x.pointer) e in
    (
      (
        es ++ fs,
        f ∙ ap (λ x. extend x fs) e ∙ extend-append s es fs,
        Kept-append fields es fs s.pointer k (subst (λ q. Kept fields q fs) p l),
        omega (arith, length-append es fs),
      ),
      refl,
    )

apply_tokens-TakesAll :
    (json : JsonPatch) (fields : List FieldSlot) (tokens : List Text) (s s' : Staging)
    → s.pointer ≤ length fields
    → apply_tokens json fields s tokens ≡ ok s'
    → TakesAll json fields s tokens s'
unfolding apply_tokens
apply_tokens-TakesAll json fields [] s s' b h = TakesAll-refl json fields s s' b (ground arith)
apply_tokens-TakesAll json fields (token ∷ tokens) s s' b h =
    let (t, e, h₁) = >>=-eq-ok (apply_token json fields s token) _ h in
    let ((es, x, k, c), means) = apply_token-Takes json fields s t token e in
    let p : t.pointer ≡ s.pointer + length es = ap (λ x. x.pointer) x in
    let ((fs, y, l, d), reads) = apply_tokens-TakesAll json fields tokens t s' (omega arith) h₁ in
    let (g, q) = Extends-trans fields s t s' (es, x, k, c) (fs, y, l, d) in
    (
      g,
      subst (Reads json fields s.pointer (token ∷ tokens)) (sym q) (
          read_one s.pointer token tokens es fs means
            (subst (λ n. Reads json fields n tokens fs) p reads)),
    )

commit-cons :
    (f : FieldSlot) (fields : List FieldSlot) (es : List Effect) (p : ℕ)
    → commit (f ∷ fields) (indexed (suc p) es) ≡ f ∷ commit fields (indexed p es)
unfolding commit
commit-cons f fields [] p = refl
commit-cons f fields (keep ∷ es) p = commit-cons f fields es (suc p)
commit-cons f fields (put slot ∷ es) p = commit-cons f (set fields p slot) es (suc p)

commit_nil : (es : List Effect) (p : ℕ) → commit [] (indexed p es) ≡ []
unfolding commit
commit_nil [] p = refl
commit_nil (keep ∷ es) p = commit_nil es (suc p)
commit_nil (put slot ∷ es) p = commit_nil es (suc p)

commit-overlay :
    (fields : List FieldSlot) (es : List Effect) → commit fields (indexed 0 es) ≡ overlay fields es
commit-overlay [] es = commit_nil es 0
commit-overlay (f ∷ fields) [] = unfold commit in refl
commit-overlay (f ∷ fields) (keep ∷ es) =
    commit-cons f fields es 0 ∙ ap (λ l. f ∷ l) (commit-overlay fields es)
commit-overlay (f ∷ fields) (put slot ∷ es) =
    first ∙ commit-cons slot fields es 0 ∙ ap (λ l. slot ∷ l) (commit-overlay fields es)
  where
    first : commit (f ∷ fields) (indexed 0 (put slot ∷ es)) ≡ commit (slot ∷ fields) (indexed 1 es)
    first = unfold commit in refl

Kept-cons :
    (f : FieldSlot) (fields : List FieldSlot) (es : List Effect) (p : ℕ)
    → Kept (f ∷ fields) (suc p) es
    → Kept fields p es
Kept-cons f fields [] p h = tt
Kept-cons f fields (keep ∷ es) p (b, h) =
    (unfold has_baseline in b, Kept-cons f fields es (suc p) h)
Kept-cons f fields (put slot ∷ es) p (q, h) = (q, Kept-cons f fields es (suc p) h)

Kept-KeepsSet :
    (fields : List FieldSlot) (es : List Effect)
    → length es ≤ length fields
    → Kept fields 0 es
    → KeepsSet fields es
Kept-KeepsSet fields [] b h = tt
Kept-KeepsSet [] (e ∷ es) b h = omega arith
Kept-KeepsSet (f ∷ fields) (keep ∷ es) b (k, h) =
    (unfold has_baseline in k, Kept-KeepsSet fields es (omega arith) (Kept-cons f fields es 0 h))
Kept-KeepsSet (f ∷ fields) (put slot ∷ es) b (q, h) =
    (q, Kept-KeepsSet fields es (omega arith) (Kept-cons f fields es 0 h))

abbrev start : Staging
start = record { pointer = 0; staged = []; changed = [] }

-- A decoded value list covers the schema.
decode_update-TakesAll :
    (json : JsonPatch) (fields : List FieldSlot) (raw_values : Text) (s : Staging)
    → decode_update json fields raw_values ≡ ok s
    → TakesAll json fields start (split_tokens [] raw_values) s × (length fields ≤ s.pointer)
unfolding decode_update
decode_update-TakesAll json fields raw_values s h =
    let (s', e, h₁) = >>=-eq-ok (apply_tokens json fields start (split_tokens [] raw_values)) _ h in
    elim (if-cases (ltb s'.pointer (length fields)) _ _ h₁) [
      | inl (_, bad) ↦ absurd (cc bad)
      | inr (b, q) ↦
          let same : s' ≡ s = ground arith in
          (
            apply_tokens-TakesAll json fields (split_tokens [] raw_values) start s (omega arith)
                (e ∙ q),
            ground arith,
          )
    ]

-- What an accepted value list says, and what it did.
pub record Applied (json : JsonPatch) (item after : ItemState) (raw_values : Text)
    (outcome : UpdateOutcome) : Type 0 where
  pub first : Text
  pub others : List Text
  pub listed : raw_values ≡ joined first others
  pub pipeless : All (Lacks b'|') (first ∷ others)
  pub effects : List Effect
  pub meant : Reads json item.fields 0 (first ∷ others) effects
  pub covers : length effects ≡ length item.fields
  pub stored : after.fields ≡ overlay item.fields effects
  pub reported : outcome.changed ≡ puts 0 effects
  pub kept : KeepsSet item.fields effects

-- An accepted value list is a list of tokens with a pipe between each and the next, and the tokens
-- have together one effect for each field of the schema, in order. An empty token keeps the field,
-- `#` puts null, `$` the empty text, `^` with a number keeps so many fields, `^T` and `^P` put what
-- the diff makes of the value that the field had, and any other token puts the text that it encodes.
-- A field that is kept had been set before. The fields are stored so, and the outcome reports those
-- that are put.
pub apply-Applied :
    (json : JsonPatch) (item after : ItemState) (raw_values : Text) (outcome : UpdateOutcome)
    → apply json item raw_values ≡ (after, ok outcome)
    → Applied json item after raw_values outcome
unfolding apply
apply-Applied json item after raw_values outcome h =
    go (decode_update json item.fields raw_values) refl h
  where
    go :
        (r : Result ProtocolError Staging)
        → decode_update json item.fields raw_values ≡ r
        → settle item r ≡ (after, ok outcome)
        → Applied json item after raw_values outcome
    go (err e) p q = absurd (ground arith)
    go (ok s) p q =
        let (((es, x, k, b), reads), c) = decode_update-TakesAll json item.fields raw_values s p in
        let cut = split_tokens-Split [] raw_values tt in
        let staged : s.staged ≡ indexed 0 es = ap (λ t. t.staged) x in
        let changed : s.changed ≡ puts 0 es = ap (λ t. t.changed) x in
        let pointer : s.pointer ≡ 0 + length es = ap (λ t. t.pointer) x in
        record {
          first = cut.first;
          others = cut.others;
          listed = cut.whole;
          pipeless = subst (All (Lacks b'|')) cut.found cut.pipeless;
          effects = es;
          meant = subst (λ ts. Reads json item.fields 0 ts es) cut.found reads;
          covers = omega arith;
          stored = ground (arith, ap (commit item.fields) staged, commit-overlay item.fields es);
          reported = ground arith;
          kept = Kept-KeepsSet item.fields es (omega arith) k;
        }
