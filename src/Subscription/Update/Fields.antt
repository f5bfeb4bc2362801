-- ===== src/Subscription/Update/Fields.antt =====
-- The fields of an item across an update: which change, which stay, and that none stays unset.
use lightstreamer_rs.Base.{
  ℕ, zero, suc, ◌+◌, ◌<◌, ◌≤◌, ◌≡◌, ◌≢◌, refl, sym, ap, ◌∙◌, subst, true, Option, none, some, List,
  [], ◌∷◌, arith, Result, ok, err, length, get_elem?, All,
}
use lightstreamer_rs.Text.{Text}
use lightstreamer_rs.Protocol.Errors.{ProtocolError}
use lightstreamer_rs.Protocol.Diff.{JsonPatch}
use lightstreamer_rs.Subscription.Update.{
  FieldSlot, ItemState, UpdateOutcome, Staging, is_set, field, field_count, slot_text, settle,
  apply, decode_update,
}
use lightstreamer_rs.Subscription.Update.Effects.{overlay, puts, KeepsSet}
use lightstreamer_rs.Subscription.Update.Tokens.{Effect, keep, put}
use lightstreamer_rs.Subscription.Update.Outcome.{apply-Applied}

-- Positions that ascend within a range.
abbrev pub AscendsIn : ℕ → ℕ → List ℕ → Type 0
AscendsIn lo hi [] = Unit {0}
AscendsIn lo hi (i ∷ is) = (lo ≤ i) × (i < hi) × AscendsIn (suc i) hi is

AscendsIn-lower :
    (lo lo' hi : ℕ) (is : List ℕ) → lo ≤ lo' → AscendsIn lo' hi is → AscendsIn lo hi is
AscendsIn-lower lo lo' hi [] h a = tt
AscendsIn-lower lo lo' hi (i ∷ is) h (a, b, c) = (omega arith, b, c)

puts-AscendsIn : (es : List Effect) (p hi : ℕ) → p + length es ≤ hi → AscendsIn p hi (puts p es)
puts-AscendsIn [] p hi h = tt
puts-AscendsIn (keep ∷ es) p hi h =
    AscendsIn-lower p (suc p) hi (puts (suc p) es) (omega arith)
      (puts-AscendsIn es (suc p) hi (omega arith))
puts-AscendsIn (put slot ∷ es) p hi h =
    (omega arith, omega arith, puts-AscendsIn es (suc p) hi (omega arith))

-- The outcome of an update lists fields of the schema, each once, in ascending order.
pub apply-AscendsIn :
    (json : JsonPatch) (item after : ItemState) (raw_values : Text) (outcome : UpdateOutcome)
    → apply json item raw_values ≡ (after, ok outcome)
    → AscendsIn 0 (field_count item) outcome.changed
apply-AscendsIn json item after raw_values outcome h =
    let a = apply-Applied json item after raw_values outcome h in
    subst (AscendsIn 0 (field_count item)) (sym a.reported)
      (puts-AscendsIn a.effects 0 (length item.fields) (omega (arith, a.covers)))

length-overlay :
    (fields : List FieldSlot) (es : List Effect) → length (overlay fields es) ≡ length fields
length-overlay [] es = refl
length-overlay (f ∷ fields) [] = refl
length-overlay (f ∷ fields) (keep ∷ es) = ap suc (length-overlay fields es)
length-overlay (f ∷ fields) (put slot ∷ es) = ap suc (length-overlay fields es)

settle_refused :
    (item after : ItemState) (d : Result ProtocolError Staging) {e : ProtocolError}
    → settle item d ≡ (after, err e)
    → after ≡ item
settle_refused item after (ok s) h = absurd (ground arith)
settle_refused item after (err e) h = ground arith

-- A refused list changes no field.
pub apply_refused :
    (json : JsonPatch) (item after : ItemState) (raw_values : Text) (e : ProtocolError)
    → apply json item raw_values ≡ (after, err e)
    → after ≡ item
unfolding apply
apply_refused json item after raw_values e h =
    settle_refused item after (decode_update json item.fields raw_values) h

-- No field leaves or joins the schema, whether the list is accepted or refused.
pub field_count-apply :
    (json : JsonPatch) (item after : ItemState) (raw_values : Text)
    (r : Result ProtocolError UpdateOutcome)
    → apply json item raw_values ≡ (after, r)
    → field_count after ≡ field_count item
field_count-apply json item after raw_values (ok outcome) h =
    let a = apply-Applied json item after raw_values outcome h in
    ap length a.stored ∙ length-overlay item.fields a.effects
field_count-apply json item after raw_values (err e) h =
    ap (λ i. length i.fields) (apply_refused json item after raw_values e h)

abbrev pub IsComplete : ItemState → Type 0
IsComplete item = All (λ f. is_set f ≡ true) item.fields

overlay-set :
    (fields : List FieldSlot) (es : List Effect)
    → length es ≡ length fields
    → KeepsSet fields es
    → All (λ f. is_set f ≡ true) (overlay fields es)
overlay-set [] es b k = tt
overlay-set (f ∷ fields) [] b k = absurd (omega arith)
overlay-set (f ∷ fields) (keep ∷ es) b (q, k) = (q, overlay-set fields es (omega arith) k)
overlay-set (f ∷ fields) (put slot ∷ es) b (q, k) = (q, overlay-set fields es (omega arith) k)

-- Once an update has been accepted, no field is unset: the first update sets every field.
pub apply-IsComplete :
    (json : JsonPatch) (item after : ItemState) (raw_values : Text) (outcome : UpdateOutcome)
    → apply json item raw_values ≡ (after, ok outcome)
    → IsComplete after
apply-IsComplete json item after raw_values outcome h =
    let a = apply-Applied json item after raw_values outcome h in
    subst (All (λ f. is_set f ≡ true)) (sym a.stored)
      (overlay-set item.fields a.effects a.covers a.kept)

get_elem?-overlay :
    (fields : List FieldSlot) (es : List Effect) (p i : ℕ)
    → All (λ j. j ≢ p + i) (puts p es)
    → get_elem? (overlay fields es) i ≡ get_elem? fields i
get_elem?-overlay [] es p i h = refl
get_elem?-overlay (f ∷ fields) [] p i h = refl
get_elem?-overlay (f ∷ fields) (keep ∷ es) p zero h = refl
get_elem?-overlay (f ∷ fields) (keep ∷ es) p (suc i) h =
    get_elem?-overlay fields es (suc p) i
      (subst (λ k. All (λ j. j ≢ k) (puts (suc p) es)) (omega arith) h)
get_elem?-overlay (f ∷ fields) (put slot ∷ es) p zero (h, _) = absurd (h (omega arith))
get_elem?-overlay (f ∷ fields) (put slot ∷ es) p (suc i) (_, h) =
    get_elem?-overlay fields es (suc p) i
      (subst (λ k. All (λ j. j ≢ k) (puts (suc p) es)) (omega arith) h)

-- A field that the outcome does not list has the value that it had before.
pub field-apply_unchanged :
    (json : JsonPatch) (item after : ItemState) (raw_values : Text) (outcome : UpdateOutcome)
    (i : ℕ)
    → apply json item raw_values ≡ (after, ok outcome)
    → All (λ j. j ≢ i) outcome.changed
    → field after i ≡ field item i
unfolding field
field-apply_unchanged json item after raw_values outcome i h other =
    let a = apply-Applied json item after raw_values outcome h in
    let same = get_elem?-overlay item.fields a.effects 0 i (
      subst (λ k. All (λ j. j ≢ k) (puts 0 a.effects)) (omega arith)
        (subst (All (λ j. j ≢ i)) a.reported other)) in
    ap
      (λ o. elim o as (λ _. Option (Option Text)) [
        | none ↦ none
        | some slot ↦ some (slot_text slot)
      ])
      (ap (λ fs. get_elem? fs i) a.stored ∙ same)
