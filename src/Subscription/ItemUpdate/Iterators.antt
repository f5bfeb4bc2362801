-- ===== src/Subscription/ItemUpdate/Iterators.antt =====
-- What the iterators over the fields of an update yield.
use lightstreamer_rs.Base.{
  ℕ, zero, suc, ◌+◌, ◌<◌, ◌≤◌, ◌≡◌, ◌≢◌, refl, subst, sym, ap, ◌∙◌, arith, Bool, true, false, List,
  [], ◌∷◌, ◌==◌, ◌||◌, ==_iff, Bool-cases, inl, inr, length, map, if◌then◌else◌,
}
use lightstreamer_rs.Subscription.ItemUpdate.{ItemUpdate}
use lightstreamer_rs.Subscription.ItemUpdate.Views.{
  has_index, Field, is_changed, range, fields, changed_fields,
}
use lightstreamer_rs.Subscription.Update.Fields.{AscendsIn}

-- The elements that pass a test.
abbrev pub keep_if {ℓ} : {A : Type ℓ} → (A → Bool) → List A → List A
keep_if p [] = []
keep_if p (x ∷ xs) = let rest = keep_if p xs in if p x then x ∷ rest else rest

-- A position before all of a list is not in it.
has_index-before :
    (from lo hi : ℕ) (is : List ℕ) → from < lo → AscendsIn lo hi is → has_index is from ≡ false
unfolding has_index
has_index-before from lo hi [] lt h = refl
has_index-before from lo hi (i ∷ is) lt (above, below, h) =
    ground (arith, ==_iff i from, has_index-before from (suc i) hi is (omega arith) h)

==_ne : (m n : ℕ) → m < n → (m == n) ≡ false
==_ne m n lt = ground (arith, ==_iff m n)

==_no : (m n : ℕ) → (m == n) ≡ false → m ≢ n
==_no m n miss e = (let hit = (==_iff m n).1 e in cc)

AscendsIn-from : (lo lo' hi : ℕ) (is : List ℕ) → lo ≡ lo' → AscendsIn lo hi is → AscendsIn lo' hi is
AscendsIn-from lo lo' hi is e h = subst (λ n. AscendsIn n hi is) e h

-- Of a range, the positions of a list that ascends in it are that list.
keep_if-range :
    (p : ℕ → Bool) (from count hi : ℕ) (is : List ℕ)
    → hi ≡ from + count
    → ((i : ℕ) → from ≤ i → p i ≡ has_index is i)
    → AscendsIn from hi is
    → keep_if p (range from count) ≡ is
unfolding range has_index
keep_if-range p from zero hi [] e same h = refl
keep_if-range p from zero hi (i ∷ is) e same (above, below, h) = absurd (omega arith)
keep_if-range p from (suc count) hi [] e same h =
    rw (same from (omega arith))
      (keep_if-range p (suc from) count hi [] (omega arith) (λ i le. same i (omega arith)) tt)
keep_if-range p from (suc count) hi (i ∷ is) e same (above, below, h) =
    elim (Bool-cases (i == from)) [
      | inl hit ↦
          let e' : i ≡ from = (==_iff i from).0 hit in
          let here : p from ≡ true =
            same from (omega arith) ∙ ap (λ b. b || has_index is from) hit in
          let later : (k : ℕ) → suc from ≤ k → p k ≡ has_index is k = λ k le.
            same k (omega arith) ∙ ap (λ b. b || has_index is k) (==_ne i k (omega arith)) in
          let rest =
            keep_if-range p (suc from) count hi is (omega arith) later
              (AscendsIn-from (suc i) (suc from) hi is (omega arith) h) in
          rw here (ap (λ l. from ∷ l) rest ∙ ap (λ k. k ∷ is) (sym e'))
      | inr miss ↦
          let ne = ==_no i from miss in
          let here : p from ≡ false =
            same from (omega arith)
            ∙ has_index-before from (suc from) hi (i ∷ is) (omega arith) (omega arith, below, h) in
          rw here (
            keep_if-range p (suc from) count hi (i ∷ is) (omega arith)
              (λ k le. same k (omega arith)) (omega arith, below, h))
    ]

keep_if-map :
    {A B : Type 0} (p : B → Bool) (f : A → B) (xs : List A)
    → keep_if p (map f xs) ≡ map f (keep_if (λ x. p (f x)) xs)
keep_if-map p f [] = refl
keep_if-map p f (x ∷ xs) = elim (Bool-cases (p (f x))) [
  | inl hit ↦ rw hit (ap (λ l. f x ∷ l) (keep_if-map p f xs))
  | inr miss ↦ rw miss (keep_if-map p f xs)
]

-- If the positions that changed ascend within the values of an update, then the iterator over the
-- changed fields yields exactly the fields of the iterator over all fields that report a change, each
-- once and in order.
pub changed_fields-fields :
    (u : ItemUpdate)
    → AscendsIn 0 (length u.values) u.changed
    → changed_fields u ≡ keep_if is_changed (fields u)
unfolding changed_fields fields
changed_fields-fields u h =
    let view : ℕ → Field = λ i. record { update = u; index = i } in
    sym (
      keep_if-map is_changed view (range 0 (length u.values))
      ∙ ap (map view) (
          keep_if-range (has_index u.changed) 0 (length u.values) (length u.values) u.changed
            (omega arith) (λ i le. refl) h))
