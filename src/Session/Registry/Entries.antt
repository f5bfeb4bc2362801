-- ===== src/Session/Registry/Entries.antt =====
-- The maps of a registry: what is found in them, and that their keys ascend.
use lightstreamer_rs.Base.{
  ℕ, ◌<◌, ◌≡◌, ◌≢◌, ◌⊎◌, refl, arith, none, some, List, [], ◌∷◌, ◌==◌, ==_iff, Bool-cases, inl, inr,
  All,
}
use lightstreamer_rs.Session.Registry.{get, remove, replace, insert}

pub decide-eq : (m n : ℕ) → (m ≡ n) ⊎ (m ≢ n)
decide-eq m n = elim (Bool-cases (m == n)) [
  | inl e ↦ inl ((==_iff m n).0 e)
  | inr e ↦ inr (λ same. let yes_same = (==_iff m n).1 same in cc)
]

module _ {A : Type 0} where
  pub get-remove_same : (es : List (ℕ × A)) (key : ℕ) → get (remove es key) key ≡ none
  unfolding get remove
  get-remove_same [] key = refl
  get-remove_same ((k, a) ∷ es) key = ground (arith, get-remove_same es key)

  pub get-remove_other :
      (es : List (ℕ × A)) (key j : ℕ) → j ≢ key → get (remove es key) j ≡ get es j
  unfolding get remove
  get-remove_other [] key j ne = refl
  get-remove_other ((k, a) ∷ es) key j ne = ground (arith, get-remove_other es key j ne)

  pub get-replace_same :
      (es : List (ℕ × A)) (key : ℕ) (old new : A)
      → get es key ≡ some old
      → get (replace es key new) key ≡ some new
  unfolding get replace
  get-replace_same [] key old new h = cc
  get-replace_same ((k, a) ∷ es) key old new h = ground (arith, get-replace_same es key old new)

  pub get-replace_other :
      (es : List (ℕ × A)) (key j : ℕ) (new : A) → j ≢ key → get (replace es key new) j ≡ get es j
  unfolding get replace
  get-replace_other [] key j new ne = refl
  get-replace_other ((k, a) ∷ es) key j new ne = ground (arith, get-replace_other es key j new ne)

  pub get-insert_same : (es : List (ℕ × A)) (key : ℕ) (b : A) → get (insert es key b) key ≡ some b
  unfolding get insert
  get-insert_same [] key b = ground arith
  get-insert_same ((k, a) ∷ es) key b = ground (arith, get-insert_same es key b)

  pub get-insert_other :
      (es : List (ℕ × A)) (key j : ℕ) (b : A) → j ≢ key → get (insert es key b) j ≡ get es j
  unfolding get insert
  get-insert_other [] key j b ne = ground arith
  get-insert_other ((k, a) ∷ es) key j b ne = ground (arith, get-insert_other es key j b ne)

  -- The keys ascend.
  abbrev pub Above : ℕ → List (ℕ × A) → Type 0
  Above key = All (λ e. key < e.0)

  abbrev pub Ascends : List (ℕ × A) → Type 0
  Ascends [] = Unit
  Ascends ((k, a) ∷ es) = Above k es × Ascends es

  Above-trans : (j k : ℕ) (es : List (ℕ × A)) → j < k → Above k es → Above j es
  Above-trans j k [] lt h = tt
  Above-trans j k (e ∷ es) lt (he, h) = (omega arith, Above-trans j k es lt h)

  Above-remove : (j key : ℕ) (es : List (ℕ × A)) → Above j es → Above j (remove es key)
  unfolding remove
  Above-remove j key [] h = tt
  Above-remove j key ((k, a) ∷ es) (hk, h) = ground (arith, Above-remove j key es h)

  pub Ascends-remove : (key : ℕ) (es : List (ℕ × A)) → Ascends es → Ascends (remove es key)
  unfolding remove
  Ascends-remove key [] h = tt
  Ascends-remove key ((k, a) ∷ es) (hk, h) =
      ground (arith, Ascends-remove key es h, Above-remove k key es hk)

  Above-replace : (j key : ℕ) (b : A) (es : List (ℕ × A)) → Above j es → Above j (replace es key b)
  unfolding replace
  Above-replace j key b [] h = tt
  Above-replace j key b ((k, a) ∷ es) (hk, h) = ground (arith, Above-replace j key b es h)

  pub Ascends-replace :
      (key : ℕ) (b : A) (es : List (ℕ × A)) → Ascends es → Ascends (replace es key b)
  unfolding replace
  Ascends-replace key b [] h = tt
  Ascends-replace key b ((k, a) ∷ es) (hk, h) =
      ground (arith, Ascends-replace key b es h, Above-replace k key b es hk)

  Above-insert :
      (j key : ℕ) (b : A) (es : List (ℕ × A)) → j < key → Above j es → Above j (insert es key b)
  unfolding insert
  Above-insert j key b [] lt h = (lt, tt)
  Above-insert j key b ((k, a) ∷ es) lt (hk, h) = ground (arith, Above-insert j key b es lt h)

  pub Ascends-insert :
      (key : ℕ) (b : A) (es : List (ℕ × A)) → Ascends es → Ascends (insert es key b)
  unfolding insert
  Ascends-insert key b [] h = (tt, tt)
  Ascends-insert key b ((k, a) ∷ es) (hk, h) = ground (
    arith,
    ==_iff k key,
    Ascends-insert key b es h,
    Above-insert k key b es,
    Above-trans key k es,
  )
