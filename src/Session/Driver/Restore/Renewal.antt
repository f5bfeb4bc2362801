-- ===== src/Session/Driver/Restore/Renewal.antt =====
-- The entries of a registry when a session begins anew.
use lightstreamer_rs.Base.{
  ℕ, suc, ◌≤◌, ◌≡◌, ◌⊎◌, sym, ap, subst, ◌∙◌, arith, Bool, true, false, none, some, List, [], ◌∷◌,
  ◌==◌, ==_iff, Bool-cases, inl, inr, length, All,
}
use lightstreamer_rs.Session.Registry.{
  RegistryEntry, Entries, get, pending, active, removing, renew, renewed, retained,
  SubscriptionState,
}
use lightstreamer_rs.Session.Driver.Issue.{unbound_keys, is_unbound, with_unbound}
use lightstreamer_rs.Session.Driver.Restore.Requests.{IsValidSpec}

-- In a new session an entry that is not being removed has no number yet.
pub get-renew :
    (es : Entries) (key : ℕ) (entry : RegistryEntry)
    → get es key ≡ some entry
    → is_unbound none entry.state ≡ true
    → get (renew es) key ≡ some (renewed entry)
unfolding get
get-renew [] key entry at wanted = cc
get-renew ((k, e) ∷ es) key entry at wanted = ground (arith, get-renew es key entry)

abbrev pub In : ℕ → List ℕ → Type 0
In key [] = ⊥
In key (k ∷ ks) = (k ≡ key) ⊎ In key ks

pub All-In : (P : ℕ → Type 0) (key : ℕ) (ks : List ℕ) → All P ks → In key ks → P key
All-In P key [] h i = absurd i
All-In P key (k ∷ ks) (h, hs) (inl e) = subst P e h
All-In P key (k ∷ ks) (h, hs) (inr i) = All-In P key ks hs i

In-with : (b : Bool) (k key : ℕ) (ks : List ℕ) → In key ks → In key (with_unbound b k ks)
In-with true k key ks i = inr i
In-with false k key ks i = i

pub In-unbound_keys :
    (es : Entries) (key : ℕ) (entry : RegistryEntry)
    → get es key ≡ some entry
    → is_unbound entry.wire entry.state ≡ true
    → In key (unbound_keys es)
unfolding get unbound_keys
In-unbound_keys [] key entry at wanted = cc
In-unbound_keys ((k, e) ∷ es) key entry at wanted = elim (Bool-cases (k == key)) [
  | inl hit ↦
      let both : some e ≡ some entry = rw hit at at in
      let same : e ≡ entry = cc in
      let here : is_unbound e.wire e.state ≡ true =
        ap (λ v. is_unbound v.wire v.state) same ∙ wanted in
      subst (λ b. In key (with_unbound b k (unbound_keys es))) (sym here)
        (inl ((==_iff k key).0 hit))
  | inr miss ↦
      In-with (is_unbound e.wire e.state) k key (unbound_keys es)
        (In-unbound_keys es key entry (rw miss at at) wanted)
]

pub length-unbound_keys : (es : Entries) → length (unbound_keys es) ≤ length es
unfolding unbound_keys
length-unbound_keys [] = omega arith
length-unbound_keys ((k, e) ∷ es) =
    omega (arith, counted_key (is_unbound e.wire e.state), length-unbound_keys es)
  where
    counted_key :
        (b : Bool) → length (with_unbound b k (unbound_keys es)) ≤ suc (length (unbound_keys es))
    counted_key true = omega arith
    counted_key false = omega arith

length-retained :
    (state : SubscriptionState) (e : ℕ × RegistryEntry) (es : Entries)
    → length (retained state e es) ≤ suc (length es)
length-retained removing e es = omega arith
length-retained pending e es = omega arith
length-retained active e es = omega arith

pub length-renew : (es : Entries) → length (renew es) ≤ length es
length-renew [] = omega arith
length-renew ((k, e) ∷ es) =
    omega (arith, length-retained e.state (k, e) (renew es), length-renew es)

-- The subscriptions of a registry are valid.
abbrev pub AreValid : Entries → Type 0
AreValid = All (λ (e : ℕ × RegistryEntry). IsValidSpec e.1.spec)

AreValid-retained :
    (state : SubscriptionState) (e : ℕ × RegistryEntry) (es : Entries)
    → IsValidSpec e.1.spec
    → AreValid es
    → AreValid (retained state e es)
AreValid-retained removing e es h hs = hs
AreValid-retained pending e es h hs = (h, hs)
AreValid-retained active e es h hs = (h, hs)

pub AreValid-renew : (es : Entries) → AreValid es → AreValid (renew es)
AreValid-renew [] h = tt
AreValid-renew ((k, e) ∷ es) (h, hs) =
    AreValid-retained e.state (k, e) (renew es) h (AreValid-renew es hs)
