-- ===== src/Session/Driver/Sound/Tails.antt =====
-- The keys of entries without a number.
use lightstreamer_rs.Base.{
  ℕ, ◌<◌, ◌≡◌, ◌≢◌, refl, sym, ◌∙◌, arith, true, none, some, [], ◌∷◌, All, ==_iff,
}
use lightstreamer_rs.Session.Registry.{Registry, RegistryEntry, Entries, get}
use lightstreamer_rs.Session.Registry.Entries.{Above}
use lightstreamer_rs.Session.Driver.Issue.{unbound_keys, is_unbound}

pub unbound_keys-Above : (k : ℕ) (es : Entries) → Above k es → All (λ j. k < j) (unbound_keys es)
unfolding unbound_keys
unbound_keys-Above k [] h = tt
unbound_keys-Above k ((j, e) ∷ es) (lt, h) = ground (arith, unbound_keys-Above k es h)

get-Above : (k j : ℕ) (es : Entries) → Above k es → get es j ≢ none → k < j
unfolding get
get-Above k j [] h found = absurd (found refl)
get-Above k j ((i, e) ∷ es) (lt, h) found = ground (arith, ==_iff i j, get-Above k j es h)

-- The first entry is found, and the later ones are not hidden by it.
pub get-cons_same : (k : ℕ) (e : RegistryEntry) (es : Entries) → get ((k, e) ∷ es) k ≡ some e
unfolding get
get-cons_same k e es = ground arith

get-cons_other :
    (k j : ℕ) (e : RegistryEntry) (es : Entries) → k < j → get ((k, e) ∷ es) j ≡ get es j
unfolding get
get-cons_other k j e es lt = ground arith

pub unbound_wire :
    (entry : RegistryEntry) → is_unbound entry.wire entry.state ≡ true → entry.wire ≡ none
unbound_wire entry h = ground arith

-- The part of a registry's entries behind a key.
abbrev pub IsTail : Registry → Entries → Type 0
IsTail r es = (j : ℕ) → get es j ≢ none → get r.entries j ≡ get es j

pub IsTail-cons :
    (r : Registry) (k : ℕ) (e : RegistryEntry) (es : Entries)
    → Above k es
    → IsTail r ((k, e) ∷ es)
    → IsTail r es
IsTail-cons r k e es above sub j found =
    let same = get-cons_other k j e es (get-Above k j es above found) in
    sub j (λ gone. found (sym same ∙ gone)) ∙ same
