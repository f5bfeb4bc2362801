-- ===== src/Session/Driver/Sound/Issuing.antt =====
-- Asking for subscriptions keeps the registry sound.
use lightstreamer_rs.Base.{
  ℕ, suc, ◌<◌, ◌≡◌, ◌≢◌, refl, sym, ap, subst, ◌∙◌, arith, Bool, true, false, none, some, List, [],
  ◌∷◌, inl, inr, All, Option-cases,
}
use lightstreamer_rs.Session.Registry.{Registry, RegistryEntry, Entries, get, pending}
use lightstreamer_rs.Session.Registry.Entries.{get-replace_same, get-replace_other, Ascends}
use lightstreamer_rs.Session.Driver.{SessionDriver}
use lightstreamer_rs.Session.Driver.Dispatch.{Turn}
use lightstreamer_rs.Session.Driver.Issue.{
  bind_entry, release_entry, issue_subscription, unbound_keys, issue_all,
  issue_unbound_subscriptions, is_unbound, with_unbound,
}
use lightstreamer_rs.Session.Driver.Sound.{IsSound, IsSound-bind, IsSound-release}
use lightstreamer_rs.Session.Driver.Sound.Outcomes.{Outcome, issue_subscription-Outcome}
use lightstreamer_rs.Session.Driver.Sound.Tails.{
  unbound_keys-Above, get-cons_same, unbound_wire, IsTail, IsTail-cons,
}

-- The key has no entry that holds a number.
abbrev pub IsUnissued : Registry → ℕ → Type 0
IsUnissued r key = (entry : RegistryEntry) → get r.entries key ≡ some entry → entry.wire ≡ none

IsSound-spent : (r : Registry) → IsSound r → IsSound (record r { next_sub_id = suc r.next_sub_id })
IsSound-spent r s = record {
  linked = λ id j found.
      let (e, there, holds, below) = s.linked id j found in (e, there, holds, omega arith);
  held = s.held;
  ordered = s.ordered;
}

release_bound :
    (r : Registry) (key sub_id : ℕ) (entry : RegistryEntry)
    → get r.entries key ≡ some entry
    → IsSound (bind_entry r key sub_id entry)
    → IsSound (release_entry (bind_entry r key sub_id entry) key sub_id)
release_bound r key sub_id entry at s =
    let b = bind_entry r key sub_id entry in
    let new : RegistryEntry = record entry { wire = some sub_id; state = pending } in
    let found = get-replace_same r.entries key entry new at in
    rw found (IsSound-release b key new s found sub_id (record new { wire = none }) refl refl)

IsSound-Outcome :
    (r r' : Registry) (key : ℕ) → IsSound r → IsUnissued r key → Outcome r key r' → IsSound r'
IsSound-Outcome r r' key s unissued (inl e) = subst IsSound (sym e) s
IsSound-Outcome r r' key s unissued (inr (inl e)) = subst IsSound (sym e) (IsSound-spent r s)
IsSound-Outcome r r' key s unissued (inr (inr (entry, at, which))) =
    let new : RegistryEntry = record entry { wire = some r.next_sub_id; state = pending } in
    let bound =
      IsSound-bind r key entry s at (suc r.next_sub_id) new (unissued entry at) refl
        (omega arith) in
    elim which [
      | inl e ↦ subst IsSound (sym e) bound
      | inr e ↦ subst IsSound (sym e) (
          release_bound (record r { next_sub_id = suc r.next_sub_id }) key r.next_sub_id entry at
            bound)
    ]

pub IsSound-issue_subscription :
    (t : Turn) (key : ℕ) (d : SessionDriver)
    → IsSound d.registry
    → IsUnissued d.registry key
    → IsSound (issue_subscription t key d).0.registry
IsSound-issue_subscription t key d s unissued =
    IsSound-Outcome d.registry (issue_subscription t key d).0.registry key s unissued
      (issue_subscription-Outcome t key d)

with_entry-other :
    (r : Registry) (key sub_id j : ℕ)
    → j ≢ key
    → get (release_entry r key sub_id).entries j ≡ get r.entries j
with_entry-other r key sub_id j ne = elim (Option-cases (get r.entries key)) [
  | inl e ↦ rw e refl
  | inr (entry, e) ↦ rw e (get-replace_other r.entries key j (record entry { wire = none }) ne)
]

-- The other entries stay.
Outcome-other :
    (r r' : Registry) (key j : ℕ) → j ≢ key → Outcome r key r' → get r'.entries j ≡ get r.entries j
Outcome-other r r' key j ne (inl e) = ap (λ v. get v.entries j) e
Outcome-other r r' key j ne (inr (inl e)) = ap (λ v. get v.entries j) e
Outcome-other r r' key j ne (inr (inr (entry, at, which))) =
    let new : RegistryEntry = record entry { wire = some r.next_sub_id; state = pending } in
    let spent : Registry = record r { next_sub_id = suc r.next_sub_id } in
    let bound = get-replace_other r.entries key j new ne in
    elim which [
      | inl e ↦ ap (λ v. get v.entries j) e ∙ bound
      | inr e ↦
          ap (λ v. get v.entries j) e
          ∙ with_entry-other (bind_entry spent key r.next_sub_id entry) key r.next_sub_id j ne
          ∙ bound
    ]

-- Keys in ascending order, none of which has a number.
abbrev pub Queued : Registry → List ℕ → Type 0
Queued r [] = Unit
Queued r (key ∷ keys) = IsUnissued r key × All (λ j. key < j) keys × Queued r keys

Queued-other :
    (r r' : Registry) (key : ℕ) (keys : List ℕ)
    → Outcome r key r'
    → All (λ j. key < j) keys
    → Queued r keys
    → Queued r' keys
Queued-other r r' key [] o above q = tt
Queued-other r r' key (j ∷ keys) o (lt, above) (unissued, rest, q) =
    let ne : j ≢ key = omega arith in
    (
      λ entry at. unissued entry (sym (Outcome-other r r' key j ne o) ∙ at),
      rest,
      Queued-other r r' key keys o above q,
    )

IsSound-issue_all :
    (t : Turn) (keys : List ℕ) (d : SessionDriver)
    → IsSound d.registry
    → Queued d.registry keys
    → IsSound (issue_all t keys d).0.registry
unfolding issue_all
IsSound-issue_all t [] d s q = s
IsSound-issue_all t (key ∷ keys) d s (unissued, above, q) =
    let d' = (issue_subscription t key d).0 in
    IsSound-issue_all t keys d' (IsSound-issue_subscription t key d s unissued)
      (Queued-other d.registry d'.registry key keys (issue_subscription-Outcome t key d) above q)

Queued-with :
    (r : Registry) (b : Bool) (key : ℕ) (keys : List ℕ)
    → (b ≡ true → IsUnissued r key)
    → All (λ j. key < j) keys
    → Queued r keys
    → Queued r (with_unbound b key keys)
Queued-with r true key keys unissued above q = (unissued refl, above, q)
Queued-with r false key keys unissued above q = q

Queued-unbound_keys :
    (r : Registry) (es : Entries) → Ascends es → IsTail r es → Queued r (unbound_keys es)
unfolding unbound_keys
Queued-unbound_keys r [] h sub = tt
Queued-unbound_keys r ((k, e) ∷ es) (above, h) sub =
    let here = get-cons_same k e es in
    let at = sub k (λ gone. (let no : some e ≡ none = sym here ∙ gone in cc)) ∙ here in
    Queued-with r (is_unbound e.wire e.state) k (unbound_keys es)
      (λ unbound entry found.
        let same : some entry ≡ some e = sym found ∙ at in
        let is_e : entry ≡ e = cc in ap (λ v. v.wire) is_e ∙ unbound_wire e unbound)
      (unbound_keys-Above k es above) (Queued-unbound_keys r es h (IsTail-cons r k e es above sub))

pub IsSound-issue_unbound :
    (t : Turn) (d : SessionDriver)
    → IsSound d.registry
    → IsSound (issue_unbound_subscriptions t d).0.registry
unfolding issue_unbound_subscriptions
IsSound-issue_unbound t d s =
    IsSound-issue_all t (unbound_keys d.registry.entries) d s
      (Queued-unbound_keys d.registry d.registry.entries s.ordered (λ j found. refl))
