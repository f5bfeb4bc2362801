-- ===== src/Session/Driver/Links.antt =====
-- The numbers of subscriptions in a session and the entries that hold them.
use lightstreamer_rs.Base.{
  ℕ, zero, suc, ◌<◌, ◌≡◌, ◌⊎◌, refl, sym, ap, subst, ◌∙◌, arith, true, Option, none, some,
  Option-cases, inl, inr,
}
use lightstreamer_rs.Protocol.Diff.{JsonPatch}
use lightstreamer_rs.Protocol.Notifications.{Notification}
use lightstreamer_rs.Session.Registry.Entries.{
  decide-eq, get-remove_same, get-remove_other, get-replace_same, get-replace_other,
}
use lightstreamer_rs.Session.Registry.{Registry, RegistryEntry, get, remove, replace, active}
use lightstreamer_rs.Subscription.Manager.{handle}
use lightstreamer_rs.Session.Driver.{
  SessionDriver, on_data, on_data_skipping, counted, deliver, interpret_for_subscription,
  resolve_subscription, settled, subscription_id, resolve_id,
}

-- Every number stands for an entry that holds it, and is below the next number.
abbrev pub IsLinked : Registry → Type 0
IsLinked r =
    (sub_id key : ℕ)
    → get r.by_sub_id sub_id ≡ some key
    → (entry : RegistryEntry) × (get r.entries key ≡ some entry)
      × (entry.wire ≡ some sub_id)
      × (sub_id < r.next_sub_id)

-- An entry is written in place of one that holds the same number.
pub IsLinked-replace :
    (r : Registry) (key : ℕ) (old new : RegistryEntry)
    → IsLinked r
    → get r.entries key ≡ some old
    → new.wire ≡ old.wire
    → IsLinked (record r { entries = replace r.entries key new })
IsLinked-replace r key old new h e same sub_id j found =
    let (entry, at, holds, below) = h sub_id j found in
    elim (decide-eq j key) [
      | inl q ↦
          let there : some entry ≡ some old = sym at ∙ ap (get r.entries) q ∙ e in
          let is_old : entry ≡ old = cc in
          (
            new,
            ap (get (replace r.entries key new)) q ∙ get-replace_same r.entries key old new e,
            same ∙ sym (ap (λ v. v.wire) is_old) ∙ holds,
            below,
          )
      | inr ne ↦ (entry, get-replace_other r.entries key j new ne ∙ at, holds, below)
    ]

-- An entry leaves together with its number.
pub IsLinked-remove :
    (r : Registry) (sub_id key : ℕ)
    → IsLinked r
    → get r.by_sub_id sub_id ≡ some key
    → IsLinked (record r { entries = remove r.entries key; by_sub_id = remove r.by_sub_id sub_id })
IsLinked-remove r sub_id key h e id j found = elim (decide-eq id sub_id) [
  | inl q ↦
      let gone : get (remove r.by_sub_id sub_id) id ≡ none =
        ap (get (remove r.by_sub_id sub_id)) q ∙ get-remove_same r.by_sub_id sub_id in
      let no : none ≡ some j = sym gone ∙ found in cc
  | inr ne ↦
      let kept : get r.by_sub_id id ≡ some j =
        sym (get-remove_other r.by_sub_id sub_id id ne) ∙ found in
      let (entry, at, holds, below) = h id j kept in
      let (entry', at', holds', below') = h sub_id key e in
      elim (decide-eq j key) [
        | inl q ↦
            let there : some entry ≡ some entry' = sym at ∙ ap (get r.entries) q ∙ at' in
            let same : entry ≡ entry' = cc in
            let wires : some id ≡ some sub_id = sym holds ∙ ap (λ v. v.wire) same ∙ holds' in
            let equal : id ≡ sub_id = cc in absurd (ne equal)
        | inr other ↦ (entry, get-remove_other r.entries key j other ∙ at, holds, below)
      ]
]

pub settled_cases :
    (r : Registry) (sub_id key : ℕ) (entry : RegistryEntry) (n : Notification)
    → (settled r sub_id key entry n ≡ record r {
      entries = replace r.entries key (record entry { state = active; was_active = true });
    })
      ⊎ (settled r sub_id key entry n
          ≡ record r { entries = remove r.entries key; by_sub_id = remove r.by_sub_id sub_id })
      ⊎ (settled r sub_id key entry n ≡ record r { entries = replace r.entries key entry })
settled_cases r sub_id key entry n = ground arith

IsLinked-settled :
    (r : Registry) (sub_id key : ℕ) (old entry : RegistryEntry) (n : Notification)
    → IsLinked r
    → get r.by_sub_id sub_id ≡ some key
    → get r.entries key ≡ some old
    → entry.wire ≡ old.wire
    → IsLinked (settled r sub_id key entry n)
IsLinked-settled r sub_id key old entry n h e at w = elim (settled_cases r sub_id key entry n) [
  | inl q ↦
      subst IsLinked (sym q)
        (IsLinked-replace r key old (record entry { state = active; was_active = true }) h at w)
  | inr (inl q) ↦ subst IsLinked (sym q) (IsLinked-remove r sub_id key h e)
  | inr (inr q) ↦ subst IsLinked (sym q) (IsLinked-replace r key old entry h at w)
]

-- What a notification resolves to is a number of the session and its key.
pub resolve-get :
    (r : Registry) (o : Option ℕ) (sub_id key : ℕ)
    → resolve_id r o ≡ some (sub_id, key)
    → get r.by_sub_id sub_id ≡ some key
resolve-get r none sub_id key h = cc
resolve-get r (some id) sub_id key h = elim (Option-cases (get r.by_sub_id id)) [
  | inl e ↦ (let h' : none ≡ some (sub_id, key) = rw e at h in cc)
  | inr (k, e) ↦
      let h' : some (id, k) ≡ some (sub_id, key) = rw e at h in
      let pair : ◌≡◌ {A = ℕ × ℕ} (id, k) (sub_id, key) = cc in
      ap (get r.by_sub_id) (sym (ap (λ p. p.0) pair)) ∙ e ∙ ap (λ p. some p.1) pair
]

IsLinked-interpret_for_subscription :
    (json : JsonPatch) (r : Registry) (position : ℕ) (n : Notification)
    → IsLinked r
    → IsLinked (interpret_for_subscription json r position n).0
unfolding interpret_for_subscription
IsLinked-interpret_for_subscription json r position n h =
    elim (Option-cases (resolve_subscription r n)) [
      | inl e ↦ rw e h
      | inr ((sub_id, key), e) ↦
          let found : get r.by_sub_id sub_id ≡ some key =
            unfold resolve_subscription in resolve-get r (subscription_id n) sub_id key e in
          elim (Option-cases (get r.entries key)) [
            | inl missing ↦ rw (e, missing) h
            | inr (entry, at) ↦
                rw (e, at)
                  (IsLinked-settled r sub_id key entry
                    (record entry { manager = (handle json entry.manager n).0 }) n h found at refl)
          ]
    ]

pub deliver_cases :
    (json : JsonPatch) (r : Registry) (position : ℕ) (n : Notification)
    → ((deliver json r position n).0 ≡ r)
      ⊎ ((deliver json r position n).0 ≡ (interpret_for_subscription json r position n).0)
unfolding deliver
deliver_cases json r position n = ground arith

IsLinked-deliver :
    (json : JsonPatch) (r : Registry) (position : ℕ) (n : Notification)
    → IsLinked r
    → IsLinked (deliver json r position n).0
IsLinked-deliver json r position n h = elim (deliver_cases json r position n) [
  | inl e ↦ subst IsLinked (sym e) h
  | inr e ↦ subst IsLinked (sym e) (IsLinked-interpret_for_subscription json r position n h)
]

IsLinked-on_data_skipping :
    (json : JsonPatch) (d : SessionDriver) (n : Notification) (skip : ℕ)
    → IsLinked d.registry
    → IsLinked (on_data_skipping json d n skip).0.registry
IsLinked-on_data_skipping json d n zero h =
    IsLinked-deliver json d.registry (counted d.progressive) n h
IsLinked-on_data_skipping json d n (suc remaining) h = h

-- Where every number of the session stands for an entry that holds it, and is below the next one, so
-- it is after every data notification, whatever it says and whether or not it is skipped.
IsLinked-on_data :
    (json : JsonPatch) (d : SessionDriver) (n : Notification)
    → IsLinked d.registry
    → IsLinked (on_data json d n).0.registry
unfolding on_data
IsLinked-on_data json d n h = IsLinked-on_data_skipping json d n d.skip_remaining h
