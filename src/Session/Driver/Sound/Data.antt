-- ===== src/Session/Driver/Sound/Data.antt =====
-- What notifications of data make of the registry.
use lightstreamer_rs.Base.{
  ℕ, zero, suc, ◌≡◌, refl, sym, ap, subst, ◌∙◌, true, some, inl, inr, Option-cases,
}
use lightstreamer_rs.Protocol.Diff.{JsonPatch}
use lightstreamer_rs.Protocol.Notifications.{Notification}
use lightstreamer_rs.Session.Registry.{Registry, RegistryEntry, get, active}
use lightstreamer_rs.Subscription.Manager.{handle}
use lightstreamer_rs.Session.Driver.{
  SessionDriver, on_data, on_data_skipping, counted, deliver, interpret_for_subscription,
  resolve_subscription, settled, subscription_id,
}
use lightstreamer_rs.Session.Driver.Links.{settled_cases, resolve-get, deliver_cases}
use lightstreamer_rs.Session.Driver.Sound.{IsSound, IsSound-replace, IsSound-remove}

-- The entry that a number stands for holds it.
wire_of_number :
    (r : Registry) (sub_id key : ℕ) (entry : RegistryEntry)
    → IsSound r
    → get r.by_sub_id sub_id ≡ some key
    → get r.entries key ≡ some entry
    → entry.wire ≡ some sub_id
wire_of_number r sub_id key entry s found at =
    let (e, at', holds, below) = s.linked sub_id key found in
    let both : some e ≡ some entry = sym at' ∙ at in
    let same : e ≡ entry = cc in sym (ap (λ v. v.wire) same) ∙ holds

IsSound-settled :
    (r : Registry) (sub_id key : ℕ) (old entry : RegistryEntry) (n : Notification)
    → IsSound r
    → get r.by_sub_id sub_id ≡ some key
    → get r.entries key ≡ some old
    → entry.wire ≡ old.wire
    → IsSound (settled r sub_id key entry n)
IsSound-settled r sub_id key old entry n s found at w = elim (settled_cases r sub_id key entry n) [
  | inl q ↦
      subst IsSound (sym q)
        (IsSound-replace r key old s at (record entry { state = active; was_active = true }) w)
  | inr (inl q) ↦
      subst IsSound (sym q)
        (IsSound-remove r key old s at sub_id (wire_of_number r sub_id key old s found at))
  | inr (inr q) ↦ subst IsSound (sym q) (IsSound-replace r key old s at entry w)
]

IsSound-interpret_for_subscription :
    (json : JsonPatch) (r : Registry) (position : ℕ) (n : Notification)
    → IsSound r
    → IsSound (interpret_for_subscription json r position n).0
unfolding interpret_for_subscription
IsSound-interpret_for_subscription json r position n s =
    elim (Option-cases (resolve_subscription r n)) [
      | inl e ↦ rw e s
      | inr ((sub_id, key), e) ↦
          let found : get r.by_sub_id sub_id ≡ some key =
            unfold resolve_subscription in resolve-get r (subscription_id n) sub_id key e in
          elim (Option-cases (get r.entries key)) [
            | inl missing ↦ rw (e, missing) s
            | inr (entry, at) ↦
                rw (e, at)
                  (IsSound-settled r sub_id key entry
                    (record entry { manager = (handle json entry.manager n).0 }) n s found at refl)
          ]
    ]

IsSound-deliver :
    (json : JsonPatch) (r : Registry) (position : ℕ) (n : Notification)
    → IsSound r
    → IsSound (deliver json r position n).0
IsSound-deliver json r position n s = elim (deliver_cases json r position n) [
  | inl e ↦ subst IsSound (sym e) s
  | inr e ↦ subst IsSound (sym e) (IsSound-interpret_for_subscription json r position n s)
]

IsSound-on_data_skipping :
    (json : JsonPatch) (d : SessionDriver) (n : Notification) (skip : ℕ)
    → IsSound d.registry
    → IsSound (on_data_skipping json d n skip).0.registry
IsSound-on_data_skipping json d n zero s =
    IsSound-deliver json d.registry (counted d.progressive) n s
IsSound-on_data_skipping json d n (suc remaining) s = s

pub IsSound-on_data :
    (json : JsonPatch) (d : SessionDriver) (n : Notification)
    → IsSound d.registry
    → IsSound (on_data json d n).0.registry
unfolding on_data
IsSound-on_data json d n s = IsSound-on_data_skipping json d n d.skip_remaining s
