-- ===== src/Session/Driver/Sound.antt =====
-- The registry of subscriptions under each change that the driver makes to it.
pub mod Outcomes
pub mod Tails
pub mod Issuing
pub mod Data
pub mod Changes
pub mod Numbers
pub mod Ledger
pub mod Frames
pub mod Kept
pub mod Commands
pub mod Always
use lightstreamer_rs.Base.{
  ℕ, ◌+◌, ◌<◌, ◌≡◌, ◌≢◌, sym, ap, ◌∙◌, arith, none, some, List, [], ◌∷◌, inl, inr,
}
use lightstreamer_rs.Session.Registry.Entries.{
  decide-eq, get-remove_same, get-remove_other, get-replace_same, get-replace_other,
  get-insert_same, get-insert_other, Above, Ascends, Ascends-remove, Ascends-replace,
  Ascends-insert,
}
use lightstreamer_rs.Session.Registry.{
  Registry, RegistryEntry, Entries, get, remove, replace, insert, renew, reset_for_new_session,
}
use lightstreamer_rs.Session.Driver.Links.{IsLinked, IsLinked-replace, IsLinked-remove}

-- An entry that holds a number is found by it.
abbrev pub IsHeld : Registry → Type 0
IsHeld r =
    (key sub_id : ℕ) (entry : RegistryEntry)
    → get r.entries key ≡ some entry
    → entry.wire ≡ some sub_id
    → get r.by_sub_id sub_id ≡ some key

-- Numbers and entries correspond one to one, and the keys of the entries ascend.
pub record IsSound (r : Registry) : Type 0 where
  pub linked : IsLinked r
  pub held : IsHeld r
  pub ordered : Ascends r.entries

some-injective : {A : Type 0} (a b : A) → some a ≡ some b → a ≡ b
some-injective a b h = cc

-- What is found at a key is found once.
found_twice :
    {A : Type 0} (es : List (ℕ × A)) (j key : ℕ) (a b : A)
    → j ≡ key
    → get es j ≡ some a
    → get es key ≡ some b
    → a ≡ b
found_twice es j key a b q at at' = some-injective a b (sym at ∙ ap (get es) q ∙ at')

module _ (r : Registry) (key : ℕ) (old : RegistryEntry) (s : IsSound r)
    (at : get r.entries key ≡ some old) where
  pub IsSound-replace :
      (new : RegistryEntry)
      → new.wire ≡ old.wire
      → IsSound (record r { entries = replace r.entries key new })
  IsSound-replace new same = record {
    linked = IsLinked-replace r key old new s.linked at same;
    held = λ j id e found wire. elim (decide-eq j key) [
      | inl q ↦
          let is_new : e ≡ new =
            found_twice (replace r.entries key new) j key e new q found
              (get-replace_same r.entries key old new at) in
          let back = s.held key id old at (sym same ∙ sym (ap (λ v. v.wire) is_new) ∙ wire) in
          back ∙ ap (λ n. some n) (sym q)
      | inr ne ↦ s.held j id e (sym (get-replace_other r.entries key j new ne) ∙ found) wire
    ];
    ordered = Ascends-replace key new r.entries s.ordered;
  }

  -- An entry leaves with its number.
  pub IsSound-remove :
      (sub_id : ℕ)
      → old.wire ≡ some sub_id
      → IsSound (record r { entries = remove r.entries key; by_sub_id = remove r.by_sub_id sub_id })
  IsSound-remove sub_id wire = record {
    linked = IsLinked-remove r sub_id key s.linked (s.held key sub_id old at wire);
    held = λ j id e found w. elim (decide-eq j key) [
      | inl q ↦
          let gone : none ≡ some e =
            sym (get-remove_same r.entries key) ∙ ap (get (remove r.entries key)) (sym q) ∙ found in
          cc
      | inr ne ↦
          let there = s.held j id e (sym (get-remove_other r.entries key j ne) ∙ found) w in
          let other : id ≢ sub_id = λ q.
            ne (found_twice r.by_sub_id id sub_id j key q there (s.held key sub_id old at wire)) in
          get-remove_other r.by_sub_id sub_id id other ∙ there
    ];
    ordered = Ascends-remove key r.entries s.ordered;
  }

  -- An entry without a number leaves.
  pub IsSound-drop : old.wire ≡ none → IsSound (record r { entries = remove r.entries key })
  IsSound-drop wire = record {
    linked = λ id j found.
        let (e, there, holds, below) = s.linked id j found in
        elim (decide-eq j key) [
          | inl q ↦
              let same : e ≡ old = found_twice r.entries j key e old q there at in
              let no_wire : some id ≡ none = sym holds ∙ ap (λ v. v.wire) same ∙ wire in cc
          | inr ne ↦ (e, get-remove_other r.entries key j ne ∙ there, holds, below)
        ];
    held = λ j id e found w. elim (decide-eq j key) [
      | inl q ↦
          let gone : none ≡ some e =
            sym (get-remove_same r.entries key) ∙ ap (get (remove r.entries key)) (sym q) ∙ found in
          cc
      | inr ne ↦ s.held j id e (sym (get-remove_other r.entries key j ne) ∙ found) w
    ];
    ordered = Ascends-remove key r.entries s.ordered;
  }

  -- An entry gives its number back.
  pub IsSound-release :
      (sub_id : ℕ) (new : RegistryEntry)
      → old.wire ≡ some sub_id
      → new.wire ≡ none
      → IsSound
          (record r { entries = replace r.entries key new; by_sub_id = remove r.by_sub_id sub_id })
  IsSound-release sub_id new wire released = record {
    linked = λ id j found. elim (decide-eq id sub_id) [
      | inl q ↦
          let gone : none ≡ some j =
            sym (get-remove_same r.by_sub_id sub_id)
            ∙ ap (get (remove r.by_sub_id sub_id)) (sym q)
            ∙ found in
          cc
      | inr ne ↦
          let (e, there, holds, below) =
            s.linked id j (sym (get-remove_other r.by_sub_id sub_id id ne) ∙ found) in
          elim (decide-eq j key) [
            | inl q ↦
                let same : e ≡ old = found_twice r.entries j key e old q there at in
                let both : some id ≡ some sub_id = sym holds ∙ ap (λ v. v.wire) same ∙ wire in
                absurd (ne (some-injective id sub_id both))
            | inr other ↦ (e, get-replace_other r.entries key j new other ∙ there, holds, below)
          ]
    ];
    held = λ j id e found w. elim (decide-eq j key) [
      | inl q ↦
          let is_new : e ≡ new =
            found_twice (replace r.entries key new) j key e new q found
              (get-replace_same r.entries key old new at) in
          let no_wire : some id ≡ none = sym w ∙ ap (λ v. v.wire) is_new ∙ released in cc
      | inr ne ↦
          let there = s.held j id e (sym (get-replace_other r.entries key j new ne) ∙ found) w in
          let other : id ≢ sub_id = λ q.
            ne (found_twice r.by_sub_id id sub_id j key q there (s.held key sub_id old at wire)) in
          get-remove_other r.by_sub_id sub_id id other ∙ there
    ];
    ordered = Ascends-replace key new r.entries s.ordered;
  }

  -- An entry without a number takes the next one.
  pub IsSound-bind :
      (next : ℕ) (new : RegistryEntry)
      → old.wire ≡ none
      → new.wire ≡ some r.next_sub_id
      → r.next_sub_id < next
      → IsSound (record {
        entries = replace r.entries key new;
        by_sub_id = insert r.by_sub_id r.next_sub_id key;
        next_sub_id = next;
      })
  IsSound-bind next new wire bound lt = record {
    linked = λ id j found. elim (decide-eq id r.next_sub_id) [
      | inl q ↦
          let is_key : j ≡ key =
            found_twice (insert r.by_sub_id r.next_sub_id key) id r.next_sub_id j key q found
              (get-insert_same r.by_sub_id r.next_sub_id key) in
          (
            new,
            ap (get (replace r.entries key new)) is_key ∙ get-replace_same r.entries key old new at,
            bound ∙ ap (λ n. some n) (sym q),
            omega arith,
          )
      | inr ne ↦
          let (e, there, holds, below) =
            s.linked id j (sym (get-insert_other r.by_sub_id r.next_sub_id id key ne) ∙ found) in
          elim (decide-eq j key) [
            | inl q ↦
                let same : e ≡ old = found_twice r.entries j key e old q there at in
                let no_wire : some id ≡ none = sym holds ∙ ap (λ v. v.wire) same ∙ wire in cc
            | inr other ↦
                (e, get-replace_other r.entries key j new other ∙ there, holds, omega arith)
          ]
    ];
    held = λ j id e found w. elim (decide-eq j key) [
      | inl q ↦
          let is_new : e ≡ new =
            found_twice (replace r.entries key new) j key e new q found
              (get-replace_same r.entries key old new at) in
          let is_next : id ≡ r.next_sub_id =
            some-injective id r.next_sub_id (sym w ∙ ap (λ v. v.wire) is_new ∙ bound) in
          ap (get (insert r.by_sub_id r.next_sub_id key)) is_next
          ∙ get-insert_same r.by_sub_id r.next_sub_id key
          ∙ ap (λ n. some n) (sym q)
      | inr ne ↦
          let there = s.held j id e (sym (get-replace_other r.entries key j new ne) ∙ found) w in
          let (e', at', holds, below) = s.linked id j there in
          get-insert_other r.by_sub_id r.next_sub_id id key (omega arith) ∙ there
    ];
    ordered = Ascends-replace key new r.entries s.ordered;
  }

-- A new entry has no number.
pub IsSound-insert :
    (r : Registry) (key : ℕ) (new : RegistryEntry)
    → IsSound r
    → get r.entries key ≡ none
    → new.wire ≡ none
    → IsSound (record r { entries = insert r.entries key new })
IsSound-insert r key new s absent wire = record {
  linked = λ id j found.
      let (e, there, holds, below) = s.linked id j found in
      elim (decide-eq j key) [
        | inl q ↦ let no : some e ≡ none = sym there ∙ ap (get r.entries) q ∙ absent in cc
        | inr ne ↦ (e, get-insert_other r.entries key j new ne ∙ there, holds, below)
      ];
  held = λ j id e found w. elim (decide-eq j key) [
    | inl q ↦
        let is_new : e ≡ new =
          found_twice (insert r.entries key new) j key e new q found
            (get-insert_same r.entries key new) in
        let no_wire : some id ≡ none = sym w ∙ ap (λ v. v.wire) is_new ∙ wire in cc
    | inr ne ↦ s.held j id e (sym (get-insert_other r.entries key j new ne) ∙ found) w
  ];
  ordered = Ascends-insert key new r.entries s.ordered;
}

Above-renew : (j : ℕ) (es : Entries) → Above j es → Above j (renew es)
Above-renew j [] h = tt
Above-renew j ((k, e) ∷ es) (hk, h) = ground (arith, Above-renew j es h)

Ascends-renew : (es : Entries) → Ascends es → Ascends (renew es)
Ascends-renew [] h = tt
Ascends-renew ((k, e) ∷ es) (hk, h) = ground (arith, Ascends-renew es h, Above-renew k es hk)

-- No entry of a new session holds a number.
renew-wire :
    (es : Entries) (key : ℕ) (entry : RegistryEntry)
    → get (renew es) key ≡ some entry
    → entry.wire ≡ none
unfolding get
renew-wire [] key entry h = cc
renew-wire ((k, e) ∷ es) key entry h = ground (arith, renew-wire es key entry)

pub IsSound-reset : (r : Registry) → IsSound r → IsSound (reset_for_new_session r)
unfolding reset_for_new_session get
IsSound-reset r s = record {
  linked = λ id j found. (let no : none ≡ some j = found in cc);
  held =
      λ j id e found w. let no_wire : some id ≡ none = sym w ∙ renew-wire r.entries j e found in cc;
  ordered = Ascends-renew r.entries s.ordered;
}
