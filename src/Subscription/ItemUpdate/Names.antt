-- ===== src/Subscription/ItemUpdate/Names.antt =====
-- Positions found by name.
use lightstreamer_rs.Base.{
  ℕ, suc, ◌+◌, ◌≡◌, ap, arith, Bool, true, false, some, [], ◌∷◌, List, ◌&&◌, get_elem?, if-cases,
  inl, inr,
}
use lightstreamer_rs.Text.{Text, same_text, same_text-eq}
use lightstreamer_rs.Subscription.ItemUpdate.{
  SchemaName, ItemUpdate, find_name, as_str, field_position, field_name,
}

and_right : (a b : Bool) → (a && b) ≡ true → b ≡ true
and_right true b h = h
and_right false b h = cc

find_name-get_elem? :
    (fields : List SchemaName) (index : ℕ) (name : Text) (position : ℕ)
    → find_name fields index name ≡ some position
    → (k : ℕ) × (position ≡ index + suc k) × (as_str (get_elem? fields k) ≡ some name)
unfolding find_name
find_name-get_elem? [] index name position h = cc
find_name-get_elem? (f ∷ fields) index name position h =
    elim (if-cases (f.declared && same_text f.text name) (some (index + 1))
      (find_name fields (index + 1) name) h) [
        | inl (e, p) ↦ (
          0,
          ground arith,
          ap some (same_text-eq f.text name (and_right f.declared (same_text f.text name) e)),
        )
        | inr (e, p) ↦
            let (k, q, r) = find_name-get_elem? fields (index + 1) name position p in
            (suc k, omega arith, r)
      ]

-- A position that is found by a name is a position of the update's schema and has that name.
pub field_name-field_position :
    (u : ItemUpdate) (name : Text) (position : ℕ)
    → field_position u name ≡ some position
    → field_name u position ≡ some name
field_name-field_position u name position h =
    let (k, q, r) = find_name-get_elem? u.schema.fields 0 name position h in
    let e : position ≡ suc k = omega arith in rw e r
