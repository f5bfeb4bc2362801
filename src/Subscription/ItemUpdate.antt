-- ===== src/Subscription/ItemUpdate.antt =====
-- src/subscription/item_update.rs: what an application is shown of an update.
pub mod Names
pub mod Views
pub mod Iterators
use lightstreamer_rs.Base.{
  ◌==◌, ◌&&◌, ℕ, zero, suc, ◌+◌, ◌/◌, ◌%◌, Bool, true, false, Option, none, some, List, [], ◌∷◌,
  ◌++◌, get_elem?, ltb, if◌then◌else◌,
}
use lightstreamer_rs.Text.{Text, same_text}
use lightstreamer_rs.Text.Numbers.{decimal}

pub data UpdateKind : Type 0 where
  snapshot : UpdateKind
  real_time : UpdateKind

pub data FieldValue : Type 0 where
  null : FieldValue
  text : Text → FieldValue

pub record SchemaName : Type 0 where
  pub text : Text
  pub declared : Bool

pub record SubscriptionSchema : Type 0 where
  pub items : List SchemaName
  pub fields : List SchemaName
  pub key_field : Option ℕ
  pub command_field : Option ℕ

abbrev pub positional : ℕ → SchemaName
positional position = record { text = decimal position; declared = false }

abbrev pub name_position : List Text → ℕ → SchemaName
name_position declared index = elim (get_elem? declared index) [
  | none ↦ positional (index + 1)
  | some name ↦ record { text = name; declared = true }
]

-- The loop of `name_positions`, `count` positions from an index on.
unfoldable pub name_positions : ℕ → ℕ → List Text → List SchemaName
name_positions index zero declared = []
name_positions index (suc count) declared =
    name_position declared index ∷ name_positions (index + 1) count declared

abbrev pub first : Option (ℕ × ℕ) → Option ℕ
first none = none
first (some (key, command)) = some key

abbrev pub second : Option (ℕ × ℕ) → Option ℕ
second none = none
second (some (key, command)) = some command

-- `SubscriptionSchema::new`.
unfoldable pub new_schema :
    (item_count field_count : ℕ)
    → (declared_items declared_fields : List Text) → Option (ℕ × ℕ)
    → SubscriptionSchema
new_schema item_count field_count declared_items declared_fields command_fields = record {
  items = name_positions 0 item_count declared_items;
  fields = name_positions 0 field_count declared_fields;
  key_field = first command_fields;
  command_field = second command_fields;
}

pub record ItemUpdate : Type 0 where
  pub schema : SubscriptionSchema
  pub item : ℕ
  pub kind : UpdateKind
  pub values : List (Option Text)
  pub changed : List ℕ

-- `position.checked_sub(1)`.
abbrev pub zero_based : ℕ → Option ℕ
zero_based zero = none
zero_based (suc index) = some index

abbrev pub as_str : Option SchemaName → Option Text
as_str none = none
as_str (some name) = some name.text

abbrev pub value_at : List (Option Text) → ℕ → Option FieldValue
value_at [] index = none
value_at (none ∷ values) zero = some null
value_at (some t ∷ values) zero = some (text t)
value_at (value ∷ values) (suc index) = value_at values index

-- The first position from `index` on whose name was declared and is this one, 1-based.
unfoldable pub find_name : List SchemaName → ℕ → Text → Option ℕ
find_name [] index name = none
find_name (field ∷ fields) index name =
    let rest = find_name fields (index + 1) name in
    if field.declared && same_text field.text name then some (index + 1) else rest

-- The accessors of `ItemUpdate`.
abbrev pub field_name : ItemUpdate → ℕ → Option Text
field_name u position = elim (zero_based position) [
  | none ↦ none
  | some index ↦ as_str (get_elem? u.schema.fields index)
]

abbrev pub field : ItemUpdate → ℕ → Option FieldValue
field u position = elim (zero_based position) [ none ↦ none | some index ↦ value_at u.values index ]

abbrev pub field_position : ItemUpdate → Text → Option ℕ
field_position u name = find_name u.schema.fields 0 name

abbrev pub field_by_name : ItemUpdate → Text → Option FieldValue
field_by_name u name = elim (field_position u name) [
  | none ↦ none
  | some position ↦ field u position
]
