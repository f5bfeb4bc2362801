-- ===== src/Subscription/ItemUpdate/Views.antt =====
-- src/subscription/item_update.rs: the views of an update's fields, what changed, and its command.
use lightstreamer_rs.Base.{
  ℕ, zero, suc, ◌+◌, Bool, true, false, Option, none, some, List, [], ◌∷◌, ◌==◌, ◌&&◌, ◌||◌, leb,
  if◌then◌else◌, get_elem?, length, map, codes,
}
use lightstreamer_rs.Text.{Text, same_text}
use lightstreamer_rs.Subscription.ItemUpdate.{
  UpdateKind, snapshot, real_time, FieldValue, null, SchemaName, ItemUpdate, zero_based, as_str,
  value_at, field, field_position,
}

abbrev pub is_null : FieldValue → Bool
is_null null = true
is_null (FieldValue.text t) = false

abbrev pub is_empty_text : FieldValue → Bool
is_empty_text null = false
is_empty_text (FieldValue.text []) = true
is_empty_text (FieldValue.text (c ∷ t)) = false

abbrev pub text_of_value : FieldValue → Option Text
text_of_value null = none
text_of_value (FieldValue.text t) = some t

abbrev pub text_or : FieldValue → Text → Text
text_or null default = default
text_or (FieldValue.text t) default = t

abbrev pub is_snapshot : UpdateKind → Bool
is_snapshot snapshot = true
is_snapshot real_time = false

-- The casing of a command is not specified, so a comparison ignores it: `eq_ignore_ascii_case`.
abbrev pub ascii_lowercase : ℕ → ℕ
ascii_lowercase c = if leb 65 c && leb c 90 then c + 32 else c

unfoldable pub eq_ignore_ascii_case : Text → Text → Bool
eq_ignore_ascii_case s t = same_text (map ascii_lowercase s) (map ascii_lowercase t)

pub data ItemCommand : Type 0 where
  add : ItemCommand
  update : ItemCommand
  delete : ItemCommand
  unrecognized : Text → ItemCommand

abbrev pub from_wire : Text → ItemCommand
from_wire value =
    if eq_ignore_ascii_case value (codes "ADD")
    then add
    else if eq_ignore_ascii_case value (codes "UPDATE")
    then update
    else if eq_ignore_ascii_case value (codes "DELETE")
    then delete
    else unrecognized value

abbrev pub literal : ItemCommand → Text
literal add = codes "ADD"
literal update = codes "UPDATE"
literal delete = codes "DELETE"
literal (unrecognized value) = value

-- `SchemaName::declared_str`.
abbrev pub declared_str : Option SchemaName → Option Text
declared_str none = none
declared_str (some name) = if name.declared then some name.text else none

abbrev pub or_empty : Option Text → Text
or_empty none = []
or_empty (some t) = t

-- The accessors of an update's item.
abbrev pub item_index : ItemUpdate → ℕ
item_index u = u.item + 1

abbrev pub item_name : ItemUpdate → Text
item_name u = or_empty (as_str (get_elem? u.schema.items u.item))

abbrev pub declared_item_name : ItemUpdate → Option Text
declared_item_name u = declared_str (get_elem? u.schema.items u.item)

-- `contains` of a list of positions.
unfoldable pub has_index : List ℕ → ℕ → Bool
has_index [] index = false
has_index (i ∷ is) index = i == index || has_index is index

abbrev pub changed_at : ItemUpdate → Option ℕ → Bool
changed_at u none = false
changed_at u (some index) = has_index u.changed index

-- By a position, which counts from 1.
abbrev pub is_field_changed : ItemUpdate → ℕ → Bool
is_field_changed u position = changed_at u (zero_based position)

abbrev pub changed_if : ItemUpdate → Option ℕ → Bool
changed_if u none = false
changed_if u (some position) = is_field_changed u position

abbrev pub is_field_changed_by_name : ItemUpdate → Text → Bool
is_field_changed_by_name u name = changed_if u (field_position u name)

-- The position of a field of the schema, if it has that field.
abbrev pub one_behind : Option ℕ → Option ℕ
one_behind none = none
one_behind (some index) = some (index + 1)

abbrev pub is_command_changed : ItemUpdate → Bool
is_command_changed u = changed_if u (one_behind u.schema.command_field)

abbrev pub is_key_changed : ItemUpdate → Bool
is_key_changed u = changed_if u (one_behind u.schema.key_field)

abbrev pub both_some : Option ℕ → Option ℕ → Bool
both_some none command = false
both_some (some key) none = false
both_some (some key) (some command) = true

abbrev pub is_command_mode : ItemUpdate → Bool
is_command_mode u = both_some u.schema.key_field u.schema.command_field

abbrev pub field_if : ItemUpdate → Option ℕ → Option FieldValue
field_if u none = none
field_if u (some position) = field u position

abbrev pub key : ItemUpdate → Option FieldValue
key u = field_if u (one_behind u.schema.key_field)

abbrev pub command_in : Option FieldValue → Option ItemCommand
command_in none = none
command_in (some null) = none
command_in (some (FieldValue.text t)) = some (from_wire t)

abbrev pub command : ItemUpdate → Option ItemCommand
command u = command_in (field_if u (one_behind u.schema.command_field))

-- `Field`, a view of one field of an update.
pub record Field : Type 0 where
  pub update : ItemUpdate
  pub index : ℕ

abbrev pub position : Field → ℕ
position f = f.index + 1

abbrev pub name : Field → Text
name f = or_empty (as_str (get_elem? f.update.schema.fields f.index))

abbrev pub declared_name : Field → Option Text
declared_name f = declared_str (get_elem? f.update.schema.fields f.index)

abbrev pub or_null : Option FieldValue → FieldValue
or_null none = null
or_null (some value) = value

abbrev pub value : Field → FieldValue
value f = or_null (value_at f.update.values f.index)

abbrev pub is_changed : Field → Bool
is_changed f = has_index f.update.changed f.index

-- The range of `count` indices from one on.
unfoldable pub range : ℕ → ℕ → List ℕ
range from zero = []
range from (suc count) = from ∷ range (suc from) count

-- What the iterators yield, in order.
unfoldable pub fields : ItemUpdate → List Field
fields u = map (λ i. record { update = u; index = i }) (range 0 (length u.values))

unfoldable pub changed_fields : ItemUpdate → List Field
changed_fields u = map (λ i. record { update = u; index = i }) u.changed

abbrev pub changed_count : ItemUpdate → ℕ
changed_count u = length u.changed
