-- ===== src/Subscription/Update.antt =====
-- src/subscription/update.rs: the value list of a `U` notification, applied to the fields of an item.
pub mod Fields
pub mod Outcome
pub mod Tokens
pub mod Effects
pub mod Examples
use lightstreamer_rs.Base.{
  ℕ, zero, suc, ◌+◌, ◌-◌, ◌*◌, Bool, true, false, ◌&&◌, Option, none, some, List, [], ◌∷◌, ◌++◌,
  ltb, leb, ◌==◌, if◌then◌else◌, Result, ok, err, ◌>>=◌, ok_or, usize_mod, checked_add, checked_mul,
  length, get_elem?, set, replicate,
}
use lightstreamer_rs.Text.{Text, is_ascii_digit, is_ascii_alphabetic}
use lightstreamer_rs.Protocol.Errors.{
  ProtocolError, field_value, too_many_tokens, no_baseline, bare_caret, run_overflow,
  run_past_schema, run_not_digits, run_out_of_range, unsupported_diff, diff_onto_null,
  diff_onto_unset, base_not_as_sent, bad_marker, too_few_tokens, field_value_error,
}
use lightstreamer_rs.Protocol.Escaping.{into_owned, percent_decode}
use lightstreamer_rs.Protocol.Diff.{
  LexicalForm, as_sent, client_derived, DiffDecoder, JsonPatch, decoder_for,
}

pub data FieldSlot : Type 0 where
  unset : FieldSlot
  null : FieldSlot
  value : Text → LexicalForm → FieldSlot

pub record ItemState : Type 0 where
  pub fields : List FieldSlot

pub record UpdateOutcome : Type 0 where
  pub changed : List ℕ

-- `ItemState::new`.
unfoldable pub new : ℕ → ItemState
new field_count = record { fields = replicate field_count unset }

abbrev pub field_count : ItemState → ℕ
field_count s = length s.fields

abbrev pub slot_text : FieldSlot → Option Text
slot_text unset = none
slot_text null = none
slot_text (value text form) = some text

-- The value of a field: none where the schema has no such field, `some none` where it is null.
unfoldable pub field : ItemState → ℕ → Option (Option Text)
field s index = elim (get_elem? s.fields index) [ none ↦ none | some slot ↦ some (slot_text slot) ]

abbrev pub is_set : FieldSlot → Bool
is_set unset = false
is_set null = true
is_set (value text form) = true

unfoldable pub has_baseline : List FieldSlot → ℕ → Bool
has_baseline fields index = elim (get_elem? fields index) [ none ↦ false | some slot ↦ is_set slot ]

-- `(pointer..end).find(|index| !has_baseline(index))`, over `count` fields.
unfoldable pub find_unset : List FieldSlot → ℕ → ℕ → Option ℕ
unfolding has_baseline
find_unset fields pointer zero = none
find_unset fields pointer (suc count) =
    let rest = find_unset fields (pointer + 1) count in
    if has_baseline fields pointer then rest else some pointer

abbrev pub all_digits : Text → Bool
all_digits [] = true
all_digits (c ∷ text) = is_ascii_digit c && all_digits text

-- `str::parse::<usize>` on a run of digits.
unfoldable pub parse_usize : ℕ → Text → Option ℕ
parse_usize total [] = some total
parse_usize total (c ∷ text) = elim (checked_mul usize_mod total 10) [
  | none ↦ none
  | some tens ↦ elim (checked_add usize_mod tens (c - b'0')) [
    | none ↦ none
    | some total' ↦ parse_usize total' text
  ]
]

unfoldable pub parse_unchanged_run : Text → Result ProtocolError ℕ
unfolding parse_usize
parse_unchanged_run [] = field_value_error run_not_digits
parse_unchanged_run (c ∷ digits) =
    if all_digits (c ∷ digits)
    then ok_or (parse_usize 0 (c ∷ digits)) (field_value run_out_of_range)
    else field_value_error run_not_digits

unfoldable pub diffable_base : DiffDecoder → ℕ → Text → LexicalForm → Result ProtocolError Text
diffable_base decoder index text as_sent = ok text
diffable_base decoder index text client_derived =
    if decoder.needs_base_as_sent then field_value_error (base_not_as_sent index) else ok text

-- The base of a diff onto a field.
unfoldable pub base_of : DiffDecoder → ℕ → Option FieldSlot → Result ProtocolError Text
unfolding diffable_base
base_of decoder pointer (some (value text form)) = diffable_base decoder pointer text form
base_of decoder pointer (some null) = field_value_error (diff_onto_null pointer)
base_of decoder pointer (some unset) = field_value_error (diff_onto_unset pointer)
base_of decoder pointer none = field_value_error (diff_onto_unset pointer)

-- The local variables of `apply`.
pub record Staging : Type 0 where
  pub pointer : ℕ
  pub staged : List (ℕ × FieldSlot)
  pub changed : List ℕ

-- `staged.push(…); changed.push(pointer); pointer += 1`.
abbrev pub stage : Staging → FieldSlot → Staging
stage s slot = record {
  pointer = s.pointer + 1;
  staged = s.staged ++ (s.pointer, slot) ∷ [];
  changed = s.changed ++ s.pointer ∷ [];
}

-- What stands behind a caret: a run of unchanged fields, or a diff.
unfoldable pub apply_run : List FieldSlot → Staging → Text → Result ProtocolError Staging
unfolding parse_unchanged_run find_unset
apply_run fields s digits = do
  count ← parse_unchanged_run digits
  end ← ok_or (checked_add usize_mod s.pointer count) (field_value run_overflow)
  if ltb (length fields) end
      then field_value_error (run_past_schema end (length fields))
      else elim (find_unset fields s.pointer count) [
        | some index ↦ field_value_error (no_baseline index)
        | none ↦ ok (record s { pointer = end })
      ]

unfoldable pub apply_diff :
    JsonPatch → List FieldSlot → Staging → ℕ → Text → Result ProtocolError Staging
unfolding percent_decode decoder_for base_of
apply_diff json fields s marker tail = do
  payload ← percent_decode tail
  decoder ← ok_or (decoder_for json marker) (field_value (unsupported_diff marker))
  base ← base_of decoder s.pointer (get_elem? fields s.pointer)
  text ← decoder.apply base (into_owned payload)
  ok (stage s (value text decoder.result_form))

unfoldable pub apply_caret :
    JsonPatch → List FieldSlot → Staging → Text → Result ProtocolError Staging
unfolding apply_run apply_diff
apply_caret json fields s [] = field_value_error bare_caret
apply_caret json fields s (marker ∷ tail) =
    if is_ascii_digit marker
    then apply_run fields s (marker ∷ tail)
    else if is_ascii_alphabetic marker
    then apply_diff json fields s marker tail
    else field_value_error (bad_marker marker)

unfoldable pub apply_content : Staging → Text → Result ProtocolError Staging
unfolding percent_decode
apply_content s token = do
  decoded ← percent_decode token
  ok (stage s (value (into_owned decoded) as_sent))

abbrev is_nil : Text → Bool
is_nil [] = true
is_nil (c ∷ text) = false

-- A token, once there is a field for it.
unfoldable pub read_token :
    JsonPatch → List FieldSlot → Staging → Text → Result ProtocolError Staging
unfolding has_baseline apply_caret apply_content
read_token json fields s [] =
    if has_baseline fields s.pointer
    then ok (record s { pointer = s.pointer + 1 })
    else field_value_error (no_baseline s.pointer)
read_token json fields s (c ∷ rest) =
    if c == b'#' && is_nil rest
    then ok (stage s null)
    else if c == b'$' && is_nil rest
    then ok (stage s (value [] as_sent))
    else if c == b'^'
    then apply_caret json fields s rest
    else apply_content s (c ∷ rest)

-- One round of the loop of `apply`.
unfoldable pub apply_token :
    JsonPatch → List FieldSlot → Staging → Text → Result ProtocolError Staging
unfolding read_token
apply_token json fields s token =
    if leb (length fields) s.pointer
    then field_value_error (too_many_tokens (length fields))
    else read_token json fields s token

unfoldable pub apply_tokens :
    JsonPatch → List FieldSlot → Staging → List Text → Result ProtocolError Staging
unfolding apply_token
apply_tokens json fields s [] = ok s
apply_tokens json fields s (token ∷ tokens) = do
  s' ← apply_token json fields s token
  apply_tokens json fields s' tokens

-- `str::split('|')`: one token more than there are pipes. `current` is the token so far.
unfoldable pub split_tokens : Text → Text → List Text
split_tokens current [] = current ∷ []
split_tokens current (c ∷ text) = elim (c == b'|') [
  | true ↦ current ∷ split_tokens [] text
  | false ↦ split_tokens (current ++ c ∷ []) text
]

-- The final loop of `apply`.
unfoldable pub commit : List FieldSlot → List (ℕ × FieldSlot) → List FieldSlot
commit fields [] = fields
commit fields ((index, slot) ∷ staged) = commit (set fields index slot) staged

unfoldable pub decode_update : JsonPatch → List FieldSlot → Text → Result ProtocolError Staging
unfolding apply_tokens split_tokens
decode_update json fields raw_values = do
  s ←
      apply_tokens json fields (record { pointer = 0; staged = []; changed = [] })
        (split_tokens [] raw_values)
  if ltb s.pointer (length fields)
      then field_value_error (too_few_tokens s.pointer (length fields))
      else ok s

-- How `apply` ends: nothing is written unless the whole list has been decoded.
abbrev pub settle :
    ItemState → Result ProtocolError Staging → ItemState × Result ProtocolError UpdateOutcome
settle item (err e) = (item, err e)
settle item (ok s) =
    (record { fields = commit item.fields s.staged }, ok (record { changed = s.changed }))

-- `ItemState::apply`: the state that it leaves, and its result.
unfoldable pub apply : JsonPatch → ItemState → Text → ItemState × Result ProtocolError UpdateOutcome
unfolding decode_update commit
apply json item raw_values = settle item (decode_update json item.fields raw_values)
