-- ===== src/Protocol/Diff.antt =====
-- src/protocol/diff.rs: the diff formats of a field value, the registry of the compiled-in ones, and
-- TLCP-diff. JSON Patch is the work of other libraries and a parameter: `json_patch` is none in a
-- build without that feature.
pub mod Replacement
pub mod Values
pub mod Rounds
pub mod Registry
pub mod Apply
pub mod Canonical
pub mod Sections
pub mod Integers
pub mod Examples
use lightstreamer_rs.Base.{
  ℕ, zero, suc, ◌+◌, ◌-◌, ◌*◌, Bool, true, false, Option, none, some, List, [], ◌∷◌, ◌++◌, ltb, leb,
  ◌==◌, if◌then◌else◌, Result, ok, err, ◌>>=◌, ok_or, usize_mod, checked_add, checked_mul,
  checked_sub, length, take, drop,
}
use lightstreamer_rs.Text.{Text, is_ascii_uppercase, is_ascii_lowercase}
use lightstreamer_rs.Protocol.Errors.{
  ProtocolError, field_value, FieldError, astral_base, astral_payload, payload_empty,
  integer_truncated, integer_not_letter, integer_out_of_range, add_overflow, add_past_end,
  copy_overflow, copy_past_end, del_overflow, out_of_rounds, field_value_error,
}

pub data LexicalForm : Type 0 where
  as_sent client_derived : LexicalForm

pub record DiffDecoder : Type 0 where
  pub tag : ℕ
  pub apply : Text → Text → Result ProtocolError Text
  pub needs_base_as_sent : Bool
  pub result_form : LexicalForm

pub data DiffInstruction : Type 0 where
  copy : ℕ → DiffInstruction
  add : Text → DiffInstruction
  del : ℕ → DiffInstruction

-- `char::len_utf16`.
abbrev len_utf16 : ℕ → ℕ
len_utf16 c = if ltb c 0x10000 then 1 else 2

-- The `role` of the message is the constructor of the error.
pub reject_astral : (ℕ → FieldError) → Text → Result ProtocolError (Unit {0})
reject_astral role [] = ok tt
reject_astral role (c ∷ text) =
    if len_utf16 c == 2 then field_value_error (role c) else reject_astral role text

pub alphabet_index : ℕ → ℕ → Result ProtocolError ℕ
alphabet_index letter first =
    ok_or (checked_sub letter first) (field_value (integer_not_letter letter))

-- `accumulator.checked_mul(26)` and then `checked_add`.
pub accumulate : ℕ → ℕ → Result ProtocolError ℕ
accumulate accumulator value = elim (checked_mul usize_mod accumulator 26) [
  | none ↦ field_value_error integer_out_of_range
  | some scaled ↦ ok_or (checked_add usize_mod scaled value) (field_value integer_out_of_range)
]

-- The value of an encoded integer, the position behind it, and what stands there.
abbrev pub Integer : Type 0
Integer = ℕ × ℕ × Text

-- The loop of `decode_encoded_integer`: `rest` is what stands from `position` on.
pub decode_integer : ℕ → ℕ → Text → Result ProtocolError Integer
decode_integer position accumulator [] = field_value_error integer_truncated
decode_integer position accumulator (letter ∷ rest) = elim (is_ascii_uppercase letter) [
  | true ↦ do
    value ← alphabet_index letter b'A'
    accumulator' ← accumulate accumulator (value + 1)
    decode_integer (position + 1) accumulator' rest
  | false ↦ elim (is_ascii_lowercase letter) [
    | true ↦ do
      value ← alphabet_index letter b'a'
      total ← accumulate accumulator value
      ok (total, position + 1, rest)
    | false ↦ field_value_error (integer_not_letter letter)
  ]
]

-- `position..end` of an `ADD`, with the position and the rest behind it.
pub take_literal : ℕ → ℕ → Text → Result ProtocolError (Text × ℕ × Text)
take_literal position count rest = elim (checked_add usize_mod position count) [
  | none ↦ field_value_error add_overflow
  | some end ↦
      if leb count (length rest)
      then ok (take count rest, end, drop count rest)
      else field_value_error (add_past_end position count)
]

-- What a section holds; sections 0, 1 and 2 are COPY, ADD and DEL.
pub read_section : ℕ → Integer → Result ProtocolError (DiffInstruction × ℕ × Text)
read_section zero (count, position, rest) = ok (copy count, position, rest)
read_section (suc zero) (count, position, rest) = do
  (text, end, rest') ← take_literal position count rest
  ok (add text, end, rest')
read_section (suc (suc n)) (count, position, rest) = ok (del count, position, rest)

pub next_section : ℕ → ℕ
next_section section = if leb 2 section then 0 else section + 1

-- The `while` loop of `parse_tlcp_diff`. Each round reads a character at least, so that as many
-- rounds as the payload has characters are enough.
pub parse_sections : ℕ → ℕ → ℕ → Text → Result ProtocolError (List DiffInstruction)
parse_sections rounds section position [] = ok []
parse_sections zero section position (c ∷ rest) = field_value_error out_of_rounds
parse_sections (suc rounds) section position (c ∷ rest) = do
  integer ← decode_integer position 0 (c ∷ rest)
  (instruction, position', rest') ← read_section section integer
  instructions ← parse_sections rounds (next_section section) position' rest'
  ok (instruction ∷ instructions)

unfoldable pub parse_tlcp_diff : Text → Result ProtocolError (List DiffInstruction)
unfolding parse_sections decode_integer alphabet_index accumulate read_section take_literal
    next_section
parse_tlcp_diff [] = field_value_error payload_empty
parse_tlcp_diff (c ∷ payload) = parse_sections (length (c ∷ payload)) 0 0 (c ∷ payload)

pub apply_instructions : Text → ℕ → Text → List DiffInstruction → Result ProtocolError Text
apply_instructions base base_pos result [] = ok result
apply_instructions base base_pos result (copy count ∷ is) = do
  end ← ok_or (checked_add usize_mod base_pos count) (field_value copy_overflow)
  if leb end (length base)
      then apply_instructions base end (result ++ take count (drop base_pos base)) is
      else field_value_error (copy_past_end count base_pos)
apply_instructions base base_pos result (add text ∷ is) =
    apply_instructions base base_pos (result ++ text) is
apply_instructions base base_pos result (del count ∷ is) = do
  end ← ok_or (checked_add usize_mod base_pos count) (field_value del_overflow)
  apply_instructions base end result is

pub apply_tlcp_instructions : Text → List DiffInstruction → Result ProtocolError Text
unfolding apply_instructions
apply_tlcp_instructions base = apply_instructions base 0 []

unfoldable pub apply_tlcp_diff : Text → Text → Result ProtocolError Text
unfolding reject_astral parse_tlcp_diff apply_tlcp_instructions
apply_tlcp_diff base payload = do
  _ ← reject_astral astral_base base
  _ ← reject_astral astral_payload payload
  instructions ← parse_tlcp_diff payload
  apply_tlcp_instructions base instructions

unfoldable pub tlcp_diff_decoder : DiffDecoder
unfolding apply_tlcp_diff
tlcp_diff_decoder = record {
  tag = b'T';
  apply = apply_tlcp_diff;
  needs_base_as_sent = true;
  result_form = as_sent;
}

unfoldable pub json_patch_decoder : (Text → Text → Result ProtocolError Text) → DiffDecoder
json_patch_decoder apply_json_patch = record {
  tag = b'P';
  apply = apply_json_patch;
  needs_base_as_sent = false;
  result_form = client_derived;
}

-- The `json-patch` feature: `apply_json_patch`, where it is compiled in.
abbrev pub JsonPatch : Type 0
JsonPatch = Option (Text → Text → Result ProtocolError Text)

pub diff_decoders : JsonPatch → List DiffDecoder
unfolding tlcp_diff_decoder json_patch_decoder
diff_decoders none = tlcp_diff_decoder ∷ []
diff_decoders (some apply) = tlcp_diff_decoder ∷ json_patch_decoder apply ∷ []

-- The loop of `supported_diffs`.
advertise : Text → List DiffDecoder → Text
advertise value [] = value
advertise [] (d ∷ ds) = advertise (d.tag ∷ []) ds
advertise (c ∷ value) (d ∷ ds) = advertise ((c ∷ value) ++ b',' ∷ d.tag ∷ []) ds

unfoldable pub supported_diffs : JsonPatch → Text
unfolding advertise diff_decoders
supported_diffs json = advertise [] (diff_decoders json)

find_decoder : ℕ → List DiffDecoder → Option DiffDecoder
find_decoder tag [] = none
find_decoder tag (d ∷ ds) = if d.tag == tag then some d else find_decoder tag ds

unfoldable pub decoder_for : JsonPatch → ℕ → Option DiffDecoder
unfolding find_decoder diff_decoders
decoder_for json tag = find_decoder tag (diff_decoders json)
