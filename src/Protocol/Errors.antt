-- ===== src/Protocol/Errors.antt =====
-- `ProtocolError` of src/protocol/mod.rs. The text of a `FieldValue` error is one constructor of
-- `FieldError` for each message that the code formats.
use lightstreamer_rs.Base.{ℕ, Bool, List, Result, err}

pub data EscapeReason : Type 0 where
  truncated not_hex not_utf8 : EscapeReason

pub data FieldError : Type 0 where
  -- src/protocol/diff.rs
  astral_base : ℕ → FieldError
  astral_payload : ℕ → FieldError
  payload_empty : FieldError
  integer_truncated : FieldError
  integer_not_letter : ℕ → FieldError
  integer_out_of_range : FieldError
  add_overflow : FieldError
  add_past_end : ℕ → ℕ → FieldError
  copy_overflow : FieldError
  copy_past_end : ℕ → ℕ → FieldError
  del_overflow : FieldError
  json_patch_failed : FieldError
  -- src/subscription/update.rs
  too_many_tokens : ℕ → FieldError
  no_baseline : ℕ → FieldError
  bare_caret : FieldError
  run_overflow : FieldError
  run_past_schema : ℕ → ℕ → FieldError
  run_not_digits : FieldError
  run_out_of_range : FieldError
  unsupported_diff : ℕ → FieldError
  diff_onto_null : ℕ → FieldError
  diff_onto_unset : ℕ → FieldError
  base_not_as_sent : ℕ → FieldError
  bad_marker : ℕ → FieldError
  too_few_tokens : ℕ → ℕ → FieldError
  -- No message of the code: a bound on the rounds of a loop of this model was met.
  out_of_rounds : FieldError

-- src/protocol/request.rs: one constructor for each reason of a `Request` error.
pub data RequestReason : Type 0 where
  empty_batch : RequestReason
  empty_request_id : RequestReason
  request_id_not_alphanumeric : List ℕ → RequestReason
  not_decimal : List ℕ → RequestReason
  empty_sequence : RequestReason
  reserved_sequence : RequestReason
  sequence_not_word : List ℕ → RequestReason
  positive_cause_code : ℕ → RequestReason
  multiline_cause_message : RequestReason
  session_required : RequestReason
  snapshot_length_mode : List ℕ → RequestReason
  snapshot_of_raw : RequestReason
  frequency_of_raw : RequestReason
  buffer_size_mode : List ℕ → RequestReason
  buffer_size_unfiltered : RequestReason
  msg_prog_mandatory : (sequence_specified : Bool) → RequestReason
  max_wait_without_sequence : RequestReason

-- Texts are lists of characters.
pub data ProtocolError : Type 0 where
  argument_count : List ℕ → ℕ → ℕ → ProtocolError
  not_numeric : List ℕ → List ℕ → List ℕ → ProtocolError
  unknown_tag : List ℕ → List ℕ → ProtocolError
  request : List ℕ → RequestReason → ProtocolError
  escaping : ℕ → EscapeReason → ProtocolError
  field_value : FieldError → ProtocolError

abbrev pub field_value_error {ℓ} : {A : Type ℓ} → FieldError → Result ProtocolError A
field_value_error e = err (field_value e)
