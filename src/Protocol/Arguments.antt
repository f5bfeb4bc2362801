-- ===== src/Protocol/Arguments.antt =====
-- src/protocol/response.rs: how `parse_line` takes a line apart, and reads single arguments.
use lightstreamer_rs.Base.{
  ℕ, zero, suc, ◌+◌, Bool, true, false, ◌&&◌, Option, none, some, [], ◌∷◌, ◌==◌, if◌then◌else◌,
  Result, ok, err, ok_or, map_ok, u32_mod, usize_mod, codes,
}
use lightstreamer_rs.Text.{Text, same_text, split_once, is_ascii_digit}
use lightstreamer_rs.Text.Numbers.{ℤ, parse_unsigned, parse_signed}
use lightstreamer_rs.Protocol.Errors.{ProtocolError, argument_count, not_numeric}
use lightstreamer_rs.Protocol.Escaping.{percent_decode, into_owned}
use lightstreamer_rs.Protocol.Notifications.{
  MaxFrequency, FilteringMode, Bandwidth, MessageSequence, filtered, unfiltered, unmanaged,
  unspecified, named,
}

-- The line without a last CR-LF, LF or CR.
unfoldable pub strip_terminator : Text → Text
strip_terminator [] = []
strip_terminator (c ∷ []) = if c == b'\n' then [] else if c == b'\r' then [] else c ∷ []
strip_terminator (c ∷ d ∷ []) =
    if c == b'\r' && d == b'\n'
    then []
    else if d == b'\n'
    then c ∷ []
    else if d == b'\r'
    then c ∷ []
    else c ∷ d ∷ []
strip_terminator (c ∷ d ∷ e ∷ t) = c ∷ strip_terminator (d ∷ e ∷ t)

-- So many arguments, one at least.
abbrev pub Arguments : ℕ → Type 0
Arguments zero = Text
Arguments (suc n) = Text × Arguments n

unfoldable pub count_commas : Text → ℕ
count_commas [] = 0
count_commas (c ∷ t) = if c == b',' then suc (count_commas t) else count_commas t

-- The loop of `split_fixed` over `rest.splitn(N, ',')`, at an argument that `n` others follow; the
-- last argument keeps its commas.
unfoldable pub split_arguments :
    Text → (expected index n : ℕ) → Text → Result ProtocolError (Arguments n)
split_arguments tag expected index zero rest = ok rest
split_arguments tag expected index (suc n) rest = elim (split_once b',' rest) [
  | none ↦ err (argument_count tag expected (index + 1))
  | some (argument, rest') ↦
      map_ok (λ arguments. (argument, arguments)) (split_arguments tag expected (index + 1) n rest')
]

-- `split_fixed::<N>` where N is not zero.
unfoldable pub split_fixed : (n : ℕ) → Text → Option Text → Result ProtocolError (Arguments n)
split_fixed n tag none = err (argument_count tag (suc n) 0)
split_fixed n tag (some rest) = split_arguments tag (suc n) 0 n rest

-- `split_fixed::<0>`.
unfoldable pub split_none : Text → Option Text → Result ProtocolError (Unit {0})
split_none tag none = ok tt
split_none tag (some rest) = err (argument_count tag 0 (suc (count_commas rest)))

unfoldable pub decode : Text → Result ProtocolError Text
decode argument = map_ok into_owned (percent_decode argument)

-- `number::<T>`, for the parser of each type.
abbrev pub number : {A : Type 0} → (Text → Option A) → Text → Text → Text → Result ProtocolError A
number parse tag argument value = ok_or (parse value) (not_numeric tag argument value)

abbrev pub u32 : Text → Text → Text → Result ProtocolError ℕ
u32 = number (parse_unsigned u32_mod)

abbrev pub u64 : Text → Text → Text → Result ProtocolError ℕ
u64 = number (parse_unsigned usize_mod)

abbrev pub i64 : Text → Text → Text → Result ProtocolError ℤ
i64 = number parse_signed

unfoldable pub all_digits : Text → Bool
all_digits [] = true
all_digits (c ∷ t) = is_ascii_digit c && all_digits t

-- One digit or more.
abbrev pub is_digits : Text → Bool
is_digits [] = false
is_digits (c ∷ t) = all_digits (c ∷ t)

-- `DecimalNumber::try_new` accepts the text: digits, and behind a dot digits again.
unfoldable pub is_decimal_number : Text → Bool
unfolding all_digits
is_decimal_number text = elim (split_once b'.' text) [
  | none ↦ is_digits text
  | some (integral, fractional) ↦ is_digits integral && is_digits fractional
]

unfoldable pub parse_max_frequency : Text → MaxFrequency
parse_max_frequency argument =
    if same_text argument (codes "unlimited")
    then MaxFrequency.unlimited
    else if is_decimal_number argument
    then MaxFrequency.limited argument
    else MaxFrequency.unrecognized argument

unfoldable pub parse_bandwidth : Text → Bandwidth
parse_bandwidth argument =
    if same_text argument (codes "unlimited")
    then Bandwidth.unlimited
    else if same_text argument (codes "unmanaged")
    then unmanaged
    else if is_decimal_number argument
    then Bandwidth.limited argument
    else Bandwidth.unrecognized argument

unfoldable pub parse_filtering : Text → FilteringMode
parse_filtering argument =
    if same_text argument (codes "filtered")
    then filtered
    else if same_text argument (codes "unfiltered")
    then unfiltered
    else FilteringMode.unrecognized argument

unfoldable pub parse_sequence : Text → MessageSequence
parse_sequence argument = if same_text argument (codes "*") then unspecified else named argument

abbrev pub control_link_of : Text → Option Text
control_link_of link = if same_text link (codes "*") then none else some link
