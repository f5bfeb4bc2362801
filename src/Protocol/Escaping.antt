-- ===== src/Protocol/Escaping.antt =====
-- src/protocol/escaping.rs: percent-decoding of what the server sends, and percent-encoding of
-- request values.
pub mod Examples
pub mod Loop
pub mod RoundTrip
pub mod Decode
use Prim.Native.Nat.{bit_or}
use lightstreamer_rs.Base.{
  ℕ, zero, suc, ◌+◌, ◌-◌, ◌*◌, ◌/◌, ◌%◌, Bool, true, false, ◌&&◌, ◌||◌, Option, none, some, [], ◌∷◌,
  ◌++◌, leb, ◌==◌, if◌then◌else◌, Result, ok, err, ◌>>=◌, map_err, length, get_elem?, take, drop,
}
use lightstreamer_rs.Text.{Text, Bytes, is_ascii_alphanumeric, find_byte}
use lightstreamer_rs.Text.Utf8.{as_bytes, from_utf8}
use lightstreamer_rs.Protocol.Errors.{ProtocolError, escaping, truncated, not_hex, not_utf8}

-- `Cow<'_, str>`.
pub data Cow : Type 0 where
  borrowed : Text → Cow
  owned : Text → Cow

abbrev pub into_owned : Cow → Text
into_owned (borrowed t) = t
into_owned (owned t) = t

unfoldable pub is_unreserved : ℕ → Bool
is_unreserved b = is_ascii_alphanumeric b || (b == b'-' || (b == b'.' || (b == b'_' || b == b'~')))

pub hex_value : ℕ → Option ℕ
hex_value b =
    if leb b'0' b && leb b b'9'
    then some (b - b'0')
    else if leb b'a' b && leb b b'f'
    then some (b - b'a' + 10)
    else if leb b'A' b && leb b b'F'
    then some (b - b'A' + 10)
    else none

pub hex_digit : ℕ → ℕ
hex_digit nibble =
    if leb nibble 9 then b'0' + nibble else if leb nibble 15 then b'A' + nibble - 10 else b'0'

-- `(high << 4) | low` in a `u8`.
pub joined : ℕ → ℕ → ℕ
joined high low = bit_or (high * 16 % 256) low

-- One escape: the two characters behind a `%` at `index`.
pub escaped_byte : ℕ → ℕ → ℕ → Result ProtocolError ℕ
escaped_byte index h l = elim (hex_value h) [
  | none ↦ err (escaping index not_hex)
  | some high ↦ elim (hex_value l) [
    | none ↦ err (escaping index not_hex)
    | some low ↦ ok (joined high low)
  ]
]

-- The `while` loop of `percent_decode`: `rest` is what stands from `index` on.
pub unescape : ℕ → Bytes → Bytes → Result ProtocolError Bytes
unescape index decoded [] = ok decoded
unescape index decoded (b ∷ []) =
    if b == b'%' then err (escaping index truncated) else ok (decoded ++ b ∷ [])
unescape index decoded (b ∷ h ∷ []) = elim (b == b'%') [
  | true ↦ err (escaping index truncated)
  | false ↦ unescape (index + 1) (decoded ++ b ∷ []) (h ∷ [])
]
unescape index decoded (b ∷ h ∷ l ∷ rest) = elim (b == b'%') [
  | true ↦ do byte ← escaped_byte index h l; unescape (index + 3) (decoded ++ byte ∷ []) rest
  | false ↦ unescape (index + 1) (decoded ++ b ∷ []) (h ∷ l ∷ rest)
]

-- The loop of `input_offset_of_decoded_byte`; `index` grows in each round, so that as many rounds as
-- there are bytes are enough.
offset_loop : ℕ → Bytes → ℕ → ℕ → ℕ → ℕ
offset_loop zero bytes target produced index = length bytes
offset_loop (suc rounds) bytes target produced index = elim (get_elem? bytes index) [
  | none ↦ length bytes
  | some b ↦ elim (produced == target) [
    | true ↦ index
    | false ↦ offset_loop rounds bytes target (produced + 1) (index + (if b == b'%' then 3 else 1))
  ]
]

pub input_offset_of_decoded_byte : Text → ℕ → ℕ
unfolding offset_loop
input_offset_of_decoded_byte input target =
    offset_loop (suc (length (as_bytes input))) (as_bytes input) target 0 0

unfoldable pub percent_decode : Text → Result ProtocolError Cow
unfolding unescape escaped_byte hex_value joined find_byte input_offset_of_decoded_byte
percent_decode input = elim (find_byte b'%' (as_bytes input)) [
  | none ↦ ok (borrowed input)
  | some first ↦ do
    decoded ← unescape first (take first (as_bytes input)) (drop first (as_bytes input))
    text ←
        map_err (λ v. escaping (input_offset_of_decoded_byte input v) not_utf8) (from_utf8 decoded)
    ok (owned text)
]

pub all_unreserved : Bytes → Bool
unfolding is_unreserved
all_unreserved [] = true
all_unreserved (b ∷ bs) = is_unreserved b && all_unreserved bs

-- What one byte becomes.
pub encode_byte : ℕ → Bytes
unfolding is_unreserved hex_digit
encode_byte b =
    if is_unreserved b then b ∷ [] else b'%' ∷ hex_digit (b / 16) ∷ hex_digit (b % 16) ∷ []

pub encode_bytes : Bytes → Bytes → Text
unfolding encode_byte
encode_bytes encoded [] = encoded
encode_bytes encoded (b ∷ bs) = encode_bytes (encoded ++ encode_byte b) bs

unfoldable pub encode_form_value : Text → Cow
unfolding all_unreserved encode_bytes
encode_form_value input =
    if all_unreserved (as_bytes input)
    then borrowed input
    else owned (encode_bytes [] (as_bytes input))
