-- ===== src/Transport/Framing.antt =====
-- src/transport/framing.rs: the buffer that cuts a run of bytes into lines.
pub mod Lines
pub mod Pushes
pub mod Wire
pub mod Examples
use lightstreamer_rs.Base.{
  ℕ, zero, suc, ◌+◌, ◌-◌, ◌*◌, Bool, true, false, Option, none, some, List, [], ◌∷◌, ◌++◌, ◌==◌,
  ltb, if◌then◌else◌, Result, ok, err, map_err, length, take, drop,
}
use lightstreamer_rs.Text.{Text, Bytes, find_byte}
use lightstreamer_rs.Text.Utf8.{as_bytes, from_utf8}
use lightstreamer_rs.Transport.Errors.{TransportError, malformed_frame, capacity}

pub record LineBuffer : Type 0 where
  pub partial : Bytes
  pub scanned : ℕ
  pub ready : List Bytes

abbrev pub max_line_bytes : ℕ
max_line_bytes = 8 * 1024 * 1024

-- `raw.strip_suffix(b"\r").unwrap_or(raw)`.
unfoldable pub strip_cr : Bytes → Bytes
strip_cr [] = []
strip_cr (b ∷ []) = if b == b'\r' then [] else b ∷ []
strip_cr (b ∷ c ∷ bs) = b ∷ strip_cr (c ∷ bs)

-- The lines that a terminator completes: none where the line is empty.
abbrev pub nonempty : Bytes → List Bytes
nonempty [] = []
nonempty (b ∷ bs) = (b ∷ bs) ∷ []

-- The loop of `push_bytes`. Each round moves the cursor forward, so that the length of the buffer
-- bounds the rounds.
unfoldable pub split_lines : ℕ → Bytes → (consumed cursor : ℕ) → List Bytes → ℕ × List Bytes
split_lines zero partial consumed cursor ready = (consumed, ready)
split_lines (suc rounds) partial consumed cursor ready =
    elim (find_byte b'\n' (drop cursor partial)) [
      | none ↦ (consumed, ready)
      | some offset ↦
          let end = cursor + offset in
          let raw = take (end - consumed) (drop consumed partial) in
          split_lines rounds partial (end + 1) (end + 1) (ready ++ nonempty (strip_cr raw))
    ]

-- `LineBuffer::default`, and what `LineBuffer::clear` leaves.
abbrev pub clear : LineBuffer
clear = record { partial = []; scanned = 0; ready = [] }

-- What is left to do once the loop is through.
abbrev pub compact : Bytes → ℕ × List Bytes → LineBuffer × Result {0, 0} TransportError Unit
compact partial (consumed, ready) =
    let held = drop consumed partial in
    if ltb max_line_bytes (length held)
    then (clear, err (capacity max_line_bytes (length held)))
    else (record { partial = held; scanned = length held; ready = ready }, ok tt)

unfoldable pub push_bytes : LineBuffer → Bytes → LineBuffer × Result {0, 0} TransportError Unit
push_bytes b bytes =
    let partial = b.partial ++ bytes in
    compact partial (split_lines (suc (length partial)) partial 0 b.scanned b.ready)

abbrev pub push_message : LineBuffer → Text → LineBuffer × Result {0, 0} TransportError Unit
push_message b text = push_bytes b (as_bytes text)

-- `String::from_utf8` with the error of a frame.
abbrev pub decode_line : Bytes → Result TransportError Text
decode_line bytes = map_err (λ _. malformed_frame) (from_utf8 bytes)

unfoldable pub pop_line : LineBuffer → LineBuffer × Option (Result TransportError Text)
pop_line b = elim b.ready [
  | [] ↦ (b, none)
  | bytes ∷ ready ↦
      (record { partial = b.partial; scanned = b.scanned; ready = ready }, some (decode_line bytes))
]

-- `raw`, taken out of the buffer, unless it is empty.
abbrev pub final_line : Bytes → Option (Result TransportError Text)
final_line [] = none
final_line (b ∷ bs) = some (decode_line (b ∷ bs))

unfoldable pub flush_partial : LineBuffer → LineBuffer × Option (Result TransportError Text)
flush_partial b =
    (record { partial = []; scanned = 0; ready = b.ready }, final_line (strip_cr b.partial))

unfoldable pub discard_partial : LineBuffer → LineBuffer × Option ℕ
discard_partial b =
    let held = length b.partial in
    (record { partial = []; scanned = 0; ready = b.ready }, if ltb 0 held then some held else none)
