-- ===== src/Transport/Framing/Examples.antt =====
-- Runs of the line buffer, and the theorems about it at concrete inputs.
use lightstreamer_rs.Base.{◌≡◌, refl, some, [], ◌∷◌, ◌++◌, ok, err, codes, arith, map, List}
use lightstreamer_rs.Text.{Bytes, Text, find_byte}
use lightstreamer_rs.Text.Utf8.{as_bytes, encode_char, from_utf8}
use lightstreamer_rs.Transport.Errors.{malformed_frame}
use lightstreamer_rs.Transport.Framing.{
  LineBuffer, clear, push_bytes, pop_line, flush_partial, discard_partial, split_lines, strip_cr,
}
use lightstreamer_rs.Transport.Framing.Lines.{lines, remainder}
use lightstreamer_rs.Transport.Framing.Pushes.{
  IsScanned, holding, hold, push_bytes-hold, push_bytes-append, push_bytes-IsScanned,
}
use lightstreamer_rs.Transport.Framing.Wire.{pop_all, push_all, pop_all-push_all}

-- A fragment of a line, and the run of bytes that ends it and goes on.
abbrev head : Bytes
head = codes "WSO"

abbrev tail : Bytes
tail = codes "K" ++ 13 ∷ 10 ∷ 10 ∷ codes "PRO"

abbrev waiting : LineBuffer
waiting = holding head []

abbrev both : LineBuffer
both = holding (codes "PRO") (codes "WSOK" ∷ [])

push_run : push_bytes waiting tail ≡ (both, ok tt)
unfolding push_bytes split_lines find_byte strip_cr
push_run = refl

push_bytes-hold_example :
    push_bytes waiting tail ≡ hold (remainder head tail) ([] ++ lines head tail)
push_bytes-hold_example = push_bytes-hold waiting tail (refl, omega arith)

push_bytes-IsScanned_example : IsScanned (push_bytes waiting tail).0
push_bytes-IsScanned_example = push_bytes-IsScanned waiting tail (refl, omega arith)

push_bytes-append_example :
    push_bytes clear (head ++ tail) ≡ push_bytes (push_bytes clear head).0 tail
unfolding push_bytes split_lines find_byte
push_bytes-append_example = push_bytes-append clear head tail (refl, omega arith) refl

pop_run : pop_line both ≡ (holding (codes "PRO") [], some (ok (codes "WSOK")))
unfolding pop_line from_utf8
pop_run = refl

pop_malformed : (pop_line (holding [] ((0xC3 ∷ []) ∷ []))).1 ≡ some (err malformed_frame)
unfolding pop_line from_utf8
pop_malformed = refl

flush_run : flush_partial (holding (codes "END" ++ 13 ∷ []) []) ≡ (clear, some (ok (codes "END")))
unfolding flush_partial from_utf8 strip_cr
flush_run = refl

discard_run : discard_partial both ≡ (holding [] (codes "WSOK" ∷ []), some 3)
unfolding discard_partial
discard_run = refl

abbrev sent : List Text
sent = codes "é" ∷ codes "LOOP" ∷ []

-- The bytes of `sent`, cut inside the character and between CR and LF.
abbrev reads : List Bytes
reads = (0xC3 ∷ []) ∷ (0xA9 ∷ 13 ∷ []) ∷ (10 ∷ codes "LOOP") ∷ (13 ∷ 10 ∷ []) ∷ []

pop_all-push_all_example :
    ((push_all clear reads).1 ≡ ok tt) × (pop_all 3 (push_all clear reads).0 ≡ map ok sent)
unfolding as_bytes encode_char
pop_all-push_all_example = pop_all-push_all sent reads ground arith refl (omega arith)
