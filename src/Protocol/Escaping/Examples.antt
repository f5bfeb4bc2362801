-- ===== src/Protocol/Escaping/Examples.antt =====
-- Runs of the percent-encoder and decoder, and its theorems at concrete inputs.
use lightstreamer_rs.Base.{◌≡◌, ◌↔◌, refl, [], ◌∷◌, ok, err, map_ok, All, codes, arith}
use lightstreamer_rs.Text.{Text, Bytes}
use lightstreamer_rs.Text.Utf8.{as_bytes, encode_char, from_utf8}
use lightstreamer_rs.Protocol.Errors.{escaping, truncated, not_utf8}
use lightstreamer_rs.Protocol.Escaping.{
  into_owned, percent_decode, encode_form_value, owned, borrowed,
}
use lightstreamer_rs.Protocol.Escaping.RoundTrip.{
  percent_decode-encode_form_value, IsSafe, encode_form_value-IsSafe,
}
use lightstreamer_rs.Protocol.Escaping.Decode.{Unescapes, percent_decode_iff}
use lightstreamer_rs.Protocol.Escaping.Decode.Faults.{Fault, percent_decode-Fault}

-- "é&a", with a character of two bytes.
abbrev sample : Text
sample = 0xE9 ∷ b'&' ∷ b'a' ∷ []

encoded_sample : encode_form_value sample ≡ owned (codes "%C3%A9%26a")
unfolding encode_form_value as_bytes encode_char
encoded_sample = refl

decoded_pipe : percent_decode (codes "aa%7Cbb") ≡ ok (owned (codes "aa|bb"))
unfolding percent_decode as_bytes encode_char from_utf8
decoded_pipe = refl

nothing_escaped : percent_decode (codes "20:00:33") ≡ ok (borrowed (codes "20:00:33"))
unfolding percent_decode as_bytes encode_char
nothing_escaped = refl

-- A lone continuation byte, behind one decoded byte: the offset is that of the second escape.
not_text : percent_decode (codes "%41%80") ≡ err (escaping 3 not_utf8)
unfolding percent_decode as_bytes encode_char from_utf8
not_text = refl

percent_decode-encode_form_value_example :
    map_ok into_owned (percent_decode (into_owned (encode_form_value sample))) ≡ ok sample
percent_decode-encode_form_value_example = percent_decode-encode_form_value sample (omega arith)

encode_form_value-IsSafe_example : All IsSafe (into_owned (encode_form_value sample))
encode_form_value-IsSafe_example = encode_form_value-IsSafe sample (omega arith)

percent_decode_iff_example :
    (map_ok into_owned (percent_decode (codes "%41")) ≡ ok (codes "A"))
    ↔ ((ds : Bytes) × Unescapes (as_bytes (codes "%41")) ds × (from_utf8 ds ≡ ok (codes "A")))
percent_decode_iff_example = percent_decode_iff (codes "%41") (codes "A") (omega arith)

percent_decode-Fault_example : Fault (codes "a%4") (escaping 1 truncated)
unfolding percent_decode as_bytes encode_char
percent_decode-Fault_example =
    percent_decode-Fault (codes "a%4") (escaping 1 truncated) (omega arith) refl
