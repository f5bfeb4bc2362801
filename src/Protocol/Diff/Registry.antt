-- ===== src/Protocol/Diff/Registry.antt =====
-- The advertised formats are the formats that can be decoded.
use lightstreamer_rs.Base.{
  ℕ, ◌≡◌, ◌≢◌, ◌↔◌, refl, none, some, Option, Bool, true, false, ◌||◌, [], ◌∷◌, arith, ◌==◌,
}
use lightstreamer_rs.Text.{Text}
use lightstreamer_rs.Protocol.Diff.{DiffDecoder, JsonPatch, supported_diffs, decoder_for}

contains : ℕ → Text → Bool
contains x [] = false
contains x (c ∷ t) = c == x || contains x t

-- A tag is advertised exactly if there is a decoder for it, whether or not JSON Patch is compiled in;
-- and the decoder found is the one of that tag.
decoder_for_iff :
    (json : JsonPatch) (tag : ℕ)
    → tag ≢ b','
    → (contains tag (supported_diffs json) ≡ true)
      ↔ ((d : DiffDecoder) × (decoder_for json tag ≡ some d) × (d.tag ≡ tag))
unfolding contains supported_diffs decoder_for
decoder_for_iff json tag h =
    (found json (decoder_for json tag) refl, λ (d, e, t). advertised json d e)
  where
    found :
        (json : JsonPatch) (o : Option DiffDecoder)
        → decoder_for json tag ≡ o
        → contains tag (supported_diffs json) ≡ true
        → (d : DiffDecoder) × (decoder_for json tag ≡ some d) × (d.tag ≡ tag)
    found none none e c = absurd (ground arith)
    found (some apply) none e c = absurd (ground arith)
    found none (some d) e c = (d, e, ground arith)
    found (some apply) (some d) e c = (d, e, ground arith)

    advertised :
        (json : JsonPatch) (d : DiffDecoder)
        → decoder_for json tag ≡ some d
        → contains tag (supported_diffs json) ≡ true
    advertised none d e = ground arith
    advertised (some apply) d e = ground arith
