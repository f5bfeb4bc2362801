-- ===== src/Transport/Framing/Lines.antt =====
-- The lines of a run of bytes, by recursion on the bytes, and the loop of `push_bytes` against them.
use lightstreamer_rs.Base.{
  ℕ, zero, suc, ◌≡◌, refl, sym, true, false, none, some, List, [], ◌∷◌, ◌++◌, append_assoc,
  append-nil, ◌==◌, arith, take, drop,
}
use lightstreamer_rs.Text.{Bytes, find_byte}
use lightstreamer_rs.Transport.Framing.{strip_cr, nonempty}

-- The complete lines of `held ++ bytes`, where `held` has been searched.
unfoldable pub lines : (held bytes : Bytes) → List Bytes
lines held [] = []
lines held (b ∷ bs) = elim (b == b'\n') [
  | true ↦ nonempty (strip_cr held) ++ lines [] bs
  | false ↦ lines (held ++ b ∷ []) bs
]

-- What follows the last terminator.
unfoldable pub remainder : (held bytes : Bytes) → Bytes
remainder held [] = held
remainder held (b ∷ bs) = elim (b == b'\n') [
  | true ↦ remainder [] bs
  | false ↦ remainder (held ++ b ∷ []) bs
]

pub lines-append :
    (held xs ys : Bytes) → lines held (xs ++ ys) ≡ lines held xs ++ lines (remainder held xs) ys
unfolding lines remainder
lines-append held [] ys = refl
lines-append held (x ∷ xs) ys = ground (
  arith,
  lines-append [] xs ys,
  lines-append (held ++ x ∷ []) xs ys,
  append_assoc (nonempty (strip_cr held)) (lines [] xs) (lines (remainder [] xs) ys),
)

pub remainder-append :
    (held xs ys : Bytes) → remainder held (xs ++ ys) ≡ remainder (remainder held xs) ys
unfolding remainder
remainder-append held [] ys = refl
remainder-append held (x ∷ xs) ys =
    ground (arith, remainder-append [] xs ys, remainder-append (held ++ x ∷ []) xs ys)

pub lines-none : (held bytes : Bytes) → find_byte b'\n' bytes ≡ none → lines held bytes ≡ []
unfolding lines find_byte
lines-none held [] h = refl
lines-none held (b ∷ bs) h = ground (arith, lines-none (held ++ b ∷ []) bs)

pub remainder-none :
    (held bytes : Bytes) → find_byte b'\n' bytes ≡ none → remainder held bytes ≡ held ++ bytes
unfolding remainder find_byte
remainder-none held [] h = sym (append-nil held)
remainder-none held (b ∷ bs) h =
    ground (arith, remainder-none (held ++ b ∷ []) bs, append_assoc held (b ∷ []) bs)

pub lines-some :
    (held bytes : Bytes) (offset : ℕ)
    → find_byte b'\n' bytes ≡ some offset
    → lines held bytes
      ≡ nonempty (strip_cr (held ++ take offset bytes)) ++ lines [] (drop (suc offset) bytes)
unfolding lines find_byte
lines-some held [] offset h = cc
lines-some held (b ∷ bs) zero h = ground (arith, append-nil held)
lines-some held (b ∷ bs) (suc offset) h =
    ground
      (arith, lines-some (held ++ b ∷ []) bs offset, append_assoc held (b ∷ []) (take offset bs))

pub remainder-some :
    (held bytes : Bytes) (offset : ℕ)
    → find_byte b'\n' bytes ≡ some offset
    → remainder held bytes ≡ remainder [] (drop (suc offset) bytes)
unfolding remainder find_byte
remainder-some held [] offset h = cc
remainder-some held (b ∷ bs) zero h = ground arith
remainder-some held (b ∷ bs) (suc offset) h =
    ground (arith, remainder-some (held ++ b ∷ []) bs offset)
