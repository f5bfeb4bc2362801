-- ===== src/Protocol/Diff/Apply.antt =====
-- What the instructions of a TLCP-diff do to a base, against a description that consumes the base;
-- and what every applied diff satisfies.
use lightstreamer_rs.Base.{
  ℕ, ◌+◌, ◌<◌, ◌≡◌, refl, sym, ◌∙◌, ap, List, [], ◌∷◌, ◌++◌, arith, ok, err, usize_mod, Result,
  Option, some, none, length, take, drop, append_assoc, append-nil, drop-drop, length-drop, leb,
  if◌then◌else◌,
}
use lightstreamer_rs.Text.{Text}
use lightstreamer_rs.Protocol.Errors.{ProtocolError}
use lightstreamer_rs.Protocol.Diff.{
  DiffInstruction, copy, add, del, apply_instructions, apply_tlcp_instructions,
}

-- The instructions as a function of what is left of the base: none, once a deletion has passed its
-- end. Nothing can be copied from there.
abbrev pub prefixed : Text → Option Text → Option Text
prefixed t none = none
prefixed t (some result) = some (t ++ result)

unfoldable pub patch : Option Text → List DiffInstruction → Option Text
patch base [] = some []
patch none (copy n ∷ is) = none
patch (some base) (copy n ∷ is) =
    let result = patch (some (drop n base)) is in
    if leb n (length base) then prefixed (take n base) result else none
patch base (add text ∷ is) = prefixed text (patch base is)
patch none (del n ∷ is) = patch none is
patch (some base) (del n ∷ is) = patch (if leb n (length base) then some (drop n base) else none) is

-- What is left of the base at a cursor.
left : Text → ℕ → Option Text
left base pos = if leb pos (length base) then some (drop pos base) else none

abbrev pub to_option : Result ProtocolError Text → Option Text
to_option (ok t) = some t
to_option (err e) = none

-- How far the cursor goes.
abbrev pub advance : List DiffInstruction → ℕ
advance [] = 0
advance (copy n ∷ is) = n + advance is
advance (add t ∷ is) = advance is
advance (del n ∷ is) = n + advance is

prefixed_twice : (s t : Text) (o : Option Text) → prefixed s (prefixed t o) ≡ prefixed (s ++ t) o
prefixed_twice s t none = refl
prefixed_twice s t (some r) = ap some (sym (append_assoc s t r))

apply-patch :
    (base : Text) (is : List DiffInstruction) (pos : ℕ) (result : Text)
    → pos + advance is < usize_mod
    → to_option (apply_instructions base pos result is) ≡ prefixed result (patch (left base pos) is)
unfolding apply_instructions patch left
apply-patch base [] pos result h = ap some (sym (append-nil result))
apply-patch base (copy n ∷ is) pos result h = ground (
  arith,
  apply-patch base is (pos + n) (result ++ take n (drop pos base)),
  prefixed_twice result (take n (drop pos base)) (patch (left base (pos + n)) is),
  drop-drop pos n base,
  length-drop pos base,
)
apply-patch base (add t ∷ is) pos result h =
    apply-patch base is pos (result ++ t) h
    ∙ sym (prefixed_twice result t (patch (left base pos) is))
apply-patch base (del n ∷ is) pos result h =
    ground (arith, apply-patch base is (pos + n) result, drop-drop pos n base, length-drop pos base)

-- Applying the instructions with a cursor into the base is consuming the base, as long as the cursor
-- fits a `usize`: the two fail together and give the same text.
pub apply_tlcp_instructions-patch :
    (base : Text) (is : List DiffInstruction)
    → advance is < usize_mod
    → to_option (apply_tlcp_instructions base is) ≡ patch (some base) is
unfolding apply_tlcp_instructions left
apply_tlcp_instructions-patch base is h =
    apply-patch base is 0 [] (omega arith)
    ∙ ap (λ b. prefixed [] (patch b is)) whole
    ∙ prefixed_nil (patch (some base) is)
  where
    whole : left base 0 ≡ some base
    whole = ground arith

    prefixed_nil : (o : Option Text) → prefixed [] o ≡ o
    prefixed_nil none = refl
    prefixed_nil (some r) = refl

pub to_option-eq-some : (r : Result ProtocolError Text) {t : Text} → to_option r ≡ some t → r ≡ ok t
to_option-eq-some (ok t) h = ground arith
to_option-eq-some (err e) h = cc
