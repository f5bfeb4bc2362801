-- ===== src/Protocol/Diff/Values.antt =====
-- What every value that a TLCP-diff gives satisfies.
use lightstreamer_rs.Base.{
  ℕ, zero, suc, ◌+◌, ◌<◌, ◌≡◌, refl, subst, List, [], ◌∷◌, ◌++◌, arith, ok, >>=-eq-ok, length, take,
  drop, All, All-append,
}
use lightstreamer_rs.Text.{Text}
use lightstreamer_rs.Protocol.Errors.{FieldError, astral_base, astral_payload}
use lightstreamer_rs.Protocol.Diff.{
  DiffInstruction, copy, add, del, reject_astral, apply_instructions, apply_tlcp_instructions,
  apply_tlcp_diff, parse_tlcp_diff,
}
use lightstreamer_rs.Protocol.Diff.Integers.{encode_integer}
use lightstreamer_rs.Protocol.Diff.Sections.{print_section, print_sections}
use lightstreamer_rs.Protocol.Diff.Canonical.{parse_tlcp_diff-Parsed}

-- The steps of an applied diff.
pub apply_tlcp_diff-eq-ok :
    (base payload : Text) {value : Text}
    → apply_tlcp_diff base payload ≡ ok value
    → (is : List DiffInstruction) × (reject_astral astral_base base ≡ ok tt)
      × (reject_astral astral_payload payload ≡ ok tt)
      × (parse_tlcp_diff payload ≡ ok is)
      × (apply_tlcp_instructions base is ≡ ok value)
unfolding apply_tlcp_diff
apply_tlcp_diff-eq-ok base payload h =
    let (_, e, h₁) = >>=-eq-ok (reject_astral astral_base base) _ h in
    let (_, f, h₂) = >>=-eq-ok (reject_astral astral_payload payload) _ h₁ in
    let (is, g, h₃) = >>=-eq-ok (parse_tlcp_diff payload) _ h₂ in (is, e, f, g, h₃)

copy-eq-ok :
    (base : Text) (n : ℕ) (is : List DiffInstruction) (pos : ℕ) (result : Text) {out : Text}
    → apply_instructions base pos result (copy n ∷ is) ≡ ok out
    → apply_instructions base (pos + n) (result ++ take n (drop pos base)) is ≡ ok out
unfolding apply_instructions
copy-eq-ok base n is pos result h = ground arith

del-eq-ok :
    (base : Text) (n : ℕ) (is : List DiffInstruction) (pos : ℕ) (result : Text) {out : Text}
    → apply_instructions base pos result (del n ∷ is) ≡ ok out
    → apply_instructions base (pos + n) result is ≡ ok out
unfolding apply_instructions
del-eq-ok base n is pos result h = ground arith

module _ {ℓ} (P : ℕ → Type ℓ) where
  All-take : (n : ℕ) (t : Text) → All P t → All P (take n t)
  All-take zero t h = tt
  All-take (suc n) [] h = tt
  All-take (suc n) (c ∷ t) (p, h) = (p, All-take n t h)

  All-drop : (n : ℕ) (t : Text) → All P t → All P (drop n t)
  All-drop zero t h = h
  All-drop (suc n) [] h = tt
  All-drop (suc n) (c ∷ t) (p, h) = All-drop n t h

  All-append_left : (s t : Text) → All P (s ++ t) → All P s
  All-append_left [] t h = tt
  All-append_left (c ∷ s) t (p, h) = (p, All-append_left s t h)

  All-append_right : (s t : Text) → All P (s ++ t) → All P t
  All-append_right [] t h = h
  All-append_right (c ∷ s) t (p, h) = All-append_right s t h

  abbrev Literals : List DiffInstruction → Type ℓ
  Literals [] = Unit
  Literals (copy n ∷ is) = Literals is
  Literals (add t ∷ is) = All P t × Literals is
  Literals (del n ∷ is) = Literals is

  Literals-print : (is : List DiffInstruction) → All P (print_sections is) → Literals is
  unfolding print_sections print_section
  Literals-print [] h = tt
  Literals-print (copy n ∷ is) h = Literals-print is (All-append_right _ (print_sections is) h)
  Literals-print (add t ∷ is) h = (
    All-append_right (encode_integer (length t)) t
        (All-append_left (encode_integer (length t) ++ t) (print_sections is) h),
    Literals-print is (All-append_right _ (print_sections is) h),
  )
  Literals-print (del n ∷ is) h = Literals-print is (All-append_right _ (print_sections is) h)

  apply_instructions-All :
      (base : Text) (is : List DiffInstruction) (pos : ℕ) (result out : Text)
      → All P base
      → Literals is
      → All P result
      → apply_instructions base pos result is ≡ ok out
      → All P out
  unfolding apply_instructions
  apply_instructions-All base [] pos result out hb hl hr h = subst (All P) same hr
    where
      same : result ≡ out
      same = ground arith
  apply_instructions-All base (copy n ∷ is) pos result out hb hl hr h =
      apply_instructions-All base is (pos + n) (result ++ take n (drop pos base)) out hb hl
        (All-append P result _ hr (All-take n (drop pos base) (All-drop pos base hb)))
        (copy-eq-ok base n is pos result h)
  apply_instructions-All base (add t ∷ is) pos result out hb (ht, hl) hr h =
      apply_instructions-All base is pos (result ++ t) out hb hl (All-append P result t hr ht) h
  apply_instructions-All base (del n ∷ is) pos result out hb hl hr h =
      apply_instructions-All base is (pos + n) result out hb hl hr
        (del-eq-ok base n is pos result h)

  -- Whatever holds of every character of the base and of the payload holds of the new value.
  pub apply_tlcp_diff-All :
      (base payload : Text) {value : Text}
      → All P base
      → All P payload
      → apply_tlcp_diff base payload ≡ ok value
      → All P value
  unfolding apply_tlcp_instructions
  apply_tlcp_diff-All base payload {value} hb hp h =
      let (is, _, _, e, h₃) = apply_tlcp_diff-eq-ok base payload h in
      let (_, _, printed) = parse_tlcp_diff-Parsed payload is e in
      apply_instructions-All base is 0 [] value hb (Literals-print is (rw printed hp)) tt h₃

-- The values to which a TLCP-diff can be applied: those without a character outside the basic plane.
abbrev pub IsBmp : Text → Type 0
IsBmp = All (λ c. c < 0x10000)

reject_astral-IsBmp : (role : ℕ → FieldError) (t : Text) → reject_astral role t ≡ ok tt → IsBmp t
unfolding reject_astral
reject_astral-IsBmp role [] h = tt
reject_astral-IsBmp role (c ∷ t) h = ground (arith, reject_astral-IsBmp role t)

pub IsBmp-reject_astral :
    (role : ℕ → FieldError) (t : Text) → IsBmp t → reject_astral role t ≡ ok tt
unfolding reject_astral
IsBmp-reject_astral role [] h = refl
IsBmp-reject_astral role (c ∷ t) (p, h) = ground (arith, IsBmp-reject_astral role t h)

-- The value that a TLCP-diff gives passes the precondition of the next one, as the base of it.
pub apply_tlcp_diff-reject_astral :
    (base payload : Text) (value : Text)
    → apply_tlcp_diff base payload ≡ ok value
    → reject_astral astral_base value ≡ ok tt
apply_tlcp_diff-reject_astral base payload value h =
    let (_, e, f, _, _) = apply_tlcp_diff-eq-ok base payload h in
    IsBmp-reject_astral astral_base value (
      apply_tlcp_diff-All (λ c. c < 0x10000) base payload (reject_astral-IsBmp astral_base base e)
        (reject_astral-IsBmp astral_payload payload f) h)
