-- ===== src/Protocol/Escaping/Decode/Offsets.antt =====
-- Where in the input a decoded byte comes from.
use lightstreamer_rs.Base.{
  ℕ, zero, suc, ◌+◌, ◌<◌, ◌≡◌, ◌≢◌, refl, sym, ap, subst, ◌∙◌, arith, true, false, none, some, [],
  ◌∷◌, ◌++◌, append_assoc, append-nil, length, length-append, take, drop, get_elem?, ◌==◌, ==_iff,
  if◌then◌else◌,
}
use lightstreamer_rs.Text.{Text, Bytes}
use lightstreamer_rs.Text.Utf8.{as_bytes}
use lightstreamer_rs.Protocol.Escaping.{offset_loop, input_offset_of_decoded_byte}
use lightstreamer_rs.Protocol.Escaping.Decode.{Unescapes, done, plain, escape}

get_elem?-behind :
    (before rest : Bytes) (b : ℕ) → get_elem? (before ++ b ∷ rest) (length before) ≡ some b
get_elem?-behind [] rest b = refl
get_elem?-behind (c ∷ before) rest b = get_elem?-behind before rest b

get_elem?-end : (before : Bytes) → get_elem? before (length before) ≡ none
get_elem?-end [] = refl
get_elem?-end (c ∷ before) = get_elem?-end before

-- The input is cut in two: what stands before the cut is decoded to so many bytes, and the rest to the
-- others.
pub record Cut (bs ds : Bytes) (count : ℕ) : Type 0 where
  pub before : Bytes
  pub after : Bytes
  pub whole : bs ≡ before ++ after
  pub decoded_before : Unescapes before (take count ds)
  pub decoded_after : Unescapes after (drop count ds)

take-nil : (k : ℕ) → (take {A = ℕ} k [] ≡ []) × (drop {A = ℕ} k [] ≡ [])
take-nil zero = (refl, refl)
take-nil (suc k) = (refl, refl)

-- One round of the loop, at a byte.
offset_loop_round :
    (rounds : ℕ) (seen rest : Bytes) (b target produced : ℕ)
    → produced ≢ target
    → offset_loop (suc rounds) (seen ++ b ∷ rest) target produced (length seen)
      ≡ offset_loop rounds
          (seen ++ b ∷ rest)
          target
          (produced + 1)
          (length seen + (if b == b'%' then 3 else 1))
unfolding offset_loop
offset_loop_round rounds seen rest b target produced ne =
    let miss : (produced == target) ≡ false = ground (arith, ==_iff produced target) in
    rw (offset_loop, get_elem?-behind seen rest b, miss) refl

offset_loop_hit :
    (rounds : ℕ) (seen rest : Bytes) (b produced : ℕ)
    → offset_loop (suc rounds) (seen ++ b ∷ rest) produced produced (length seen) ≡ length seen
unfolding offset_loop
offset_loop_hit rounds seen rest b produced =
    let hit : (produced == produced) ≡ true = (==_iff produced produced).1 refl in
    rw (offset_loop, get_elem?-behind seen rest b, hit) refl

offset_loop_end :
    (rounds : ℕ) (seen : Bytes) (target produced : ℕ)
    → offset_loop (suc rounds) seen target produced (length seen) ≡ length seen
unfolding offset_loop
offset_loop_end rounds seen target produced = rw (offset_loop, get_elem?-end seen) refl

-- The part that a round has read belongs to what has been seen.
next_round :
    (rounds : ℕ) (seen part rest : Bytes) (produced target target' : ℕ)
    → target ≡ target'
    → offset_loop rounds (seen ++ (part ++ rest)) target produced (length seen + length part)
      ≡ offset_loop rounds ((seen ++ part) ++ rest) target' produced (length (seen ++ part))
next_round rounds seen part rest produced target target' e =
    ap (λ n. offset_loop rounds (seen ++ (part ++ rest)) n produced (length seen + length part)) e
    ∙ ap (λ l. offset_loop rounds l target' produced (length seen + length part))
        (sym (append_assoc seen part rest))
    ∙ ap (λ n. offset_loop rounds ((seen ++ part) ++ rest) target' produced n)
        (sym (length-append seen part))

abbrev cut_first : (bs ds : Bytes) → Unescapes bs ds → Cut bs ds 0
cut_first bs ds u = record {
  before = [];
  after = bs;
  whole = refl;
  decoded_before = done;
  decoded_after = u;
}

-- The loop stops where so many bytes have been decoded.
offset_loop-Cut :
    {bs ds : Bytes}
    → Unescapes bs ds
    → (rounds : ℕ) (seen : Bytes) (produced count : ℕ) → length bs < rounds
    → (c : Cut bs ds count) × (offset_loop rounds
          (seen ++ bs)
          (produced + count)
          produced
          (length seen)
        ≡ length seen + length c.before)
offset_loop-Cut u zero seen produced count h = absurd (omega arith)
offset_loop-Cut done (suc rounds) seen produced count h =
    let (taken, dropped) = take-nil count in
    (
      record {
        before = [];
        after = [];
        whole = refl;
        decoded_before = subst (λ l. Unescapes [] l) (sym taken) done;
        decoded_after = subst (λ l. Unescapes [] l) (sym dropped) done;
      },
      ap (λ l. offset_loop (suc rounds) l (produced + count) produced (length seen))
            (append-nil seen)
          ∙ offset_loop_end rounds seen (produced + count) produced
          ∙ omega arith,
    )
offset_loop-Cut (plain {b} {bs} {ds} ne u) (suc rounds) seen produced zero h = (
  cut_first (b ∷ bs) (b ∷ ds) (plain ne u),
  ap (λ n. offset_loop (suc rounds) (seen ++ b ∷ bs) n produced (length seen)) (omega arith)
      ∙ offset_loop_hit rounds seen bs b produced
      ∙ omega arith,
)
offset_loop-Cut (plain {b} {bs} {ds} ne u) (suc rounds) seen produced (suc count) h =
    let (c, stops) = offset_loop-Cut u rounds (seen ++ b ∷ []) (produced + 1) count (omega arith) in
    let not_mark : (b == b'%') ≡ false = ground (arith, ==_iff b b'%') in
    (
      record {
        before = b ∷ c.before;
        after = c.after;
        whole = ap (λ l. b ∷ l) c.whole;
        decoded_before = plain ne c.decoded_before;
        decoded_after = c.decoded_after;
      },
      offset_loop_round rounds seen bs b (produced + suc count) produced (omega arith)
          ∙ ap
              (λ k.
                offset_loop rounds (seen ++ b ∷ bs) (produced + suc count) (produced + 1)
                  (length seen + (if k then 3 else 1)))
              not_mark
          ∙ next_round rounds seen (b ∷ []) bs (produced + 1) (produced + suc count)
              (produced + 1 + count) (omega arith)
          ∙ stops
          ∙ omega (arith, length-append seen (b ∷ [])),
    )
offset_loop-Cut (escape {p} {h = h₁} {l} {x} {y} {d} {bs} {ds} e hx hy q u) (suc rounds) seen
      produced zero h =
    (
      cut_first (p ∷ h₁ ∷ l ∷ bs) (d ∷ ds) (escape e hx hy q u),
      ap (λ n. offset_loop (suc rounds) (seen ++ p ∷ h₁ ∷ l ∷ bs) n produced (length seen))
            (omega arith)
          ∙ offset_loop_hit rounds seen (h₁ ∷ l ∷ bs) p produced
          ∙ omega arith,
    )
offset_loop-Cut (escape {p} {h = h₁} {l} {x} {y} {d} {bs} {ds} e hx hy q u) (suc rounds) seen
      produced (suc count) h =
    let (c, stops) =
      offset_loop-Cut u rounds (seen ++ p ∷ h₁ ∷ l ∷ []) (produced + 1) count (omega arith) in
    let mark : (p == b'%') ≡ true = (==_iff p b'%').1 e in
    (
      record {
        before = p ∷ h₁ ∷ l ∷ c.before;
        after = c.after;
        whole = ap (λ r. p ∷ h₁ ∷ l ∷ r) c.whole;
        decoded_before = escape e hx hy q c.decoded_before;
        decoded_after = c.decoded_after;
      },
      offset_loop_round rounds seen (h₁ ∷ l ∷ bs) p (produced + suc count) produced (omega arith)
          ∙ ap
              (λ k.
                offset_loop rounds (seen ++ p ∷ h₁ ∷ l ∷ bs) (produced + suc count) (produced + 1)
                  (length seen + (if k then 3 else 1)))
              mark
          ∙ next_round rounds seen (p ∷ h₁ ∷ l ∷ []) bs (produced + 1) (produced + suc count)
              (produced + 1 + count) (omega arith)
          ∙ stops
          ∙ omega (arith, length-append seen (p ∷ h₁ ∷ l ∷ [])),
    )

-- The offset that is reported for a decoded byte is where the input is cut before it.
pub input_offset-Cut :
    (t : Text) (ds : Bytes) (count : ℕ)
    → Unescapes (as_bytes t) ds
    → (c : Cut (as_bytes t) ds count) × (input_offset_of_decoded_byte t count ≡ length c.before)
unfolding input_offset_of_decoded_byte
input_offset-Cut t ds count u =
    let (c, stops) = offset_loop-Cut u (suc (length (as_bytes t))) [] 0 count (omega arith) in
    (
      c,
      ap (λ n. offset_loop (suc (length (as_bytes t))) (as_bytes t) n 0 0) (omega arith)
          ∙ stops
          ∙ omega arith,
    )
