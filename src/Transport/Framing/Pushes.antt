-- ===== src/Transport/Framing/Pushes.antt =====
-- What a push does to the buffer, told by the lines of the bytes.
use lightstreamer_rs.Base.{
  ℕ, zero, suc, ◌+◌, ◌-◌, ◌≤◌, ◌<◌, ◌≡◌, inl, inr, refl, sym, ap, ◌∙◌, none, some, List, [], ◌∷◌,
  ◌++◌, append_assoc, append-nil, arith, length, take, drop, length-drop, take-append-drop,
  take-append, drop-append, drop-drop, Option-cases, Result, ok, err, ltb, if◌then◌else◌,
}
use lightstreamer_rs.Text.{Bytes, find_byte}
use lightstreamer_rs.Transport.Errors.{TransportError, capacity}
use lightstreamer_rs.Transport.Framing.{
  LineBuffer, strip_cr, nonempty, split_lines, compact, push_bytes, clear, max_line_bytes,
}
use lightstreamer_rs.Transport.Framing.Lines.{
  lines, remainder, lines-none, lines-some, remainder-none, remainder-some, lines-append,
  remainder-append,
}

take-nil : (n : ℕ) → take {A = ℕ} n [] ≡ []
take-nil zero = refl
take-nil (suc n) = refl

take-add : (m n : ℕ) (xs : Bytes) → take (m + n) xs ≡ take m xs ++ take n (drop m xs)
take-add zero n xs = let e : zero + n ≡ n = omega arith in ap (λ k. take k xs) e
take-add (suc m) n [] =
    let e : suc m + n ≡ suc (m + n) = omega arith in ap (λ k. take k []) e ∙ sym (take-nil n)
take-add (suc m) n (x ∷ xs) =
    let e : suc m + n ≡ suc (m + n) = omega arith in
    ap (λ k. take k (x ∷ xs)) e ∙ ap (λ l. x ∷ l) (take-add m n xs)

find_byte-lt :
    (x : ℕ) (bytes : Bytes) (offset : ℕ) → find_byte x bytes ≡ some offset → offset < length bytes
unfolding find_byte
find_byte-lt x [] offset h = cc
find_byte-lt x (b ∷ bs) zero h = omega arith
find_byte-lt x (b ∷ bs) (suc offset) h = ground (arith, find_byte-lt x bs offset)

-- What the loop has searched of the line it is in.
abbrev searched : Bytes → ℕ → ℕ → Bytes
searched partial consumed cursor = take (cursor - consumed) (drop consumed partial)

raw_line :
    (partial : Bytes) (consumed cursor offset : ℕ)
    → consumed ≤ cursor
    → take (cursor + offset - consumed) (drop consumed partial)
      ≡ searched partial consumed cursor ++ take offset (drop cursor partial)
raw_line partial consumed cursor offset le =
    let e : cursor + offset - consumed ≡ (cursor - consumed) + offset = omega arith in
    let f : consumed + (cursor - consumed) ≡ cursor = omega arith in
    rw (
      e,
      take-add (cursor - consumed) offset (drop consumed partial),
      drop-drop consumed (cursor - consumed) partial,
      f,
    )

split_lines-none :
    (rounds : ℕ) (partial : Bytes) (consumed cursor : ℕ) (ready : List Bytes)
    → find_byte b'\n' (drop cursor partial) ≡ none
    → split_lines (suc rounds) partial consumed cursor ready ≡ (consumed, ready)
unfolding split_lines
split_lines-none rounds partial consumed cursor ready e = rw (split_lines, e)

split_lines-some :
    (rounds : ℕ) (partial : Bytes) (consumed cursor : ℕ) (ready : List Bytes) (offset : ℕ)
    → find_byte b'\n' (drop cursor partial) ≡ some offset
    → let end = cursor + offset + 1 in
      let raw = take (cursor + offset - consumed) (drop consumed partial) in
      split_lines (suc rounds) partial consumed cursor ready
      ≡ split_lines rounds partial end end (ready ++ nonempty (strip_cr raw))
unfolding split_lines
split_lines-some rounds partial consumed cursor ready offset e = rw (split_lines, e)

searched-end : (partial : Bytes) (n : ℕ) → searched partial n n ≡ []
searched-end partial n = let e : n - n ≡ 0 = omega arith in ap (λ k. take k (drop n partial)) e

searched-append-todo :
    (partial : Bytes) (consumed cursor : ℕ)
    → consumed ≤ cursor
    → searched partial consumed cursor ++ drop cursor partial ≡ drop consumed partial
searched-append-todo partial consumed cursor le =
    let f : consumed + (cursor - consumed) ≡ cursor = omega arith in
    let g = drop-drop consumed (cursor - consumed) partial in
    let t = take-append-drop (cursor - consumed) (drop consumed partial) in cc

-- The loop finds the lines of what it has not searched, and stops at what follows them.
split_lines_lem :
    (rounds : ℕ) (partial : Bytes) (consumed cursor : ℕ) (ready : List Bytes)
    → consumed ≤ cursor
    → length (drop cursor partial) < rounds
    → let held = searched partial consumed cursor in
      let out = split_lines rounds partial consumed cursor ready in
      (out.1 ≡ ready ++ lines held (drop cursor partial))
      × (drop out.0 partial ≡ remainder held (drop cursor partial))
split_lines_lem zero partial consumed cursor ready le lt = absurd (omega arith)
split_lines_lem (suc rounds) partial consumed cursor ready le lt =
    let held = searched partial consumed cursor in
    let todo = drop cursor partial in
    elim (Option-cases (find_byte b'\n' todo)) [
      | inl e ↦
          let s = split_lines-none rounds partial consumed cursor ready e in
          let rest = searched-append-todo partial consumed cursor le in
          (rw (s, lines-none held todo e, append-nil), rw (s, remainder-none held todo e, rest))
      | inr (offset, e) ↦
          let end = cursor + offset + 1 in
          let line = nonempty (strip_cr (held ++ take offset todo)) in
          let lt' = find_byte-lt b'\n' todo offset e in
          let f : end ≡ cursor + suc offset = omega arith in
          let after : drop (suc offset) todo ≡ drop end partial =
            drop-drop cursor (suc offset) partial ∙ ap (λ k. drop k partial) (sym f) in
          let l : length (drop (suc offset) todo) ≡ length todo - suc offset =
            length-drop (suc offset) todo in
          let l' : length (drop (suc offset) todo) ≡ length (drop end partial) = ap length after in
          let fewer : length (drop end partial) < rounds = omega arith in
          let s = split_lines-some rounds partial consumed cursor ready offset e in
          let ih = split_lines_lem rounds partial end end (ready ++ line) (omega arith) fewer in
          let r = rw (searched-end partial end) at ih in
          (
            rw (
              s,
              raw_line partial consumed cursor offset le,
              lines-some held todo offset e,
              after,
              r.0,
              append_assoc,
            ),
            rw (
              s,
              raw_line partial consumed cursor offset le,
              remainder-some held todo offset e,
              after,
              r.1,
            ),
          )
    ]

-- The index of the search stands at the end of the fragment, which is short enough.
abbrev pub IsScanned : LineBuffer → Type 0
IsScanned b = (b.scanned ≡ length b.partial) × (length b.partial ≤ max_line_bytes)

abbrev pub holding : Bytes → List Bytes → LineBuffer
holding held ready = record { partial = held; scanned = length held; ready = ready }

-- The buffer that holds a fragment, or the refusal of one that is too long.
abbrev pub hold : Bytes → List Bytes → LineBuffer × Result {0, 0} TransportError Unit
hold held ready =
    if ltb max_line_bytes (length held)
    then (clear, err (capacity max_line_bytes (length held)))
    else (holding held ready, ok tt)

compact-hold :
    (partial : Bytes) (out : ℕ × List Bytes) {held : Bytes} {ready : List Bytes}
    → drop out.0 partial ≡ held
    → out.1 ≡ ready
    → compact partial out ≡ hold held ready
compact-hold partial (consumed, queued) e f = rw (e, f)

searched-append :
    (xs ys : Bytes) (n : ℕ)
    → n ≡ length xs
    → (searched (xs ++ ys) 0 n ≡ xs) × (drop n (xs ++ ys) ≡ ys)
searched-append xs ys n e =
    let z : n - 0 ≡ length xs = omega arith in (rw z (take-append xs ys), rw e (drop-append xs ys))

hold-IsScanned : (held : Bytes) (ready : List Bytes) → IsScanned (hold held ready).0
hold-IsScanned held ready = ground arith

hold_ok :
    (held : Bytes) (ready : List Bytes)
    → (hold held ready).1 ≡ ok tt
    → (hold held ready).0 ≡ holding held ready
hold_ok held ready h = ground arith

-- On a scanned buffer, a push queues behind the ready lines those that the bytes complete, and
-- holds what follows the last terminator; if that is longer than the limit, it fails and clears
-- the buffer.
pub push_bytes-hold :
    (b : LineBuffer) (bytes : Bytes)
    → IsScanned b
    → push_bytes b bytes ≡ hold (remainder b.partial bytes) (b.ready ++ lines b.partial bytes)
unfolding push_bytes
push_bytes-hold b bytes h =
    let partial = b.partial ++ bytes in
    let parts = searched-append b.partial bytes b.scanned h.0 in
    let l = length-drop b.scanned partial in
    let out =
      split_lines_lem (suc (length partial)) partial 0 b.scanned b.ready (omega arith)
        (omega arith) in
    let out' = rw (parts.0, parts.1) at out in
    compact-hold partial (split_lines (suc (length partial)) partial 0 b.scanned b.ready) out'.1
      out'.0

-- On a scanned buffer, a push leaves the buffer scanned and its fragment within the limit, whether it fails or not.
pub push_bytes-IsScanned :
    (b : LineBuffer) (bytes : Bytes) → IsScanned b → IsScanned (push_bytes b bytes).0
push_bytes-IsScanned b bytes h =
    rw (push_bytes-hold b bytes h)
      (hold-IsScanned (remainder b.partial bytes) (b.ready ++ lines b.partial bytes))

-- On a scanned buffer, where a push succeeds, a further push leaves the buffer and returns the result of one push of
-- both runs of bytes.
pub push_bytes-append :
    (b : LineBuffer) (xs ys : Bytes)
    → IsScanned b
    → (push_bytes b xs).1 ≡ ok tt
    → push_bytes b (xs ++ ys) ≡ push_bytes (push_bytes b xs).0 ys
push_bytes-append b xs ys h done =
    let first = push_bytes-hold b xs h in
    let held = remainder b.partial xs in
    let queued = b.ready ++ lines b.partial xs in
    let kept = hold_ok held queued (rw first at done) in
    let scanned : IsScanned (holding held queued) =
      rw (first, kept) at (push_bytes-IsScanned b xs h) in
    rw (
      first,
      kept,
      push_bytes-hold b (xs ++ ys) h,
      push_bytes-hold (holding held queued) ys scanned,
      lines-append,
      remainder-append,
      append_assoc,
    )
