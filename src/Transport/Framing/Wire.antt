-- ===== src/Transport/Framing/Wire.antt =====
-- Lines sent as CR-LF terminated text, and what the buffer hands out however the bytes are cut.
use lightstreamer_rs.Base.{
  ℕ, zero, suc, ◌+◌, ◌≤◌, ◌≡◌, ◌≢◌, refl, sym, ap, ◌∙◌, none, some, List, [], ◌∷◌, ◌++◌,
  append_assoc, append-nil, arith, length, length-append, Result, ok, err, map, All, All-append,
}
use lightstreamer_rs.Text.{Bytes, Text, IsText}
use lightstreamer_rs.Text.Utf8.{as_bytes, encode_char, from_utf8-as_bytes}
use lightstreamer_rs.Transport.Errors.{TransportError}
use lightstreamer_rs.Transport.Framing.{
  LineBuffer, strip_cr, nonempty, push_bytes, pop_line, clear, max_line_bytes,
}
use lightstreamer_rs.Transport.Framing.Lines.{lines, remainder}
use lightstreamer_rs.Transport.Framing.Pushes.{
  IsScanned, push_bytes-hold, push_bytes-append, hold, holding,
}

-- A text that is a line: nonempty, and with no line feed in it.
abbrev pub IsLine : Text → Type 0
IsLine text = (text ≢ []) × IsText text × All (λ c. c ≢ b'\n') text

-- The bytes of the lines that a server sends, each terminated by CR-LF.
abbrev pub wire : List Text → Bytes
wire [] = []
wire (text ∷ texts) = as_bytes text ++ b'\r' ∷ b'\n' ∷ wire texts

-- Successive reads pushed into the buffer, up to the first error.
abbrev pub push_all : LineBuffer → List Bytes → LineBuffer × Result {0, 0} TransportError Unit
push_all b [] = (b, ok tt)
push_all b (run ∷ runs) =
    let (next, result) = push_bytes b run in
    elim result [ ok u ↦ push_all next runs | err e ↦ (next, err e) ]

abbrev pub joined_runs : List Bytes → Bytes
joined_runs [] = []
joined_runs (run ∷ runs) = run ++ joined_runs runs

-- Lines popped until there is none, at most so many of them.
abbrev pub pop_all : ℕ → LineBuffer → List (Result TransportError Text)
pop_all zero b = []
pop_all (suc n) b =
    let (next, popped) = pop_line b in elim popped [ none ↦ [] | some line ↦ line ∷ pop_all n next ]

length-remainder : (held bytes : Bytes) → length (remainder held bytes) ≤ length held + length bytes
unfolding remainder
length-remainder held [] = omega arith
length-remainder held (b ∷ bs) = ground (
  arith,
  length-remainder [] bs,
  length-remainder (held ++ b ∷ []) bs,
  length-append held (b ∷ []),
)

hold_short :
    (held : Bytes) (ready : List Bytes)
    → length held ≤ max_line_bytes
    → hold held ready ≡ (holding held ready, ok tt)
hold_short held ready h = ground arith

encode_char-ne_line_feed : (c : ℕ) → c ≢ b'\n' → All (λ b. b ≢ b'\n') (encode_char c)
unfolding encode_char
encode_char-ne_line_feed c h = ground arith

lines_line :
    (held bs rest : Bytes)
    → All (λ b. b ≢ b'\n') bs
    → (lines held (bs ++ b'\n' ∷ rest) ≡ nonempty (strip_cr (held ++ bs)) ++ lines [] rest)
      × (remainder held (bs ++ b'\n' ∷ rest) ≡ remainder [] rest)
unfolding lines remainder
lines_line held [] rest h = ground (arith, append-nil held)
lines_line held (b ∷ bs) rest (nb, h) =
    ground (arith, lines_line (held ++ b ∷ []) bs rest h, append_assoc held (b ∷ []) bs)

strip_cr-append : (bs : Bytes) → strip_cr (bs ++ b'\r' ∷ []) ≡ bs
unfolding strip_cr
strip_cr-append [] = refl
strip_cr-append (b ∷ []) = refl
strip_cr-append (b ∷ c ∷ bs) = ap (λ l. b ∷ l) (strip_cr-append (c ∷ bs))

as_bytes-ne_line_feed :
    (text : Text) → All (λ c. c ≢ b'\n') text → All (λ b. b ≢ b'\n') (as_bytes text)
unfolding as_bytes
as_bytes-ne_line_feed [] h = tt
as_bytes-ne_line_feed (c ∷ text) (nc, h) =
    All-append (λ b. b ≢ b'\n') (encode_char c) (as_bytes text) (encode_char-ne_line_feed c nc)
      (as_bytes-ne_line_feed text h)

nonempty-as_bytes : (text : Text) → text ≢ [] → nonempty (as_bytes text) ≡ as_bytes text ∷ []
unfolding as_bytes encode_char
nonempty-as_bytes [] h = absurd (h refl)
nonempty-as_bytes (c ∷ text) h = ground arith

lines-wire :
    (texts : List Text)
    → All IsLine texts
    → (lines [] (wire texts) ≡ map as_bytes texts) × (remainder [] (wire texts) ≡ [])
lines-wire [] h = unfold lines remainder in (refl, refl)
lines-wire (text ∷ texts) ((ne, it, nl), h) =
    let ih = lines-wire texts h in
    let bytes = as_bytes text in
    let clean =
      All-append (λ b. b ≢ b'\n') bytes (b'\r' ∷ []) (as_bytes-ne_line_feed text nl)
        (omega arith, tt) in
    let one = lines_line [] (bytes ++ b'\r' ∷ []) (wire texts) clean in
    let s = strip_cr-append bytes in
    let n = nonempty-as_bytes text ne in
    let a = append_assoc bytes (b'\r' ∷ []) (b'\n' ∷ wire texts) in (cc, cc)

holding-eq : (b : LineBuffer) → b.scanned ≡ length b.partial → holding b.partial b.ready ≡ b
holding-eq b h = ap (λ n. record { partial = b.partial; scanned = n; ready = b.ready }) (sym h)

push_bytes-nil : (b : LineBuffer) → IsScanned b → push_bytes b [] ≡ (b, ok tt)
unfolding lines remainder
push_bytes-nil b h =
    rw (push_bytes-hold b [] h, append-nil, hold_short b.partial b.ready h.1, holding-eq b h.0)

push_all-cons :
    (b : LineBuffer) (run : Bytes) (runs : List Bytes) (next : LineBuffer)
    → push_bytes b run ≡ (next, ok tt)
    → push_all b (run ∷ runs) ≡ push_all next runs
push_all-cons b run runs next e =
    ap (λ p. elim p.1 [ ok u ↦ push_all p.0 runs | err e ↦ (p.0, err e) ]) e

-- All pushes succeed where everything fits, and they do what one push of all bytes does.
push_all-joined :
    (b : LineBuffer) (runs : List Bytes)
    → IsScanned b
    → length b.partial + length (joined_runs runs) ≤ max_line_bytes
    → push_all b runs ≡ push_bytes b (joined_runs runs)
push_all-joined b [] h fits = sym (push_bytes-nil b h)
push_all-joined b (run ∷ runs) h fits =
    let held = remainder b.partial run in
    let queued = b.ready ++ lines b.partial run in
    let bound = length-remainder b.partial run in
    let total = length-append run (joined_runs runs) in
    let kept = hold_short held queued (omega arith) in
    let short = push_bytes-hold b run h ∙ kept in
    let done : (push_bytes b run).1 ≡ ok tt = ap (λ p. p.1) short in
    let ih = push_all-joined (holding held queued) runs (refl, omega arith) (omega arith) in
    push_all-cons b run runs (holding held queued) short
    ∙ ih
    ∙ sym (rw short at (push_bytes-append b run (joined_runs runs) h done))

pop_all-ready :
    (texts : List Text)
    → All IsLine texts
    → pop_all (suc (length texts)) (holding [] (map as_bytes texts)) ≡ map ok texts
unfolding pop_line
pop_all-ready [] h = refl
pop_all-ready (text ∷ texts) ((ne, it, nl), h) =
    rw (from_utf8-as_bytes text it, pop_all-ready texts h)

-- However the bytes of CR-LF terminated lines are cut into pushes, if they fit in the buffer then
-- the buffer hands out those lines, decoded and in order.
pub pop_all-push_all :
    (texts : List Text) (runs : List Bytes)
    → All IsLine texts
    → joined_runs runs ≡ wire texts
    → length (wire texts) ≤ max_line_bytes
    → ((push_all clear runs).1 ≡ ok tt)
      × (pop_all (suc (length texts)) (push_all clear runs).0 ≡ map ok texts)
pop_all-push_all texts runs h e fits =
    let l : length (joined_runs runs) ≡ length (wire texts) = ap length e in
    let cut = push_all-joined clear runs (refl, omega arith) (omega arith) in
    let sent = lines-wire texts h in
    let all =
      rw (e, push_bytes-hold clear (wire texts) (refl, omega arith), sent.0, sent.1) at cut in
    (ap (λ p. p.1) all, ap (λ p. pop_all (suc (length texts)) p.0) all ∙ pop_all-ready texts h)
