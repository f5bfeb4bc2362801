-- ===== src/Session/Driver/Continuity.antt =====
-- What a client makes of a flow of data notifications that is cut by lost connections.
use lightstreamer_rs.Base.{
  ℕ, zero, suc, ◌+◌, ◌-◌, min, max, ◌≤◌, ◌<◌, ◌≡◌, refl, sym, ap, subst, ◌∙◌, arith, List, [], ◌∷◌,
  ◌++◌, append_assoc, length, take, drop, length-take, length-drop, drop-drop, usize_mod,
}
use lightstreamer_rs.Protocol.Diff.{JsonPatch}
use lightstreamer_rs.Protocol.Notifications.{Notification}
use lightstreamer_rs.Session.Events.{SessionEvent}
use lightstreamer_rs.Session.Registry.{Registry}
use lightstreamer_rs.Session.Driver.{
  SessionDriver, recover, begin_opening, on_prog, on_data, deliver, counted, Emitted,
}

-- The data notifications of a connection, one after the other.
abbrev pub feed : JsonPatch → SessionDriver → List Notification → Emitted
feed json d [] = (d, [])
feed json d (n ∷ ns) =
    let (d', events) = on_data json d n in
    let (d'', events') = feed json d' ns in (d'', events ++ events')

-- The position that a client has reached, its subscriptions and the events so far.
abbrev pub View : Type 0
View = ℕ × Registry × List SessionEvent

abbrev pub view : Emitted → View
view (d, events) = (d.progressive, d.registry, events)

-- A client that handles each notification once, in order.
abbrev pub follow : JsonPatch → ℕ → Registry → List Notification → View
follow json p r [] = (p, r, [])
follow json p r (n ∷ ns) =
    let (r', events) = deliver json r (counted p) n in
    let (p', r'', events') = follow json (counted p) r' ns in (p', r'', events ++ events')

on_data-skipped :
    (json : JsonPatch) (d : SessionDriver) (n : Notification) (remaining : ℕ)
    → d.skip_remaining ≡ suc remaining
    → on_data json d n ≡ (record d { refresh_streak = 0; skip_remaining = remaining }, [])
unfolding on_data
on_data-skipped json d n remaining e = rw (on_data, e)

on_data-delivered :
    (json : JsonPatch) (d : SessionDriver) (n : Notification)
    → d.skip_remaining ≡ 0
    → on_data json d n ≡ (
        let (registry, events) = deliver json d.registry (counted d.progressive) n in
        (
          record d { refresh_streak = 0; progressive = counted d.progressive; registry = registry },
          events,
        ))
unfolding on_data
on_data-delivered json d n e = rw (on_data, e)

-- What is to be skipped is skipped, and all else is handled.
feed-follow :
    (json : JsonPatch) (d : SessionDriver) (ns : List Notification) (skip : ℕ)
    → d.skip_remaining ≡ skip
    → view (feed json d ns) ≡ follow json d.progressive d.registry (drop skip ns)
feed-follow json d [] zero e = refl
feed-follow json d [] (suc skip) e = refl
feed-follow json d (n ∷ ns) zero e =
    let (registry, events) = deliver json d.registry (counted d.progressive) n in
    let d' = record d {
      refresh_streak = 0;
      progressive = counted d.progressive;
      registry = registry;
    } in
    let ih = feed-follow json d' ns 0 e in
    rw (on_data-delivered json d n e) (ap (λ v. (v.0, v.1, events ++ v.2)) ih)
feed-follow json d (n ∷ ns) (suc skip) e =
    let d' : SessionDriver = record d { refresh_streak = 0; skip_remaining = skip } in
    rw (on_data-skipped json d n skip e) (feed-follow json d' ns skip refl)

take-nil : (n : ℕ) → take {A = Notification} n [] ≡ []
take-nil zero = refl
take-nil (suc n) = refl

drop-nil : (n : ℕ) → drop {A = Notification} n [] ≡ []
drop-nil zero = refl
drop-nil (suc n) = refl

drop-take : (a k : ℕ) (xs : List Notification) → drop a (take k xs) ≡ take (k - a) (drop a xs)
drop-take zero k xs = let e : k ≡ k - 0 = omega arith in ap (λ j. take j xs) e
drop-take (suc a) zero xs =
    let e : 0 ≡ 0 - suc a = omega arith in drop-nil (suc a) ∙ ap (λ j. take j (drop (suc a) xs)) e
drop-take (suc a) (suc k) [] = sym (take-nil (suc k - suc a))
drop-take (suc a) (suc k) (x ∷ xs) =
    let e : k - a ≡ suc k - suc a = omega arith in drop-take a k xs ∙ ap (λ j. take j (drop a xs)) e

-- One connection: where the server resumes, and how many of its notifications arrive.
pub record Connection : Type 0 where
  pub resumed_at : ℕ
  pub received : ℕ

-- The session is recovered on a new connection, which then carries a part of the flow.
abbrev pub serve : JsonPatch → List Notification → SessionDriver → Connection → Emitted
serve json flow d c =
    let (d', events) = on_prog (begin_opening d (recover d.progressive)) c.resumed_at in
    feed json d' (take c.received (drop c.resumed_at flow))

on_prog_lem :
    (d : SessionDriver) (resumed_at : ℕ)
    → resumed_at ≤ d.progressive
    → (let d' = (on_prog (begin_opening d (recover d.progressive)) resumed_at).0 in
        (d'.skip_remaining ≡ d.progressive - resumed_at)
        × (d'.progressive ≡ d.progressive)
        × (d'.registry ≡ d.registry))
unfolding on_prog begin_opening
on_prog_lem d resumed_at h = ground arith

serve-follow :
    (json : JsonPatch) (flow : List Notification) (d : SessionDriver) (c : Connection)
    → c.resumed_at ≤ d.progressive
    → view (serve json flow d c)
      ≡ follow json d.progressive d.registry
          (take (c.received - (d.progressive - c.resumed_at)) (drop d.progressive flow))
serve-follow json flow d c h =
    let d' = (on_prog (begin_opening d (recover d.progressive)) c.resumed_at).0 in
    let (skip, at, same) = on_prog_lem d c.resumed_at h in
    let fed =
      feed-follow json d' (take c.received (drop c.resumed_at flow)) (d.progressive - c.resumed_at)
        skip in
    let rest : c.resumed_at + (d.progressive - c.resumed_at) ≡ d.progressive = omega arith in
    fed ∙ rw (at, same, drop-take, drop-drop, rest) refl

abbrev pub serve_all : JsonPatch → List Notification → SessionDriver → List Connection → Emitted
serve_all json flow d [] = (d, [])
serve_all json flow d (c ∷ cs) =
    let (d', events) = serve json flow d c in
    let (d'', events') = serve_all json flow d' cs in (d'', events ++ events')

-- Where a client stands after a connection: behind the last notification of the flow that has arrived.
abbrev pub reached : (end at : ℕ) → Connection → ℕ
reached end at c = max at (min (c.resumed_at + c.received) end)

abbrev pub reached_all : (end at : ℕ) → List Connection → ℕ
reached_all end at [] = at
reached_all end at (c ∷ cs) = reached_all end (reached end at c) cs

-- Each connection resumes at the point asked for, or before it.
abbrev pub AreResumed : (end at : ℕ) → List Connection → Type 0
AreResumed end at [] = Unit
AreResumed end at (c ∷ cs) = (c.resumed_at ≤ at) × AreResumed end (reached end at c) cs

reached_all-grows :
    (end at : ℕ) (cs : List Connection)
    → at ≤ end
    → (at ≤ reached_all end at cs) × (reached_all end at cs ≤ end)
reached_all-grows end at [] h = (omega arith, h)
reached_all-grows end at (c ∷ cs) h =
    let (grows, within) = reached_all-grows end (reached end at c) cs (omega arith) in
    (omega arith, within)

follow-append :
    (json : JsonPatch) (p : ℕ) (r : Registry) (xs ys : List Notification)
    → follow json p r (xs ++ ys) ≡ (
        let (p', r', events) = follow json p r xs in
        let (p'', r'', events') = follow json p' r' ys in (p'', r'', events ++ events'))
follow-append json p r [] ys = refl
follow-append json p r (n ∷ xs) ys =
    let (r₁, events) = deliver json r (counted p) n in
    let ih = follow-append json (counted p) r₁ xs ys in
    let (p₂, r₂, events₂) = follow json (counted p) r₁ xs in
    let (p₃, r₃, events₃) = follow json p₂ r₂ ys in
    ap (λ v. (v.0, v.1, events ++ v.2)) ih
    ∙ ap (λ es. (p₃, r₃, es)) (sym (append_assoc events events₂ events₃))

counted_lem : (p : ℕ) → p + 1 < usize_mod → counted p ≡ p + 1
unfolding counted
counted_lem p h = ground arith

follow-position :
    (json : JsonPatch) (p : ℕ) (r : Registry) (ns : List Notification)
    → p + length ns < usize_mod
    → (follow json p r ns).0 ≡ p + length ns
follow-position json p r [] h = omega arith
follow-position json p r (n ∷ ns) h =
    let (r', events) = deliver json r (counted p) n in
    let e = counted_lem p (omega arith) in
    let ih = follow-position json (counted p) r' ns (rw e (omega arith)) in ih ∙ rw e (omega arith)

take-split :
    (m k : ℕ) (xs : List Notification)
    → take (length (take m xs) + k) xs ≡ take m xs ++ take k (drop (length (take m xs)) xs)
take-split zero k xs = let e : 0 + k ≡ k = omega arith in ap (λ j. take j xs) e
take-split (suc m) k [] =
    let e : 0 + k ≡ k = omega arith in ap (λ j. take {A = Notification} j []) e
take-split (suc m) k (x ∷ xs) =
    let e : suc (length (take m xs)) + k ≡ suc (length (take m xs) + k) = omega arith in
    ap (λ j. take j (x ∷ xs)) e ∙ ap (λ l. x ∷ l) (take-split m k xs)

follow-joined :
    (json : JsonPatch) (p : ℕ) (r : Registry) (whole part rest : List Notification) (v w : View)
    → whole ≡ part ++ rest
    → v ≡ follow json p r part
    → w ≡ follow json v.0 v.1 rest
    → (w.0, w.1, v.2 ++ w.2) ≡ follow json p r whole
follow-joined json p r whole part rest v w e first second =
    rw (e, follow-append json p r part rest, ← first, ← second) refl

-- A part of the flow from a position on ends where the connection has reached.
part_length :
    (p : ℕ) (c : Connection) (flow : List Notification)
    → p ≤ length flow
    → c.resumed_at ≤ p
    → p + length (take (c.received - (p - c.resumed_at)) (drop p flow)) ≡ reached (length flow) p c
part_length p c flow h at =
    omega (arith, length-take (c.received - (p - c.resumed_at)) (drop p flow), length-drop p flow)

-- A session is recovered any number of times, each time from the point it asked for or from an
-- earlier one, and on each connection any number of notifications arrive. It is left with the
-- position, the subscriptions and the events of a client that handles the notifications of an
-- uninterrupted flow, each once and in order, from its position up to the last one that has arrived:
-- nothing that arrived is lost or repeated. The events about the recoveries themselves are left
-- aside. The flow has fewer notifications than a `u64` counts, and the driver has counted part of it.
pub serve_all-follow :
    (json : JsonPatch) (flow : List Notification) (d : SessionDriver) (cs : List Connection)
    → length flow < usize_mod
    → d.progressive ≤ length flow
    → AreResumed (length flow) d.progressive cs
    → view (serve_all json flow d cs)
      ≡ follow json d.progressive d.registry (
          take
            (reached_all (length flow) d.progressive cs - d.progressive)
            (drop d.progressive flow))
serve_all-follow json flow d [] fits le h =
    let none_left : 0 ≡ d.progressive - d.progressive = omega arith in
    ap (λ k. follow json d.progressive d.registry (take k (drop d.progressive flow))) none_left
serve_all-follow json flow d (c ∷ cs) fits le (at, h) =
    let (d', events) = serve json flow d c in
    let m = c.received - (d.progressive - c.resumed_at) in
    let part = take m (drop d.progressive flow) in
    let once : view (d', events) ≡ follow json d.progressive d.registry part =
      serve-follow json flow d c at in
    let ends = part_length d.progressive c flow le at in
    let next = reached (length flow) d.progressive c in
    let position : d'.progressive ≡ d.progressive + length part =
      ap (λ v. v.0) once ∙ follow-position json d.progressive d.registry part (omega arith) in
    let here : next ≡ d'.progressive = sym ends ∙ sym position in
    let again =
      serve_all-follow json flow d' cs fits (omega arith)
        (subst (λ p. AreResumed (length flow) p cs) here h) in
    let k = reached_all (length flow) d'.progressive cs - d'.progressive in
    let rest = take k (drop d'.progressive flow) in
    let behind : drop (length part) (drop d.progressive flow) ≡ drop d'.progressive flow =
      drop-drop d.progressive (length part) flow ∙ ap (λ n. drop n flow) (sym position) in
    let (grows, within) = reached_all-grows (length flow) d'.progressive cs (omega arith) in
    let same : reached_all (length flow) next cs ≡ reached_all (length flow) d'.progressive cs =
      ap (λ p. reached_all (length flow) p cs) here in
    let count : reached_all (length flow) next cs - d.progressive ≡ length part + k = omega arith in
    let joined : take (reached_all (length flow) next cs - d.progressive) (drop d.progressive flow)
        ≡ part ++ rest =
      ap (λ n. take n (drop d.progressive flow)) count
      ∙ take-split m k (drop d.progressive flow)
      ∙ ap (λ l. part ++ take k l) behind in
    follow-joined json d.progressive d.registry _ part rest (view (d', events))
      (view (serve_all json flow d' cs)) joined once again
