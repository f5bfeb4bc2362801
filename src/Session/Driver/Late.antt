-- ===== src/Session/Driver/Late.antt =====
-- Answers that come after their session was replaced.
pub mod Numbers
use lightstreamer_rs.Base.{
  ℕ, ◌+◌, ◌<◌, ◌≤◌, ◌≡◌, refl, sym, ap, subst, ◌∙◌, arith, true, Option, none, some, [], ◌∷◌, ◌==◌,
  ==_iff, Bool-cases, inl, inr, usize_mod,
}
use lightstreamer_rs.Text.{Text}
use lightstreamer_rs.Text.Numbers.{decimal}
use lightstreamer_rs.Session.Time.{Duration}
use lightstreamer_rs.Session.Outcomes.{ServerCause}
use lightstreamer_rs.Session.Pending.{Pendings, find_pending, remove_pending, current}
use lightstreamer_rs.Session.Driver.{SessionDriver}
use lightstreamer_rs.Session.Driver.Dispatch.{Turn, next_request_id}
use lightstreamer_rs.Session.Driver.Binding.{
  start_session, retire_stale_pending, bound_to, on_conok, kind_of, is_fresh, next_generation,
}
use lightstreamer_rs.Session.Driver.Answers.{
  of_generation, take_pending, accept, on_request_ok, refuse, on_request_error,
}
use lightstreamer_rs.Session.Driver.Sound.Numbers.{IsTracked, Waiting}
use lightstreamer_rs.Session.Driver.Late.Numbers.{IsSince, find-earlier, IsSince-issue_unbound}

-- Nothing of an earlier generation is kept.
current-later :
    (next generation later : ℕ) (ps : Pendings)
    → generation < later
    → Waiting next generation ps
    → current ps later ≡ []
unfolding current
current-later next generation later [] lt h = refl
current-later next generation later ((i, p) ∷ ps) lt (k, e, below, same, h) =
    elim (Bool-cases (p.generation == later)) [
      | inl hit ↦ let equal = (==_iff p.generation later).0 hit in absurd (omega arith)
      | inr miss ↦ rw miss (current-later k generation later ps lt h)
    ]

IsSince-start_session :
    (d : SessionDriver)
    → IsTracked d
    → d.generation + 1 < usize_mod
    → IsSince d.next_request_id (start_session d true).0
unfolding retire_stale_pending
IsSince-start_session d (sent, queue) fits =
    let later : d.generation < next_generation d.generation = omega arith in
    let empty =
      current-later d.next_request_id d.generation (next_generation d.generation) d.pending later
        queue in
    (omega arith, rw empty tt)

take-unknown :
    (d : SessionDriver) (id : Text)
    → find_pending d.pending id ≡ none
    → remove_pending d.pending id ≡ d.pending
    → take_pending d id ≡ (d, none)
unfolding take_pending
take-unknown d id absent kept =
    λ i. (record d { pending = kept i }, of_generation d.generation (absent i))

-- An answer to a request that does not wait changes nothing.
answers-unknown :
    (d : SessionDriver) (id : Text) (cause : ServerCause)
    → find_pending d.pending id ≡ none
    → remove_pending d.pending id ≡ d.pending
    → ((on_request_ok d (some id)).0 ≡ d) × ((on_request_error d id cause).0 ≡ d)
unfolding on_request_ok on_request_error
answers-unknown d id cause absent kept =
    let unknown = take-unknown d id absent kept in
    (ap accept unknown, ap (λ a. (refuse cause a.0 a.1).0) unknown)

IsSince-on_conok :
    (t : Turn) (d : SessionDriver) (session_id : Text) (limit : ℕ) (keep_alive : Duration)
    (control_link : Option Text)
    → IsTracked d
    → is_fresh (kind_of d session_id) ≡ true
    → d.generation + 1 < usize_mod
    → IsSince d.next_request_id (on_conok t d session_id limit keep_alive control_link).0
unfolding on_conok
IsSince-on_conok t d session_id limit keep_alive control_link h fresh fits =
    let d' : SessionDriver = bound_to t d session_id keep_alive control_link in
    IsSince-issue_unbound t d.next_request_id (start_session d' (is_fresh (kind_of d session_id))).0
      (subst (λ b. IsSince d.next_request_id (start_session d' b).0) (sym fresh)
        (IsSince-start_session d' h fits))

-- When CONOK has started a new session in place of another one, an answer to a request of an earlier
-- session, be it REQOK or REQERR, changes nothing in the driver. The numbers of requests were those
-- of a driver at any time, and the sessions are fewer than a `u64` counts.
pub answers_late :
    (t : Turn) (d : SessionDriver) (session_id : Text) (limit : ℕ) (keep_alive : Duration)
    (control_link : Option Text) (n : ℕ) (cause : ServerCause)
    → IsTracked d
    → is_fresh (kind_of d session_id) ≡ true
    → d.generation + 1 < usize_mod
    → n < d.next_request_id
    → (let d' = (on_conok t d session_id limit keep_alive control_link).0 in
        ((on_request_ok d' (some (decimal n))).0 ≡ d')
        × ((on_request_error d' (decimal n) cause).0 ≡ d'))
answers_late t d session_id limit keep_alive control_link n cause h fresh fits earlier =
    let d' = (on_conok t d session_id limit keep_alive control_link).0 in
    let (absent, kept) =
      find-earlier d.next_request_id n d'.pending earlier
        (IsSince-on_conok t d session_id limit keep_alive control_link h fresh fits).1 in
    answers-unknown d' (decimal n) cause absent kept
