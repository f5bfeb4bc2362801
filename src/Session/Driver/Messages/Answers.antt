-- ===== src/Session/Driver/Messages/Answers.antt =====
-- Where the messages are after an answer of the server.
use lightstreamer_rs.Base.{ℕ, ◌+◌, ◌≡◌, refl, ap, arith, Option, none, some, ==_iff}
use lightstreamer_rs.Text.{Text}
use lightstreamer_rs.Session.Outcomes.{ServerCause}
use lightstreamer_rs.Session.Pending.{
  PendingKind, send_message, force_rebind, destroy, Pending, find_pending,
}
use lightstreamer_rs.Session.Driver.{SessionDriver}
use lightstreamer_rs.Session.Driver.Answers.{
  of_generation, take_pending, accept, on_request_ok, refuse, on_request_error,
}
use lightstreamer_rs.Session.Driver.Sound.Numbers.{IsTracked}
use lightstreamer_rs.Session.Driver.Sound.Kept.{ledger-accept}
use lightstreamer_rs.Session.Driver.Messages.{
  messages, reported, reported-append, is_awaited, is_message, messages-remove, generation_lem,
}
use lightstreamer_rs.Session.Driver.Messages.Steps.{Balances, Idle}
use lightstreamer_rs.Protocol.Notifications.{MessageSequence}

module _ (w : MessageSequence → Option ℕ → ℕ) where
  -- The kind that is answered, as a count.
  abbrev pub answered : Option PendingKind → ℕ
  answered none = 0
  answered (some kind) = is_message w kind

  answered-of_generation :
      (generation : ℕ) (o : Option Pending)
      → ((p : Pending) → o ≡ some p → p.generation ≡ generation)
      → answered (of_generation generation o) ≡ is_awaited w o
  answered-of_generation generation none own = refl
  answered-of_generation generation (some p) own =
      rw ((==_iff p.generation generation).1 (own p refl)) refl

  messages-take_pending :
      (d : SessionDriver) (id : Text)
      → IsTracked d
      → (let (d', kind) = take_pending d id in
          (messages w d'.pending + answered kind ≡ messages w d.pending)
          × (answered kind ≡ is_awaited w (find_pending d.pending id)))
  unfolding take_pending
  messages-take_pending d id (sent, queue) =
      let same =
        answered-of_generation d.generation (find_pending d.pending id)
          (λ p found. generation_lem d.next_request_id d.generation d.pending id p queue found) in
      (
        omega (arith, same, messages-remove w d.next_request_id d.generation d.pending id queue),
        same,
      )

  messages-accept :
      (d : SessionDriver) (kind : Option PendingKind)
      → messages w (accept (d, kind)).pending ≡ messages w d.pending
  messages-accept d kind = ap (λ l. messages w l.0) (ledger-accept d kind)

  -- Whether an answer acknowledges a message.
  abbrev pub acknowledges : SessionDriver → Option Text → ℕ
  acknowledges d none = 0
  acknowledges d (some id) = is_awaited w (find_pending d.pending id)

  pub Balances-on_request_ok :
      (d : SessionDriver) (id : Option Text)
      → IsTracked d
      → (let (d', events) = on_request_ok d id in Balances w d d' events 0 (acknowledges d id))
  unfolding on_request_ok
  Balances-on_request_ok d none h = omega arith
  Balances-on_request_ok d (some id) h =
      let (d', kind) = take_pending d id in
      let (waits, same) = messages-take_pending d id h in
      omega (arith, waits, same, messages-accept d' kind)

  messages-refuse :
      (cause : ServerCause) (d : SessionDriver) (kind : Option PendingKind)
      → (let (d', events) = refuse cause d kind in
          (messages w d'.pending ≡ messages w d.pending) × (reported w events ≡ answered kind))
  messages-refuse cause d none = (refl, refl)
  messages-refuse cause d (some (PendingKind.subscribe key)) = (refl, refl)
  messages-refuse cause d (some (PendingKind.unsubscribe key)) = (refl, refl)
  messages-refuse cause d (some (PendingKind.reconfigure key limit)) = (refl, refl)
  messages-refuse cause d (some (send_message sequence prog)) = (refl, omega arith)
  messages-refuse cause d (some force_rebind) = (refl, refl)
  messages-refuse cause d (some destroy) = (refl, refl)

  pub Balances-on_request_error :
      (d : SessionDriver) (id : Text) (cause : ServerCause)
      → IsTracked d
      → Idle w d (on_request_error d id cause)
  unfolding on_request_error
  Balances-on_request_error d id cause h =
      let (d₁, kind) = take_pending d id in
      let (d₂, events) = refuse cause d₁ kind in
      let (waits, same) = messages-take_pending d id h in
      let (kept, told) = messages-refuse cause d₁ kind in
      omega (arith, waits, kept, told, reported-append w events _)
