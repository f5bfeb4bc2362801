-- ===== src/Session/Driver/Messages.antt =====
-- The messages of the client: those that wait for an answer, and those reported as unsent or refused.
pub mod Steps
pub mod Commands
pub mod Answers
pub mod Data
pub mod Turns
pub mod Totals
use lightstreamer_rs.Base.{
  ℕ, suc, ◌+◌, ◌<◌, ◌≤◌, ◌≡◌, ◌≢◌, refl, sym, ap, ◌∙◌, arith, Bool, true, false, Option, none, some,
  List, [], ◌∷◌, ◌++◌, ◌==◌, Bool-cases, inl, inr, Result, ok, err, if◌then◌else◌,
}
use lightstreamer_rs.Text.{Text, same_text, same_text_refl, same_text-eq, same_text-ne}
use lightstreamer_rs.Text.Numbers.{decimal, parse_unsigned, parse_unsigned-decimal}
use lightstreamer_rs.Protocol.Errors.{ProtocolError}
use lightstreamer_rs.Protocol.Parameters.{ParameterLine}
use lightstreamer_rs.Protocol.Requests.{RequestId}
use lightstreamer_rs.Protocol.TlcpRequest.{TlcpRequest, encode_parameters}
use lightstreamer_rs.Session.Events.{
  SessionEvent, bound, recovered, resubscribed, unbound, message, subscription, control_response,
  server_info, unparsed, MessageResult,
}
use lightstreamer_rs.Session.Pending.{
  PendingKind, send_message, force_rebind, destroy, Pending, Pendings, find_pending, remove_pending,
  insert_pending, stale, current,
}
use lightstreamer_rs.Session.Driver.{SessionDriver}
use lightstreamer_rs.Session.Driver.Dispatch.{Turn, dispatch, dispatch_encoded, control_kind}
use lightstreamer_rs.Session.Driver.Binding.{replaced_message, replaced_response, retired_events}
use lightstreamer_rs.Session.Driver.Sound.Numbers.{Waiting}
use lightstreamer_rs.Session.Driver.Sound.Ledger.{Drawn}
use lightstreamer_rs.Protocol.Notifications.{MessageSequence}

pub decimal-injective : (m n : ℕ) → decimal m ≡ decimal n → m ≡ n
decimal-injective m n e =
    let here = parse_unsigned-decimal (suc (m + n)) m (omega arith) in
    let there = parse_unsigned-decimal (suc (m + n)) n (omega arith) in
    let same : some m ≡ some n = sym here ∙ ap (parse_unsigned (suc (m + n))) e ∙ there in cc

-- A number that is not below those that wait is none of them.
pub remove-absent :
    (next generation n : ℕ) (ps : Pendings)
    → Waiting next generation ps
    → next ≤ n
    → remove_pending ps (decimal n) ≡ ps
unfolding remove_pending
remove-absent next generation n [] h le = refl
remove-absent next generation n ((i, p) ∷ ps) (k, e, lt, same, h) le =
    let miss : same_text i (decimal n) ≡ false =
      same_text-ne i (decimal n)
        (λ q. let equal = decimal-injective k n (sym e ∙ q) in absurd (omega arith)) in
    rw miss (ap (λ rest. (i, p) ∷ rest) (remove-absent k generation n ps h (omega arith)))

-- All that waits is of this generation.
pub generation_lem :
    (next generation : ℕ) (ps : Pendings) (id : Text) (p : Pending)
    → Waiting next generation ps
    → find_pending ps id ≡ some p
    → p.generation ≡ generation
unfolding find_pending
generation_lem next generation [] id p h found = cc
generation_lem next generation ((i, q) ∷ ps) id p (k, e, lt, same, h) found =
    elim (Bool-cases (same_text i id)) [
      | inl hit ↦
          let both : some q ≡ some p = rw hit at found in
          let is_q : q ≡ p = cc in sym (ap (λ v. v.generation) is_q) ∙ same
      | inr miss ↦ generation_lem k generation ps id p h (rw miss at found)
    ]

abbrev pub if_sent : Bool → ℕ → ℕ
if_sent true n = n
if_sent false n = 0

-- Each message counts with a weight, which may be any function of its sequence and its number.
module _ (w : MessageSequence → Option ℕ → ℕ) where
  abbrev pub is_message : PendingKind → ℕ
  is_message (send_message sequence prog) = w sequence prog
  is_message (PendingKind.subscribe key) = 0
  is_message (PendingKind.unsubscribe key) = 0
  is_message (PendingKind.reconfigure key limit) = 0
  is_message force_rebind = 0
  is_message destroy = 0

  -- The weight of the messages among the requests that wait.
  abbrev pub messages : Pendings → ℕ
  messages [] = 0
  messages ((id, p) ∷ ps) = is_message p.kind + messages ps

  -- The weight of a message that an event reports as refused or not sent. Such an event has no position
  -- in the flow.
  abbrev pub is_report : SessionEvent → ℕ
  is_report (message none sequence prog (MessageResult.refused cause)) = w sequence prog
  is_report (message none sequence prog (MessageResult.not_sent reason)) = w sequence prog
  is_report (message none sequence prog (MessageResult.done response)) = 0
  is_report (message none sequence prog (MessageResult.failed cause)) = 0
  is_report (message (some position) sequence prog result) = 0
  is_report (bound info) = 0
  is_report (recovered outcome) = 0
  is_report (resubscribed entries) = 0
  is_report (unbound reason retry_in) = 0
  is_report (subscription position key outcome) = 0
  is_report (control_response id to outcome) = 0
  is_report (server_info announcement) = 0
  is_report (unparsed line error) = 0
  is_report (SessionEvent.closed reason) = 0

  -- The weight of the messages that the events report as unsent or refused.
  abbrev pub reported : List SessionEvent → ℕ
  reported [] = 0
  reported (e ∷ es) = is_report e + reported es

  pub reported-append :
      (xs ys : List SessionEvent) → reported (xs ++ ys) ≡ reported xs + reported ys
  reported-append [] ys = omega arith
  reported-append (e ∷ xs) ys = omega (arith, reported-append xs ys)

  -- The weight of a request that is answered.
  abbrev pub is_awaited : Option Pending → ℕ
  is_awaited none = 0
  is_awaited (some p) = is_message p.kind

  -- What is taken from the requests that wait.
  pub messages-remove :
      (next generation : ℕ) (ps : Pendings) (id : Text)
      → Waiting next generation ps
      → messages (remove_pending ps id) + is_awaited (find_pending ps id) ≡ messages ps
  unfolding remove_pending find_pending
  messages-remove next generation [] id h = omega arith
  messages-remove next generation ((i, p) ∷ ps) id (k, e, lt, same, h) =
      elim (Bool-cases (same_text i id)) [
        | inl hit ↦
            let own : id ≡ decimal k = sym (same_text-eq i id hit) ∙ e in
            let gone : remove_pending ps id ≡ ps =
              ap (remove_pending ps) own ∙ remove-absent k generation k ps h (omega arith) in
            rw (hit, gone) (omega arith)
        | inr miss ↦ rw miss (omega (arith, messages-remove k generation ps id h))
      ]

  -- The messages of a session that was replaced are reported, each once.
  pub messages-retired :
      (ps : Pendings) (generation : ℕ)
      → messages (current ps generation) + reported (retired_events (stale ps generation))
        ≡ messages ps
  unfolding current stale retired_events
  messages-retired [] generation = omega arith
  messages-retired ((i, p) ∷ ps) generation =
      let ih = messages-retired ps generation in
      elim (Bool-cases (p.generation == generation)) [
        | inl hit ↦ rw hit (omega (arith, ih))
        | inr miss ↦ rw miss (
            omega (
              arith,
              ih,
              reported-append (replaced_message p.kind)
                  (replaced_response i p.kind ∷ retired_events (stale ps generation)),
              reported-replaced p.kind,
            ))
      ]
    where
      reported-replaced : (kind : PendingKind) → reported (replaced_message kind) ≡ is_message kind
      reported-replaced (send_message sequence prog) = omega arith
      reported-replaced (PendingKind.subscribe key) = refl
      reported-replaced (PendingKind.unsubscribe key) = refl
      reported-replaced (PendingKind.reconfigure key limit) = refl
      reported-replaced force_rebind = refl
      reported-replaced destroy = refl

  removed_again :
      (id : Text) (p : Pending) (ps : Pendings)
      → remove_pending ps id ≡ ps
      → messages (remove_pending (insert_pending ps id p) id) ≡ messages ps
  unfolding insert_pending remove_pending
  removed_again id p ps absent =
      rw (same_text_refl id) (ap messages (ap (λ l. remove_pending l id) absent ∙ absent))

  messages-dispatch_encoded :
      (t : Turn) (request : TlcpRequest) (id : RequestId) (kind : PendingKind) (d : SessionDriver)
      (encoded : Result ProtocolError ParameterLine)
      → Drawn id d
      → (let (d', events, sent) = dispatch_encoded t request id kind d encoded in
          (messages d'.pending ≡ messages d.pending + if_sent sent (is_message kind))
          × (reported events ≡ 0))
  unfolding insert_pending
  messages-dispatch_encoded t request id kind d (err error) drawn = (omega arith, omega arith)
  messages-dispatch_encoded t request id kind d (ok parameters) (n, e, next, sent, waiting) =
      let absent : remove_pending d.pending id.text ≡ d.pending =
        ap (remove_pending d.pending) e
        ∙ remove-absent n d.generation n d.pending waiting (omega arith) in
      let p : Pending = record { kind = kind; generation = d.generation } in
      let inserted : messages (insert_pending d.pending id.text p)
          ≡ is_message kind + messages d.pending =
        ap (λ ps. is_message kind + messages ps) absent in
      elim (Bool-cases (t.takes request)) [
        | inl hit ↦ rw hit (omega (arith, inserted), omega arith)
        | inr miss ↦ rw miss (omega (arith, removed_again id.text p d.pending absent), omega arith)
      ]

  -- A message waits once it has been sent, and not before.
  pub messages-dispatch :
      (t : Turn) (request : TlcpRequest) (id : RequestId) (kind : PendingKind) (d : SessionDriver)
      → Drawn id d
      → (let (d', events, sent) = dispatch t request id kind d in
          (messages d'.pending ≡ messages d.pending + if_sent sent (is_message kind))
          × (reported events ≡ 0))
  unfolding dispatch
  messages-dispatch t request id kind d drawn =
      messages-dispatch_encoded t request id kind d
        (encode_parameters t.json request (control_kind d)) drawn
