-- ===== src/Session/Driver/Drive/Examples.antt =====
-- The loop of the driver in concrete runs.
use lightstreamer_rs.Base.{
  ℕ, zero, suc, ◌+◌, ◌≡◌, refl, ap, sym, ◌∙◌, arith, inl, inr, true, false, Option, none, some, [],
  ◌∷◌, ◌++◌, codes, ok,
}
use lightstreamer_rs.Protocol.Notifications.{MessageSequence, unspecified}
use lightstreamer_rs.Text.Numbers.{decimal, pos}
use lightstreamer_rs.Protocol.Control.{validate_subscribe}
use lightstreamer_rs.Session.Outcomes.{ServerCause}
use lightstreamer_rs.Session.Pending.{PendingKind}
use lightstreamer_rs.Session.Registry.{get, pending, removing}
use lightstreamer_rs.Session.Registry.Entries.{decide-eq}
use lightstreamer_rs.Session.Driver.{SessionDriver, begin_opening}
use lightstreamer_rs.Session.Driver.Examples.{
  options, quotes, issued, subscribed, IsLinked-subscribed,
}
use lightstreamer_rs.Session.Driver.Dispatch.{Turn, Stepped}
use lightstreamer_rs.Session.Driver.Commands.{SessionCommand, numbered}
use lightstreamer_rs.Session.Driver.Turns.{line, command}
use lightstreamer_rs.Session.Driver.Binding.{on_conok}
use lightstreamer_rs.Session.Driver.Answers.{on_request_ok, on_request_error}
use lightstreamer_rs.Session.Driver.Opening.{TransportProperties, new_driver}
use lightstreamer_rs.Session.Driver.Drive.{
  Phase, waiting, established, Input, woke, waited, step, first, Reach, start, next,
}
use lightstreamer_rs.Session.Driver.Sound.{IsSound}
use lightstreamer_rs.Session.Driver.Sound.Numbers.{IsTracked}
use lightstreamer_rs.Session.Driver.Sound.Frames.{IsKept}
use lightstreamer_rs.Session.Driver.Sound.Always.{IsKept-Reach}
use lightstreamer_rs.Session.Driver.Messages.{messages, reported}
use lightstreamer_rs.Session.Driver.Messages.Totals.{all_acked, all_taken_up, messages-Reach}
use lightstreamer_rs.Session.Driver.Late.{answers_late}
use lightstreamer_rs.Session.Driver.Restore.Requests.{sample}
use lightstreamer_rs.Session.Driver.Restore.{IsRestored, on_conok-restores}

-- A WebSocket that takes every request, at one instant.
abbrev socket : TransportProperties
socket = record { is_polling = false; ends_on_content_length = false; control_shares_stream = true }

abbrev turn : Turn
turn = record {
  now = 0;
  takes = λ request. true;
  json = none;
  instant_add = λ instant duration. some (instant + duration);
}

abbrev after : Stepped Phase → Input → Stepped Phase
after s i = let s' = step turn i s.2 s.0 in (s'.0, s.1 ++ s'.1, s'.2)

abbrev Reached : Stepped Phase → Type 0
Reached s = Reach socket options s.2 s.0 s.1

-- A subscription is asked for before the session is bound, and a message is sent after that and
-- acknowledged.
abbrev began : Stepped Phase
began = (new_driver socket options 7 0, [], waiting first)

abbrev opened : Stepped Phase
opened = after began (waited established)

abbrev subscribing : Input
subscribing = woke (command (SessionCommand.subscribe 5 quotes))

abbrev connection_ok : Input
connection_ok = woke (line (codes "CONOK,S1,50000,5000,*"))

abbrev sending : Input
sending = woke (command (SessionCommand.send_message (numbered (codes "hello") 1)))

abbrev acknowledging : Input
acknowledging = woke (line (codes "REQOK,2"))

abbrev asked_for : Stepped Phase
asked_for = after opened subscribing

abbrev connected : Stepped Phase
connected = after asked_for connection_ok

abbrev sent : Stepped Phase
sent = after connected sending

abbrev answered : Stepped Phase
answered = after sent acknowledging

empty_at_first : get opened.0.registry.entries 5 ≡ none
unfolding step new_driver begin_opening get
empty_at_first = refl

abbrev to_answered : Reached answered
to_answered =
    next turn acknowledging
      (next turn sending
        (next turn connection_ok
          (next turn subscribing (next turn (waited established) (start 7 0) tt) empty_at_first) tt)
        tt)
      tt

IsKept-Reach_example : IsKept answered.0
IsKept-Reach_example = IsKept-Reach socket options answered.2 answered.0 answered.1 to_answered

-- The messages with the number 1 that no sequence holds.
abbrev is_first : MessageSequence → Option ℕ → ℕ
is_first unspecified (some (suc zero)) = 1
is_first sequence prog = 0

messages-Reach_example :
    messages is_first answered.0.pending
      + reported is_first answered.1
      + all_acked is_first to_answered
    ≡ all_taken_up is_first to_answered
messages-Reach_example =
    messages-Reach is_first socket options answered.2 answered.0 answered.1 to_answered

-- A session in which a request waits for its answer, and another session after it.
abbrev asking : SessionDriver
asking = record subscribed {
  pending = (codes "1", record { kind = PendingKind.subscribe 5; generation = 1 }) ∷ [];
  next_request_id = 2;
}

abbrev refusal : ServerCause
refusal = record { code = pos 19; message = codes "no" }

IsTracked-asking : IsTracked asking
unfolding decimal
IsTracked-asking = (tt, (1, refl, omega arith, refl, tt))

answers_late_example :
    (let d' = (on_conok turn asking (codes "S2") 50000 5000000000 none).0 in
      ((on_request_ok d' (some (decimal 1))).0 ≡ d')
      × ((on_request_error d' (decimal 1) refusal).0 ≡ d'))
answers_late_example =
    answers_late turn asking (codes "S2") 50000 5000000000 none 1 refusal IsTracked-asking refl
      (omega arith) (omega arith)

IsSound-subscribed : IsSound subscribed.registry
unfolding get
IsSound-subscribed = record {
  linked = IsLinked-subscribed;
  held = λ key sub_id entry found wire. elim (decide-eq key 5) [
    | inl e ↦
        let same : entry ≡ issued = ground arith in
        let number : sub_id ≡ 1 =
          (let held : some 1 ≡ some sub_id = ap (λ v. v.wire) (sym same) ∙ wire in cc) in
        rw (number, e) refl
    | inr ne ↦ ground arith
  ];
  ordered = (tt, tt);
}

IsValidSpec-quotes : validate_subscribe (sample quotes) ≡ ok tt
unfolding validate_subscribe
IsValidSpec-quotes = refl

on_conok-restores_example :
    IsRestored
      (codes "S2")
      asking
      (on_conok turn asking (codes "S2") 50000 5000000000 none).0
      5
      quotes
unfolding get
on_conok-restores_example =
    on_conok-restores turn (λ request. refl) asking (codes "S2") 50000 5000000000 none refl
      IsSound-subscribed (IsValidSpec-quotes, tt) (omega arith) (omega arith) 5 issued refl
      (λ e. (let no : pending ≡ removing = e in cc))

-- The message was acknowledged, two requests were numbered, and the subscription has the first number.
abbrev outcome : ℕ × ℕ × ℕ × Option ℕ
outcome = (
  messages is_first answered.0.pending,
  all_acked is_first to_answered,
  answered.0.next_request_id,
  get answered.0.registry.by_sub_id 1,
)
