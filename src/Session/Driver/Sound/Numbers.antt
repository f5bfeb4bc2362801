-- ===== src/Session/Driver/Sound/Numbers.antt =====
-- The numbers of control requests: those that the transport has taken, and those that wait for an answer.
use lightstreamer_rs.Base.{
  ℕ, ◌<◌, ◌≤◌, ◌≡◌, sym, subst, arith, Option, none, some, List, [], ◌∷◌, ◌==◌, ==_iff, inl, inr,
  Bool-cases,
}
use lightstreamer_rs.Text.{Text, same_text}
use lightstreamer_rs.Text.Numbers.{decimal}
use lightstreamer_rs.Protocol.Requests.{RequestId}
use lightstreamer_rs.Protocol.TlcpRequest.{TlcpRequest}
use lightstreamer_rs.Session.Pending.{Pendings, remove_pending, current}
use lightstreamer_rs.Session.Driver.{SessionDriver}

abbrev pub request_id_of : TlcpRequest → Option RequestId
request_id_of (TlcpRequest.create_session r) = none
request_id_of (TlcpRequest.bind_session r) = none
request_id_of (TlcpRequest.subscribe r) = some r.request_id
request_id_of (TlcpRequest.unsubscribe r) = some r.request_id
request_id_of (TlcpRequest.reconfigure_subscription r) = some r.request_id
request_id_of (TlcpRequest.constrain_session r) = some r.request_id
request_id_of (TlcpRequest.force_rebind r) = some r.request_id
request_id_of (TlcpRequest.destroy_session r) = some r.request_id
request_id_of (TlcpRequest.message_send r) = some r.request_id
request_id_of (TlcpRequest.heartbeat r) = none

abbrev pub with_id : Option RequestId → List Text → List Text
with_id none ids = ids
with_id (some id) ids = id.text ∷ ids

-- The numbers of the requests, as they were written.
abbrev pub ids : List TlcpRequest → List Text
ids [] = []
ids (r ∷ rs) = with_id (request_id_of r) (ids rs)

-- Numbers below a bound, each below the one before it.
abbrev pub Numbered : ℕ → List Text → Type 0
Numbered next [] = Unit
Numbered next (id ∷ is) = (n : ℕ) × (id ≡ decimal n) × (n < next) × Numbered n is

-- Requests of one generation, with such numbers.
abbrev pub Waiting : (next generation : ℕ) → Pendings → Type 0
Waiting next generation [] = Unit
Waiting next generation ((id, p) ∷ ps) =
    (n : ℕ) × (id ≡ decimal n) × (n < next) × (p.generation ≡ generation) × Waiting n generation ps

abbrev pub IsTracked : SessionDriver → Type 0
IsTracked d =
    Numbered d.next_request_id (ids d.transport.taken)
    × Waiting d.next_request_id d.generation d.pending

-- The part of the driver that this is about.
abbrev pub ledger : SessionDriver → Pendings × ℕ × ℕ × List Text
ledger d = (d.pending, d.generation, d.next_request_id, ids d.transport.taken)

pub IsTracked-ledger : (d d' : SessionDriver) → ledger d' ≡ ledger d → IsTracked d → IsTracked d'
IsTracked-ledger d d' e h =
    subst (λ (l : Pendings × ℕ × ℕ × List Text). Numbered l.2 l.3 × Waiting l.2 l.1 l.0) (sym e) h

pub Numbered-weaken : (m n : ℕ) (is : List Text) → m ≤ n → Numbered m is → Numbered n is
Numbered-weaken m n [] le h = tt
Numbered-weaken m n (i ∷ is) le (k, e, lt, h) = (k, e, omega arith, h)

pub Waiting-weaken :
    (m n generation : ℕ) (ps : Pendings) → m ≤ n → Waiting m generation ps → Waiting n generation ps
Waiting-weaken m n generation [] le h = tt
Waiting-weaken m n generation ((id, p) ∷ ps) le (k, e, lt, same, h) = (k, e, omega arith, same, h)

pub Waiting-remove :
    (next generation : ℕ) (ps : Pendings) (id : Text)
    → Waiting next generation ps
    → Waiting next generation (remove_pending ps id)
unfolding remove_pending
Waiting-remove next generation [] id h = tt
Waiting-remove next generation ((i, p) ∷ ps) id (n, e, lt, same, h) =
    let rest = Waiting-remove n generation ps id h in
    elim (Bool-cases (same_text i id)) [
      | inl hit ↦
          rw hit (Waiting-weaken n next generation (remove_pending ps id) (omega arith) rest)
      | inr miss ↦ rw miss (n, e, lt, same, rest)
    ]

-- Those that a generation keeps are all of it.
pub Waiting-current :
    (next generation now : ℕ) (ps : Pendings)
    → Waiting next generation ps
    → Waiting next now (current ps now)
unfolding current
Waiting-current next generation now [] h = tt
Waiting-current next generation now ((i, p) ∷ ps) (n, e, lt, same, h) =
    let rest = Waiting-current n generation now ps h in
    elim (Bool-cases (p.generation == now)) [
      | inl hit ↦ rw hit (n, e, lt, (==_iff p.generation now).0 hit, rest)
      | inr miss ↦ rw miss (Waiting-weaken n next now (current ps now) (omega arith) rest)
    ]
