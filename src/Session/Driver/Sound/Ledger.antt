-- ===== src/Session/Driver/Sound/Ledger.antt =====
-- The numbers of control requests after a request has been sent.
use lightstreamer_rs.Base.{
  ℕ, suc, ◌<◌, ◌≡◌, refl, arith, Bool, true, false, Option, none, some, List, [], ◌∷◌, inl, inr,
  Bool-cases, Result, ok, err, checked_add, usize_mod,
}
use lightstreamer_rs.Text.{Text}
use lightstreamer_rs.Text.Numbers.{decimal}
use lightstreamer_rs.Protocol.Errors.{ProtocolError}
use lightstreamer_rs.Protocol.Parameters.{ParameterLine}
use lightstreamer_rs.Protocol.Requests.{RequestId}
use lightstreamer_rs.Protocol.TlcpRequest.{TlcpRequest, encode_parameters}
use lightstreamer_rs.Session.Events.{SubscriptionOperation}
use lightstreamer_rs.Session.Pending.{PendingKind, Pending, insert_pending}
use lightstreamer_rs.Session.Registry.{Registry, RegistryEntry, allocate, get}
use lightstreamer_rs.Session.Driver.{SessionDriver}
use lightstreamer_rs.Session.Driver.Dispatch.{
  Turn, Stepped, next_request_id, drawn_as, dispatch, dispatch_encoded, control_kind,
}
use lightstreamer_rs.Session.Driver.Issue.{
  subscribe_request, issued_as, issue_with, issue_entry, issue_numbered, issue_in,
  issue_subscription, issue_all, issue_unbound_subscriptions, unbound_keys, bind_entry,
}
use lightstreamer_rs.Session.Driver.Commands.{request_about}
use lightstreamer_rs.Session.Driver.Sound.Numbers.{
  request_id_of, ids, Numbered, Waiting, IsTracked, Numbered-weaken, Waiting-weaken, Waiting-remove,
}

-- A number has been drawn for a request, and not used yet.
abbrev pub Drawn : RequestId → SessionDriver → Type 0
Drawn id d =
    (n : ℕ) × (id.text ≡ decimal n)
    × (d.next_request_id ≡ suc n)
    × Numbered n (ids d.transport.taken)
    × Waiting n d.generation d.pending

abbrev pub IsDrawn : SessionDriver × Option RequestId → Type 0
IsDrawn (d, none) = IsTracked d
IsDrawn (d, some id) = Drawn id d

IsDrawn-drawn_as :
    (d : SessionDriver) (o : Option ℕ)
    → ((next : ℕ) → o ≡ some next → next ≡ suc d.next_request_id)
    → IsTracked d
    → IsDrawn (drawn_as d o)
IsDrawn-drawn_as d none succ h = h
IsDrawn-drawn_as d (some next) succ (sent, waiting) =
    (d.next_request_id, refl, succ next refl, sent, waiting)

checked_add-suc : (n next : ℕ) → checked_add usize_mod n 1 ≡ some next → next ≡ suc n
checked_add-suc n next h = ground arith

pub IsDrawn-next_request_id : (d : SessionDriver) → IsTracked d → IsDrawn (next_request_id d)
unfolding next_request_id
IsDrawn-next_request_id d h =
    IsDrawn-drawn_as d (checked_add usize_mod d.next_request_id 1)
      (checked_add-suc d.next_request_id) h

Drawn-IsTracked : (id : RequestId) (d : SessionDriver) → Drawn id d → IsTracked d
Drawn-IsTracked id d (n, e, next, sent, waiting) = (
  Numbered-weaken n d.next_request_id (ids d.transport.taken) (omega arith) sent,
  Waiting-weaken n d.next_request_id d.generation d.pending (omega arith) waiting,
)

IsTracked-dispatch_encoded :
    (t : Turn) (request : TlcpRequest) (id : RequestId) (kind : PendingKind) (d : SessionDriver)
    (encoded : Result ProtocolError ParameterLine)
    → request_id_of request ≡ some id
    → Drawn id d
    → IsTracked (dispatch_encoded t request id kind d encoded).0
unfolding insert_pending
IsTracked-dispatch_encoded t request id kind d (err error) own drawn = Drawn-IsTracked id d drawn
IsTracked-dispatch_encoded t request id kind d (ok parameters) own (n, e, next, sent, waiting) =
    let rest = Waiting-remove n d.generation d.pending id.text waiting in
    let lt : n < d.next_request_id = omega arith in
    let p : Pending = record { kind = kind; generation = d.generation } in
    let inserted : Waiting d.next_request_id d.generation (insert_pending d.pending id.text p) =
      (n, e, lt, refl, rest) in
    elim (Bool-cases (t.takes request)) [
      | inl hit ↦ rw (hit, own) ((n, e, lt, sent), inserted)
      | inr miss ↦ rw miss (
        Numbered-weaken n d.next_request_id (ids d.transport.taken) (omega arith) sent,
        Waiting-remove d.next_request_id d.generation (insert_pending d.pending id.text p) id.text
            inserted,
      )
    ]

pub IsTracked-dispatch :
    (t : Turn) (request : TlcpRequest) (id : RequestId) (kind : PendingKind) (d : SessionDriver)
    → request_id_of request ≡ some id
    → Drawn id d
    → IsTracked (dispatch t request id kind d).0
unfolding dispatch
IsTracked-dispatch t request id kind d own drawn =
    IsTracked-dispatch_encoded t request id kind d
      (encode_parameters t.json request (control_kind d)) own drawn

IsTracked-issued_as :
    (key sub_id : ℕ) (entry : RegistryEntry) (sent : Stepped Bool)
    → IsTracked sent.0
    → IsTracked (issued_as key sub_id entry sent).0
IsTracked-issued_as key sub_id entry (d, events, true) h = h
IsTracked-issued_as key sub_id entry (d, events, false) h = h

IsTracked-issue_with :
    (t : Turn) (session : Text) (key sub_id : ℕ) (entry : RegistryEntry)
    (numbered : SessionDriver × Option RequestId)
    → IsDrawn numbered
    → IsTracked (issue_with t session key sub_id entry numbered).0
IsTracked-issue_with t session key sub_id entry (d, none) h = h
IsTracked-issue_with t session key sub_id entry (d, some id) h =
    let request = subscribe_request session id sub_id entry.spec in
    IsTracked-issued_as key sub_id entry (dispatch t request id (PendingKind.subscribe key) d)
      (IsTracked-dispatch t request id (PendingKind.subscribe key) d refl h)

IsTracked-issue_entry :
    (t : Turn) (session : Text) (key sub_id : ℕ) (d : SessionDriver) (o : Option RegistryEntry)
    → IsTracked d
    → IsTracked (issue_entry t session key sub_id d o).0
IsTracked-issue_entry t session key sub_id d none h = h
IsTracked-issue_entry t session key sub_id d (some entry) h =
    let d' : SessionDriver = record d { registry = bind_entry d.registry key sub_id entry } in
    IsTracked-issue_with t session key sub_id entry (next_request_id d')
      (IsDrawn-next_request_id d' h)

IsTracked-issue_numbered :
    (t : Turn) (session : Text) (key : ℕ) (d : SessionDriver) (a : Registry × Option ℕ)
    → IsTracked d
    → IsTracked (issue_numbered t session key d a).0
IsTracked-issue_numbered t session key d (r, none) h = h
IsTracked-issue_numbered t session key d (r, some sub_id) h =
    IsTracked-issue_entry t session key sub_id (record d { registry = r }) (get r.entries key) h

IsTracked-issue_in :
    (t : Turn) (key : ℕ) (d : SessionDriver) (session : Option Text)
    → IsTracked d
    → IsTracked (issue_in t key d session).0
IsTracked-issue_in t key d none h = h
IsTracked-issue_in t key d (some session) h =
    IsTracked-issue_numbered t session key d (allocate d.registry) h

pub IsTracked-issue_subscription :
    (t : Turn) (key : ℕ) (d : SessionDriver)
    → IsTracked d
    → IsTracked (issue_subscription t key d).0
unfolding issue_subscription
IsTracked-issue_subscription t key d h = IsTracked-issue_in t key d d.session h

IsTracked-issue_all :
    (t : Turn) (keys : List ℕ) (d : SessionDriver) → IsTracked d → IsTracked (issue_all t keys d).0
unfolding issue_all
IsTracked-issue_all t [] d h = h
IsTracked-issue_all t (key ∷ keys) d h =
    IsTracked-issue_all t keys (issue_subscription t key d).0
      (IsTracked-issue_subscription t key d h)

pub IsTracked-issue_unbound :
    (t : Turn) (d : SessionDriver) → IsTracked d → IsTracked (issue_unbound_subscriptions t d).0
unfolding issue_unbound_subscriptions
IsTracked-issue_unbound t d h = IsTracked-issue_all t (unbound_keys d.registry.entries) d h

pub IsTracked-request_about :
    (t : Turn) (key : ℕ) (operation : SubscriptionOperation) (kind : PendingKind)
    (request : RequestId → TlcpRequest) (numbered : SessionDriver × Option RequestId)
    → ((id : RequestId) → request_id_of (request id) ≡ some id)
    → IsDrawn numbered
    → IsTracked (request_about t key operation kind request numbered).0
IsTracked-request_about t key operation kind request (d, none) own h = h
IsTracked-request_about t key operation kind request (d, some id) own h =
    IsTracked-dispatch t (request id) id kind d (own id) h
