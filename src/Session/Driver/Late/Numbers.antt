-- ===== src/Session/Driver/Late/Numbers.antt =====
-- Requests that have numbers from some number on.
use lightstreamer_rs.Base.{
  ℕ, ◌<◌, ◌≤◌, ◌≡◌, refl, sym, ap, ◌∙◌, arith, Bool, true, false, Option, none, some, List, [], ◌∷◌,
  Bool-cases, inl, inr, Result, ok, err,
}
use lightstreamer_rs.Text.{Text, same_text, same_text-ne}
use lightstreamer_rs.Text.Numbers.{decimal}
use lightstreamer_rs.Protocol.Errors.{ProtocolError}
use lightstreamer_rs.Protocol.Parameters.{ParameterLine}
use lightstreamer_rs.Protocol.Requests.{RequestId}
use lightstreamer_rs.Protocol.TlcpRequest.{TlcpRequest, encode_parameters}
use lightstreamer_rs.Session.Pending.{
  PendingKind, Pending, Pendings, find_pending, remove_pending, insert_pending,
}
use lightstreamer_rs.Session.Registry.{Registry, RegistryEntry, allocate, get}
use lightstreamer_rs.Session.Driver.{SessionDriver}
use lightstreamer_rs.Session.Driver.Dispatch.{
  Turn, Stepped, next_request_id, drawn_as, dispatch, dispatch_encoded, control_kind,
}
use lightstreamer_rs.Session.Driver.Issue.{
  subscribe_request, issued_as, issue_with, issue_entry, issue_numbered, issue_in,
  issue_subscription, issue_all, issue_unbound_subscriptions, unbound_keys, bind_entry,
}
use lightstreamer_rs.Session.Driver.Messages.{decimal-injective}

-- The requests that wait have numbers from here on.
abbrev pub Since : ℕ → Pendings → Type 0
Since from [] = Unit
Since from ((id, p) ∷ ps) = (n : ℕ) × (id ≡ decimal n) × (from ≤ n) × Since from ps

abbrev pub IsSince : ℕ → SessionDriver → Type 0
IsSince from d = (from ≤ d.next_request_id) × Since from d.pending

Since-remove :
    (from : ℕ) (ps : Pendings) (id : Text) → Since from ps → Since from (remove_pending ps id)
unfolding remove_pending
Since-remove from [] id h = tt
Since-remove from ((i, p) ∷ ps) id (n, e, le, h) = elim (Bool-cases (same_text i id)) [
  | inl hit ↦ rw hit (Since-remove from ps id h)
  | inr miss ↦ rw miss (n, e, le, Since-remove from ps id h)
]

-- An earlier number is not among them.
pub find-earlier :
    (from n : ℕ) (ps : Pendings)
    → n < from
    → Since from ps
    → (find_pending ps (decimal n) ≡ none) × (remove_pending ps (decimal n) ≡ ps)
unfolding find_pending remove_pending
find-earlier from n [] lt h = (refl, refl)
find-earlier from n ((i, p) ∷ ps) lt (k, e, le, h) =
    let miss : same_text i (decimal n) ≡ false =
      same_text-ne i (decimal n)
        (λ q. let equal = decimal-injective k n (sym e ∙ q) in absurd (omega arith)) in
    let (absent, kept) = find-earlier from n ps lt h in
    rw miss (absent, ap (λ rest. (i, p) ∷ rest) kept)

abbrev pub IsDrawnSince : ℕ → SessionDriver × Option RequestId → Type 0
IsDrawnSince from (d, none) = IsSince from d
IsDrawnSince from (d, some id) = IsSince from d × ((n : ℕ) × (id.text ≡ decimal n) × (from ≤ n))

IsDrawnSince-drawn_as :
    (from : ℕ) (d : SessionDriver) (o : Option ℕ)
    → ((next : ℕ) → o ≡ some next → d.next_request_id ≤ next)
    → IsSince from d
    → IsDrawnSince from (drawn_as d o)
IsDrawnSince-drawn_as from d none grows h = h
IsDrawnSince-drawn_as from d (some next) grows (le, h) =
    let up = grows next refl in ((omega arith, h), (d.next_request_id, refl, le))

IsDrawnSince-next_request_id :
    (from : ℕ) (d : SessionDriver) → IsSince from d → IsDrawnSince from (next_request_id d)
unfolding next_request_id
IsDrawnSince-next_request_id from d h = IsDrawnSince-drawn_as from d _ (λ next e. ground arith) h

module _ (t : Turn) (from : ℕ) where
  IsSince-dispatch_encoded :
      (request : TlcpRequest) (id : RequestId) (kind : PendingKind) (d : SessionDriver)
      (encoded : Result ProtocolError ParameterLine)
      → IsDrawnSince from (d, some id)
      → IsSince from (dispatch_encoded t request id kind d encoded).0
  unfolding insert_pending
  IsSince-dispatch_encoded request id kind d (err error) (h, own) = h
  IsSince-dispatch_encoded request id kind d (ok parameters) ((le, h), (n, e, at)) =
      let p : Pending = record { kind = kind; generation = d.generation } in
      let inserted : Since from (insert_pending d.pending id.text p) =
        (n, e, at, Since-remove from d.pending id.text h) in
      elim (Bool-cases (t.takes request)) [
        | inl hit ↦ rw hit (le, inserted)
        | inr miss ↦
            rw miss (le, Since-remove from (insert_pending d.pending id.text p) id.text inserted)
      ]

  IsSince-dispatch :
      (request : TlcpRequest) (id : RequestId) (kind : PendingKind) (d : SessionDriver)
      → IsDrawnSince from (d, some id)
      → IsSince from (dispatch t request id kind d).0
  unfolding dispatch
  IsSince-dispatch request id kind d h =
      IsSince-dispatch_encoded request id kind d (encode_parameters t.json request (control_kind d))
        h

  IsSince-issued_as :
      (key sub_id : ℕ) (entry : RegistryEntry) (sent : Stepped Bool)
      → IsSince from sent.0
      → IsSince from (issued_as key sub_id entry sent).0
  IsSince-issued_as key sub_id entry (d, events, true) h = h
  IsSince-issued_as key sub_id entry (d, events, false) h = h

  IsSince-issue_with :
      (session : Text) (key sub_id : ℕ) (entry : RegistryEntry)
      (numbered : SessionDriver × Option RequestId)
      → IsDrawnSince from numbered
      → IsSince from (issue_with t session key sub_id entry numbered).0
  IsSince-issue_with session key sub_id entry (d, none) h = h
  IsSince-issue_with session key sub_id entry (d, some id) h =
      let request = subscribe_request session id sub_id entry.spec in
      IsSince-issued_as key sub_id entry (dispatch t request id (PendingKind.subscribe key) d)
        (IsSince-dispatch request id (PendingKind.subscribe key) d h)

  IsSince-issue_entry :
      (session : Text) (key sub_id : ℕ) (d : SessionDriver) (o : Option RegistryEntry)
      → IsSince from d
      → IsSince from (issue_entry t session key sub_id d o).0
  IsSince-issue_entry session key sub_id d none h = h
  IsSince-issue_entry session key sub_id d (some entry) h =
      let d' : SessionDriver = record d { registry = bind_entry d.registry key sub_id entry } in
      IsSince-issue_with session key sub_id entry (next_request_id d')
        (IsDrawnSince-next_request_id from d' h)

  IsSince-issue_numbered :
      (session : Text) (key : ℕ) (d : SessionDriver) (a : Registry × Option ℕ)
      → IsSince from d
      → IsSince from (issue_numbered t session key d a).0
  IsSince-issue_numbered session key d (r, none) h = h
  IsSince-issue_numbered session key d (r, some sub_id) h =
      IsSince-issue_entry session key sub_id (record d { registry = r }) (get r.entries key) h

  IsSince-issue_in :
      (key : ℕ) (d : SessionDriver) (session : Option Text)
      → IsSince from d
      → IsSince from (issue_in t key d session).0
  IsSince-issue_in key d none h = h
  IsSince-issue_in key d (some session) h =
      IsSince-issue_numbered session key d (allocate d.registry) h

  IsSince-issue_all :
      (keys : List ℕ) (d : SessionDriver) → IsSince from d → IsSince from (issue_all t keys d).0
  unfolding issue_all issue_subscription
  IsSince-issue_all [] d h = h
  IsSince-issue_all (key ∷ keys) d h =
      IsSince-issue_all keys (issue_subscription t key d).0 (IsSince-issue_in key d d.session h)

  pub IsSince-issue_unbound :
      (d : SessionDriver) → IsSince from d → IsSince from (issue_unbound_subscriptions t d).0
  unfolding issue_unbound_subscriptions
  IsSince-issue_unbound d h = IsSince-issue_all (unbound_keys d.registry.entries) d h
