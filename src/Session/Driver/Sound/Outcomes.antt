-- ===== src/Session/Driver/Sound/Outcomes.antt =====
-- What asking for one subscription makes of the registry.
use lightstreamer_rs.Base.{
  ℕ, suc, ◌≡◌, ◌⊎◌, refl, sym, ap, ◌∙◌, arith, Bool, true, false, Option, none, some, inl, inr,
  Result, ok, err,
}
use lightstreamer_rs.Text.{Text}
use lightstreamer_rs.Protocol.Errors.{ProtocolError}
use lightstreamer_rs.Protocol.Parameters.{ParameterLine}
use lightstreamer_rs.Protocol.Requests.{RequestId}
use lightstreamer_rs.Protocol.TlcpRequest.{TlcpRequest, encode_parameters}
use lightstreamer_rs.Session.Pending.{PendingKind}
use lightstreamer_rs.Session.Registry.{Registry, RegistryEntry, get, allocate}
use lightstreamer_rs.Session.Driver.{SessionDriver}
use lightstreamer_rs.Session.Driver.Dispatch.{
  Turn, Stepped, next_request_id, dispatch, dispatch_encoded, control_kind,
}
use lightstreamer_rs.Session.Driver.Issue.{
  bind_entry, release_entry, subscribe_request, issued_as, issue_with, issue_entry, issue_numbered,
  issue_in, issue_subscription,
}

-- Sending a request leaves the registry alone.
dispatch_encoded-registry :
    (t : Turn) (request : TlcpRequest) (id : RequestId) (kind : PendingKind) (d : SessionDriver)
    (encoded : Result ProtocolError ParameterLine)
    → (dispatch_encoded t request id kind d encoded).0.registry ≡ d.registry
dispatch_encoded-registry t request id kind d (err error) = refl
dispatch_encoded-registry t request id kind d (ok parameters) = ground arith

pub dispatch-registry :
    (t : Turn) (request : TlcpRequest) (id : RequestId) (kind : PendingKind) (d : SessionDriver)
    → (dispatch t request id kind d).0.registry ≡ d.registry
unfolding dispatch
dispatch-registry t request id kind d =
    dispatch_encoded-registry t request id kind d
      (encode_parameters t.json request (control_kind d))

pub next_request_id-registry : (d : SessionDriver) → (next_request_id d).0.registry ≡ d.registry
unfolding next_request_id
next_request_id-registry d = ground arith

-- What `allocate` gives out.
abbrev pub IsAllocated : Registry → Registry × Option ℕ → Type 0
IsAllocated r (r', none) = r' ≡ r
IsAllocated r (r', some sub_id) =
    (sub_id ≡ r.next_sub_id) × (r' ≡ record r { next_sub_id = suc r.next_sub_id })

IsAllocated-allocate : (r : Registry) → IsAllocated r (allocate r)
unfolding allocate
IsAllocated-allocate r = ground arith

-- The registry is as it was, or has spent a number, which the entry holds or has given back.
abbrev pub Outcome : Registry → ℕ → Registry → Type 0
Outcome r key r' =
    let spent : Registry = record r { next_sub_id = suc r.next_sub_id } in
    (r' ≡ r)
    ⊎ (r' ≡ spent)
    ⊎ ((entry : RegistryEntry) × (get r.entries key ≡ some entry)
        × ((r' ≡ bind_entry spent key r.next_sub_id entry)
            ⊎ (r' ≡ release_entry (bind_entry spent key r.next_sub_id entry) key r.next_sub_id)))

issued_as-registry :
    (key sub_id : ℕ) (entry : RegistryEntry) (sent : Stepped Bool) (r : Registry)
    → sent.0.registry ≡ r
    → ((issued_as key sub_id entry sent).0.registry ≡ r)
      ⊎ ((issued_as key sub_id entry sent).0.registry ≡ release_entry r key sub_id)
issued_as-registry key sub_id entry (d, events, true) r e = inl e
issued_as-registry key sub_id entry (d, events, false) r e =
    inr (ap (λ v. release_entry v key sub_id) e)

issue_with-registry :
    (t : Turn) (session : Text) (key sub_id : ℕ) (entry : RegistryEntry)
    (numbered : SessionDriver × Option RequestId) (r : Registry)
    → numbered.0.registry ≡ r
    → ((issue_with t session key sub_id entry numbered).0.registry ≡ r)
      ⊎ ((issue_with t session key sub_id entry numbered).0.registry ≡ release_entry r key sub_id)
issue_with-registry t session key sub_id entry (d, none) r e =
    inr (ap (λ v. release_entry v key sub_id) e)
issue_with-registry t session key sub_id entry (d, some id) r e =
    let request = subscribe_request session id sub_id entry.spec in
    issued_as-registry key sub_id entry (dispatch t request id (PendingKind.subscribe key) d) r
      (dispatch-registry t request id (PendingKind.subscribe key) d ∙ e)

issue_entry-Outcome :
    (t : Turn) (session : Text) (key sub_id : ℕ) (d : SessionDriver) (o : Option RegistryEntry)
    (r : Registry)
    → sub_id ≡ r.next_sub_id
    → d.registry ≡ record r { next_sub_id = suc r.next_sub_id }
    → get r.entries key ≡ o
    → Outcome r key (issue_entry t session key sub_id d o).0.registry
issue_entry-Outcome t session key sub_id d none r is_next spent at = inr (inl spent)
issue_entry-Outcome t session key sub_id d (some entry) r is_next spent at =
    let bound : Registry = bind_entry d.registry key sub_id entry in
    let d' : SessionDriver = record d { registry = bound } in
    let exact : bound
        ≡ bind_entry (record r { next_sub_id = suc r.next_sub_id }) key r.next_sub_id entry =
      ap (λ v. bind_entry v key sub_id entry) spent
      ∙ ap (λ n. bind_entry (record r { next_sub_id = suc r.next_sub_id }) key n entry) is_next in
    inr (
      inr (
        entry,
        at,
        elim (issue_with-registry t session key sub_id entry (next_request_id d') bound
            (next_request_id-registry d')) [
              | inl e ↦ inl (e ∙ exact)
              | inr e ↦ inr (
                  e
                  ∙ ap (λ v. release_entry v key sub_id) exact
                  ∙ ap
                      (λ n.
                        release_entry
                          (bind_entry (record r { next_sub_id = suc r.next_sub_id }) key
                            r.next_sub_id entry)
                          key n)
                      is_next)
            ],
      ))

issue_numbered-Outcome :
    (t : Turn) (session : Text) (key : ℕ) (d : SessionDriver) (a : Registry × Option ℕ)
    → IsAllocated d.registry a
    → Outcome d.registry key (issue_numbered t session key d a).0.registry
issue_numbered-Outcome t session key d (r, none) e = inl e
issue_numbered-Outcome t session key d (r, some sub_id) (is_next, e) =
    issue_entry-Outcome t session key sub_id (record d { registry = r }) (get r.entries key)
      d.registry is_next e (ap (λ v. get v.entries key) (sym e))

issue_in-Outcome :
    (t : Turn) (key : ℕ) (d : SessionDriver) (session : Option Text)
    → Outcome d.registry key (issue_in t key d session).0.registry
issue_in-Outcome t key d none = inl refl
issue_in-Outcome t key d (some session) =
    issue_numbered-Outcome t session key d (allocate d.registry) (IsAllocated-allocate d.registry)

pub issue_subscription-Outcome :
    (t : Turn) (key : ℕ) (d : SessionDriver)
    → Outcome d.registry key (issue_subscription t key d).0.registry
unfolding issue_subscription
issue_subscription-Outcome t key d = issue_in-Outcome t key d d.session
