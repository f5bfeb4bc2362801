-- ===== src/Session/Driver/Sound/Changes.antt =====
-- What CONOK, answers and commands make of the registry.
use lightstreamer_rs.Base.{
  ℕ, ◌≡◌, refl, sym, ap, subst, ◌∙◌, Bool, true, false, Option, none, some, inl, inr, Option-cases,
}
use lightstreamer_rs.Text.{Text}
use lightstreamer_rs.Protocol.Requests.{RequestId}
use lightstreamer_rs.Protocol.TlcpRequest.{TlcpRequest}
use lightstreamer_rs.Session.Time.{Duration}
use lightstreamer_rs.Session.Events.{SubscriptionOperation}
use lightstreamer_rs.Session.Outcomes.{ServerCause}
use lightstreamer_rs.Session.Pending.{PendingKind, send_message, force_rebind, destroy}
use lightstreamer_rs.Session.Registry.{
  Registry, RegistryEntry, SubscriptionSpec, get, remove, removing,
}
use lightstreamer_rs.Session.Registry.Entries.{get-insert_same}
use lightstreamer_rs.Session.Driver.{SessionDriver, StreamState, establishing, bound}
use lightstreamer_rs.Session.Driver.Dispatch.{Turn, next_request_id}
use lightstreamer_rs.Session.Driver.Issue.{with_entry}
use lightstreamer_rs.Session.Driver.Binding.{
  start_session, retire_stale_pending, bound_to, on_conok, kind_of, is_fresh,
}
use lightstreamer_rs.Session.Driver.Answers.{
  take_pending, accept, with_frequency, on_request_ok, without_number, drop_entry, kept_entry,
  refuse, on_request_error,
}
use lightstreamer_rs.Session.Driver.Commands.{
  added, new_entry, issue_if_bound, request_about, unsubscribe_in, unsubscribe_wire,
  unsubscribe_key,
}
use lightstreamer_rs.Session.Driver.Sound.{
  IsSound, IsSound-replace, IsSound-remove, IsSound-drop, IsSound-insert, IsSound-reset,
}
use lightstreamer_rs.Session.Driver.Sound.Outcomes.{dispatch-registry, next_request_id-registry}
use lightstreamer_rs.Session.Driver.Sound.Issuing.{
  IsSound-issue_subscription, IsSound-issue_unbound,
}

IsSound-start_session :
    (d : SessionDriver) (fresh : Bool)
    → IsSound d.registry
    → IsSound (start_session d fresh).0.registry
unfolding retire_stale_pending
IsSound-start_session d true s = IsSound-reset d.registry s
IsSound-start_session d false s = s

pub IsSound-on_conok :
    (t : Turn) (d : SessionDriver) (session_id : Text) (limit : ℕ) (keep_alive : Duration)
    (control_link : Option Text)
    → IsSound d.registry
    → IsSound (on_conok t d session_id limit keep_alive control_link).0.registry
unfolding on_conok
IsSound-on_conok t d session_id limit keep_alive control_link s =
    let d' = bound_to t d session_id keep_alive control_link in
    let fresh = is_fresh (kind_of d session_id) in
    IsSound-issue_unbound t (start_session d' fresh).0 (IsSound-start_session d' fresh s)

-- A write to an entry that leaves its number.
IsSound-with_entry :
    (r : Registry) (key : ℕ) (write : RegistryEntry → RegistryEntry)
    → ((entry : RegistryEntry) → (write entry).wire ≡ entry.wire)
    → IsSound r
    → IsSound (record r { entries = with_entry r.entries key write })
IsSound-with_entry r key write keeps s = elim (Option-cases (get r.entries key)) [
  | inl e ↦ rw e s
  | inr (entry, e) ↦ rw e (IsSound-replace r key entry s e (write entry) (keeps entry))
]

IsSound-accept :
    (d : SessionDriver) (kind : Option PendingKind)
    → IsSound d.registry
    → IsSound (accept (d, kind)).registry
IsSound-accept d none s = s
IsSound-accept d (some (PendingKind.reconfigure key limit)) s =
    IsSound-with_entry d.registry key (with_frequency limit) (λ entry. refl) s
IsSound-accept d (some (PendingKind.subscribe key)) s = s
IsSound-accept d (some (PendingKind.unsubscribe key)) s = s
IsSound-accept d (some (send_message sequence prog)) s = s
IsSound-accept d (some force_rebind) s = s
IsSound-accept d (some destroy) s = s

pub IsSound-on_request_ok :
    (d : SessionDriver) (id : Option Text)
    → IsSound d.registry
    → IsSound (on_request_ok d id).0.registry
unfolding on_request_ok
IsSound-on_request_ok d none s = s
IsSound-on_request_ok d (some id) s = let (d', kind) = take_pending d id in IsSound-accept d' kind s

IsSound-without_number :
    (r : Registry) (key : ℕ) (entry : RegistryEntry) (wire : Option ℕ)
    → IsSound r
    → get r.entries key ≡ some entry
    → entry.wire ≡ wire
    → IsSound
        (record r { entries = remove r.entries key; by_sub_id = without_number r.by_sub_id wire })
IsSound-without_number r key entry none s at w = IsSound-drop r key entry s at w
IsSound-without_number r key entry (some sub_id) s at w = IsSound-remove r key entry s at sub_id w

IsSound-drop_entry :
    (r : Registry) (key : ℕ) → IsSound r → IsSound (drop_entry r key (get r.entries key))
IsSound-drop_entry r key s = elim (Option-cases (get r.entries key)) [
  | inl e ↦ rw e s
  | inr (entry, e) ↦ rw e (IsSound-without_number r key entry entry.wire s e refl)
]

IsSound-refuse :
    (cause : ServerCause) (d : SessionDriver) (kind : Option PendingKind)
    → IsSound d.registry
    → IsSound (refuse cause d kind).0.registry
IsSound-refuse cause d none s = s
IsSound-refuse cause d (some (PendingKind.subscribe key)) s = IsSound-drop_entry d.registry key s
IsSound-refuse cause d (some (PendingKind.unsubscribe key)) s =
    IsSound-with_entry d.registry key kept_entry (λ entry. refl) s
IsSound-refuse cause d (some (PendingKind.reconfigure key limit)) s = s
IsSound-refuse cause d (some (send_message sequence prog)) s = s
IsSound-refuse cause d (some force_rebind) s = s
IsSound-refuse cause d (some destroy) s = s

pub IsSound-on_request_error :
    (d : SessionDriver) (id : Text) (cause : ServerCause)
    → IsSound d.registry
    → IsSound (on_request_error d id cause).0.registry
unfolding on_request_error
IsSound-on_request_error d id cause s =
    let (d', kind) = take_pending d id in IsSound-refuse cause d' kind s

IsSound-issue_if_bound :
    (t : Turn) (key : ℕ) (d : SessionDriver) (spec : SubscriptionSpec) (state : StreamState)
    → IsSound d.registry
    → get d.registry.entries key ≡ some (new_entry spec)
    → IsSound (issue_if_bound t key d state).0.registry
IsSound-issue_if_bound t key d spec establishing s at = s
IsSound-issue_if_bound t key d spec bound s at =
    IsSound-issue_subscription t key d s (λ entry found.
      let both : some entry ≡ some (new_entry spec) = sym found ∙ at in
      let same : entry ≡ new_entry spec = cc in ap (λ v. v.wire) same)

pub IsSound-subscribe :
    (t : Turn) (key : ℕ) (spec : SubscriptionSpec) (d : SessionDriver)
    → IsSound d.registry
    → get d.registry.entries key ≡ none
    → IsSound (let d' = added d key spec in issue_if_bound t key d' d'.stream_state).0.registry
IsSound-subscribe t key spec d s absent =
    let d' : SessionDriver = added d key spec in
    IsSound-issue_if_bound t key d' spec d'.stream_state
      (IsSound-insert d.registry key (new_entry spec) s absent refl)
      (get-insert_same d.registry.entries key (new_entry spec))

request_about-registry :
    (t : Turn) (key : ℕ) (operation : SubscriptionOperation) (kind : PendingKind)
    (request : RequestId → TlcpRequest) (numbered : SessionDriver × Option RequestId)
    → (request_about t key operation kind request numbered).0.registry ≡ numbered.0.registry
request_about-registry t key operation kind request (d, none) = refl
request_about-registry t key operation kind request (d, some id) =
    dispatch-registry t (request id) id kind d

IsSound-unsubscribe_in :
    (t : Turn) (key sub_id : ℕ) (d : SessionDriver) (session : Option Text)
    → IsSound d.registry
    → IsSound (unsubscribe_in t key sub_id d session).0.registry
IsSound-unsubscribe_in t key sub_id d none s = s
IsSound-unsubscribe_in t key sub_id d (some session) s =
    subst IsSound
      (sym (
        request_about-registry t key SubscriptionOperation.unsubscribe (PendingKind.unsubscribe key)
          _ (next_request_id d)
        ∙ next_request_id-registry d))
      s

IsSound-unsubscribe_wire :
    (t : Turn) (key : ℕ) (d : SessionDriver) (entry : RegistryEntry) (wire : Option ℕ)
    → IsSound d.registry
    → get d.registry.entries key ≡ some entry
    → entry.wire ≡ wire
    → IsSound (unsubscribe_wire t key d entry wire).0.registry
IsSound-unsubscribe_wire t key d entry none s at w = IsSound-drop d.registry key entry s at w
IsSound-unsubscribe_wire t key d entry (some sub_id) s at w =
    IsSound-unsubscribe_in t key sub_id _ d.session
      (IsSound-replace d.registry key entry s at (record entry { state = removing }) refl)

pub IsSound-unsubscribe_key :
    (t : Turn) (key : ℕ) (d : SessionDriver)
    → IsSound d.registry
    → IsSound (unsubscribe_key t key d).0.registry
unfolding unsubscribe_key
IsSound-unsubscribe_key t key d s = elim (Option-cases (get d.registry.entries key)) [
  | inl e ↦ rw e s
  | inr (entry, e) ↦ rw e (IsSound-unsubscribe_wire t key d entry entry.wire s e refl)
]
