-- ===== src/Session/Driver/Issue.antt =====
-- src/session/mod.rs: asking the server for the subscriptions of the registry.
use lightstreamer_rs.Base.{ℕ, Bool, true, false, Option, none, some, List, [], ◌∷◌, ◌++◌}
use lightstreamer_rs.Text.{Text}
use lightstreamer_rs.Protocol.Requests.{RequestId}
use lightstreamer_rs.Protocol.TlcpRequest.{TlcpRequest}
use lightstreamer_rs.Session.Events.{
  SessionEvent, ResubscribedEntry, resubscribed, ControlTarget, SubscriptionOperation,
}
use lightstreamer_rs.Session.Pending.{PendingKind}
use lightstreamer_rs.Session.Registry.{
  Registry, RegistryEntry, SubscriptionSpec, SubscriptionState, pending, active, removing, Entries,
  get, remove, replace, insert, allocate, wants_snapshot,
}
use lightstreamer_rs.Session.Driver.{SessionDriver}
use lightstreamer_rs.Session.Driver.Dispatch.{
  Turn, Stepped, next_request_id, id_exhaustion, dispatch,
}

-- A write to the entry of a key, if it is there: `get_mut`.
abbrev pub write_entry :
    Entries → ℕ → (RegistryEntry → RegistryEntry) → Option RegistryEntry → Entries
write_entry entries key write none = entries
write_entry entries key write (some entry) = replace entries key (write entry)

abbrev pub with_entry : Entries → ℕ → (RegistryEntry → RegistryEntry) → Entries
with_entry entries key write = write_entry entries key write (get entries key)

-- The entry holds a number of this session.
abbrev pub bind_entry : Registry → (key sub_id : ℕ) → RegistryEntry → Registry
bind_entry r key sub_id entry = record r {
  entries = replace r.entries key (record entry { wire = some sub_id; state = pending });
  by_sub_id = insert r.by_sub_id sub_id key;
}

abbrev pub release_entry : Registry → (key sub_id : ℕ) → Registry
release_entry r key sub_id = record r {
  entries = with_entry r.entries key (λ entry. record entry { wire = none });
  by_sub_id = remove r.by_sub_id sub_id;
}

abbrev pub subscribe_request : Text → RequestId → ℕ → SubscriptionSpec → TlcpRequest
subscribe_request session id sub_id spec = TlcpRequest.subscribe (record {
  session = some session;
  request_id = id;
  subscription_id = sub_id;
  group = spec.group;
  schema = spec.schema;
  mode = spec.mode;
  data_adapter = spec.data_adapter;
  selector = spec.selector;
  requested_buffer_size = spec.requested_buffer_size;
  requested_max_frequency = spec.requested_max_frequency;
  snapshot = spec.snapshot;
  ack = none;
})

abbrev pub Issued : Type 0
Issued = Stepped (Option ResubscribedEntry)

abbrev pub issued_as : (key sub_id : ℕ) → RegistryEntry → Stepped Bool → Issued
issued_as key sub_id entry (d, events, true) = (
  d,
  events,
  some (record {
    key = key;
    subscription_id = sub_id;
    previously_active = entry.was_active;
    snapshot_requested = wants_snapshot entry.spec.snapshot;
  }),
)
issued_as key sub_id entry (d, events, false) =
    (record d { registry = release_entry d.registry key sub_id }, events, none)

abbrev pub issue_with :
    Turn → Text → (key sub_id : ℕ) → RegistryEntry → SessionDriver × Option RequestId → Issued
issue_with t session key sub_id entry (d, none) = (
  record d { registry = release_entry d.registry key sub_id },
  id_exhaustion (ControlTarget.subscription key SubscriptionOperation.subscribe) ∷ [],
  none,
)
issue_with t session key sub_id entry (d, some id) =
    issued_as key sub_id entry
      (dispatch t (subscribe_request session id sub_id entry.spec) id (PendingKind.subscribe key) d)

abbrev pub issue_entry :
    Turn → Text → (key sub_id : ℕ) → SessionDriver → Option RegistryEntry → Issued
issue_entry t session key sub_id d none = (d, [], none)
issue_entry t session key sub_id d (some entry) =
    issue_with t session key sub_id entry
      (next_request_id (record d { registry = bind_entry d.registry key sub_id entry }))

abbrev pub issue_numbered : Turn → Text → (key : ℕ) → SessionDriver → Registry × Option ℕ → Issued
issue_numbered t session key d (r, none) = (record d { registry = r }, [], none)
issue_numbered t session key d (r, some sub_id) =
    issue_entry t session key sub_id (record d { registry = r }) (get r.entries key)

abbrev pub issue_in : Turn → (key : ℕ) → SessionDriver → Option Text → Issued
issue_in t key d none = (d, [], none)
issue_in t key d (some session) = issue_numbered t session key d (allocate d.registry)

unfoldable pub issue_subscription : Turn → (key : ℕ) → SessionDriver → Issued
issue_subscription t key d = issue_in t key d d.session

-- Whether an entry is to be asked for.
abbrev pub is_unbound : Option ℕ → SubscriptionState → Bool
is_unbound (some sub_id) state = false
is_unbound none removing = false
is_unbound none pending = true
is_unbound none active = true

abbrev pub with_unbound : Bool → ℕ → List ℕ → List ℕ
with_unbound true key keys = key ∷ keys
with_unbound false key keys = keys

unfoldable pub unbound_keys : Entries → List ℕ
unbound_keys [] = []
unbound_keys ((key, entry) ∷ entries) =
    with_unbound (is_unbound entry.wire entry.state) key (unbound_keys entries)

abbrev pub with_issued : Option ResubscribedEntry → List ResubscribedEntry → List ResubscribedEntry
with_issued none entries = entries
with_issued (some entry) entries = entry ∷ entries

-- The loop of `issue_unbound_subscriptions`.
unfoldable pub issue_all : Turn → List ℕ → SessionDriver → Stepped (List ResubscribedEntry)
issue_all t [] d = (d, [], [])
issue_all t (key ∷ keys) d =
    let (d₁, events, entry) = issue_subscription t key d in
    let (d₂, events', entries) = issue_all t keys d₁ in
    (d₂, events ++ events', with_issued entry entries)

abbrev pub report_issued : List ResubscribedEntry → List SessionEvent
report_issued [] = []
report_issued (entry ∷ entries) = resubscribed (entry ∷ entries) ∷ []

unfoldable pub issue_unbound_subscriptions :
    Turn → SessionDriver → SessionDriver × List SessionEvent
issue_unbound_subscriptions t d =
    let (d', events, entries) = issue_all t (unbound_keys d.registry.entries) d in
    (d', events ++ report_issued entries)
