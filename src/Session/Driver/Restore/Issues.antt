-- ===== src/Session/Driver/Restore/Issues.antt =====
-- All the subscriptions without a number, asked for one after another.
use lightstreamer_rs.Protocol.Control.{Subscribe}
use lightstreamer_rs.Protocol.TlcpRequest.{TlcpRequest}
use lightstreamer_rs.Base.{
  ℕ, suc, ◌+◌, ◌<◌, ◌≡◌, ◌≢◌, refl, sym, ap, subst, ◌∙◌, arith, none, some, List, [], ◌∷◌, ◌++◌,
  usize_mod, length, map, All, append_assoc, Option,
}
use lightstreamer_rs.Text.{Text}
use lightstreamer_rs.Protocol.Requests.{from_progressive}
use lightstreamer_rs.Session.Events.{ResubscribedEntry}
use lightstreamer_rs.Session.Pending.{PendingKind}
use lightstreamer_rs.Session.Registry.{
  Registry, RegistryEntry, get, pending, wants_snapshot, SubscriptionSpec,
}
use lightstreamer_rs.Session.Registry.Entries.{get-replace_same, get-replace_other}
use lightstreamer_rs.Session.Driver.{SessionDriver}
use lightstreamer_rs.Session.Driver.Dispatch.{Turn, Stepped, control_kind, taken_by, registered}
use lightstreamer_rs.Session.Driver.Issue.{
  subscribe_request, issued_as, issue_with, issue_entry, issue_numbered, issue_in,
  issue_subscription, issue_all, bind_entry, Issued, with_issued,
}
use lightstreamer_rs.Session.Driver.Restore.Requests.{
  IsValidSpec, encode-subscribe_ok, dispatch_ok, allocate_ok, next_request_id_ok, TakesAll, Room,
  AsksFor, Among, Among-append_left, Among-append_last,
}

-- A request for the subscription has been handed to the transport.
abbrev pub Sends : SessionDriver → SessionDriver → ℕ → SubscriptionSpec → Type 0
Sends d d' sub_id spec =
    (request : Subscribe) × (d'.transport.taken ≡ TlcpRequest.subscribe request ∷ d.transport.taken)
    × AsksFor d.session sub_id spec request

-- A request that went out: the entry holds a number, and nothing is reported.
abbrev pub IsDone : SessionDriver → ℕ → RegistryEntry → Issued → Type 0
IsDone d key entry (d', events, none) = ⊥
IsDone d key entry (d', events, some issued) =
    (d'.registry
      ≡ bind_entry (record (d.registry) { next_sub_id = suc d.registry.next_sub_id }) key
          d.registry.next_sub_id entry)
    × (d'.next_request_id ≡ suc d.next_request_id)
    × (d'.session ≡ d.session)
    × Sends d d' d.registry.next_sub_id entry.spec
    × (events ≡ [])
    × (issued.key ≡ key)

module _ (t : Turn) (all : TakesAll t) where
  IsDone-issue_entry :
      (session : Text) (key : ℕ) (d : SessionDriver) (entry : RegistryEntry) (sub_id : ℕ)
      → d.session ≡ some session
      → IsValidSpec entry.spec
      → d.next_request_id + 1 < usize_mod
      → (info : ResubscribedEntry) × (d' : SessionDriver) × (issue_entry t session key sub_id d
            (some entry)
          ≡ (d', [], some info))
        × (d'.registry ≡ bind_entry d.registry key sub_id entry)
        × (d'.next_request_id ≡ suc d.next_request_id)
        × (d'.session ≡ d.session)
        × Sends d d' sub_id entry.spec
        × (info.key ≡ key)
  IsDone-issue_entry session key d entry sub_id known valid fits =
      let d₁ : SessionDriver = record d { registry = bind_entry d.registry key sub_id entry } in
      let d₂ : SessionDriver = record d₁ { next_request_id = suc d.next_request_id } in
      let id = from_progressive d.next_request_id in
      let request = subscribe_request session id sub_id entry.spec in
      let kind = PendingKind.subscribe key in
      let (line, encoded) =
        encode-subscribe_ok t session id sub_id entry.spec (control_kind d₂) valid in
      (
        record {
          key = key;
          subscription_id = sub_id;
          previously_active = entry.was_active;
          snapshot_requested = wants_snapshot entry.spec.snapshot;
        },
        taken_by (registered d₂ id kind) request t.now,
        ap (issue_with t session key sub_id entry) (next_request_id_ok d₁ fits)
            ∙ ap (issued_as key sub_id entry)
                (dispatch_ok t request id kind d₂ line encoded (all request)),
        refl,
        refl,
        refl,
        (
          record {
            session = some session;
            request_id = id;
            subscription_id = sub_id;
            group = entry.spec.group;
            schema = entry.spec.schema;
            mode = entry.spec.mode;
            data_adapter = entry.spec.data_adapter;
            selector = entry.spec.selector;
            requested_buffer_size = entry.spec.requested_buffer_size;
            requested_max_frequency = entry.spec.requested_max_frequency;
            snapshot = entry.spec.snapshot;
            ack = none;
          },
          refl,
          (sym known, refl, refl, refl, refl, refl, refl, refl, refl, refl),
        ),
        refl,
      )

  IsDone-issue_subscription :
      (session : Text) (key : ℕ) (d : SessionDriver) (entry : RegistryEntry)
      → d.session ≡ some session
      → get d.registry.entries key ≡ some entry
      → IsValidSpec entry.spec
      → Room d 1
      → IsDone d key entry (issue_subscription t key d)
  unfolding issue_subscription
  IsDone-issue_subscription session key d entry bound at valid (positive, numbers, requests) =
      let spent : Registry = record (d.registry) { next_sub_id = suc d.registry.next_sub_id } in
      let d₁ : SessionDriver = record d { registry = spent } in
      let (info, d', result, r, n, s, asks, k) =
        IsDone-issue_entry session key d₁ entry d.registry.next_sub_id bound valid requests in
      let whole : issue_in t key d d.session ≡ (d', [], some info) =
        ap (issue_in t key d) bound
        ∙ ap (issue_numbered t session key d) (allocate_ok d.registry positive numbers)
        ∙ ap (issue_entry t session key d.registry.next_sub_id d₁) at
        ∙ result in
      subst (IsDone d key entry) (sym whole) (r, n, s, asks, refl, k)

  -- The entries of such keys, each with a valid subscription, in ascending order.
  abbrev pub Wanted : Registry → List ℕ → Type 0
  Wanted r [] = Unit
  Wanted r (key ∷ keys) =
      ((entry : RegistryEntry) × (get r.entries key ≡ some entry) × IsValidSpec entry.spec)
      × All (λ j. key < j) keys
      × Wanted r keys

  -- The subscription at a key holds a number now, under which one of the new requests asks for it.
  abbrev pub IsBound : Option Text → List TlcpRequest → Registry → Registry → (key : ℕ) → Type 0
  IsBound session new r r' key =
      (entry : RegistryEntry) × (entry' : RegistryEntry) × (sub_id : ℕ) × (get r.entries key
        ≡ some entry)
      × (get r'.entries key ≡ some entry')
      × (entry'.wire ≡ some sub_id)
      × (entry'.spec ≡ entry.spec)
      × ((request : Subscribe) × Among (TlcpRequest.subscribe request) new
          × AsksFor session sub_id entry.spec request)

  abbrev pub AreIssued : SessionDriver → List ℕ → Stepped (List ResubscribedEntry) → Type 0
  AreIssued d keys (d', events, issued) =
      (events ≡ [])
      × (map (λ (e : ResubscribedEntry). e.key) issued ≡ keys)
      × ((new : List TlcpRequest) × (d'.transport.taken ≡ new ++ d.transport.taken)
          × All (IsBound d.session new d.registry d'.registry) keys)
      × ((j : ℕ) → All (λ k. j < k) keys → get d'.registry.entries j ≡ get d.registry.entries j)

  Wanted-other :
      (r r' : Registry) (key : ℕ) (keys : List ℕ)
      → ((j : ℕ) → j ≢ key → get r'.entries j ≡ get r.entries j)
      → All (λ j. key < j) keys
      → Wanted r keys
      → Wanted r' keys
  Wanted-other r r' key [] same above w = tt
  Wanted-other r r' key (j ∷ keys) same (lt, above) ((entry, at, valid), up, w) =
      ((entry, same j (omega arith) ∙ at, valid), up, Wanted-other r r' key keys same above w)

  IsBound-other :
      (session : Option Text) (new last : List TlcpRequest) (r r' r'' : Registry) (key : ℕ)
      (keys : List ℕ)
      → ((j : ℕ) → j ≢ key → get r'.entries j ≡ get r.entries j)
      → All (λ j. key < j) keys
      → All (IsBound session new r' r'') keys
      → All (IsBound session (new ++ last) r r'') keys
  IsBound-other session new last r r' r'' key [] same above b = tt
  IsBound-other session new last r r' r'' key (j ∷ keys) same (lt, above)
        ((e, e', id, at, at', w, spec, (request, sent, asks)), b) =
      (
        (
          e,
          e',
          id,
          sym (same j (omega arith)) ∙ at,
          at',
          w,
          spec,
          (request, Among-append_left (TlcpRequest.subscribe request) new last sent, asks),
        ),
        IsBound-other session new last r r' r'' key keys same above b,
      )

  AreIssued-cons :
      (key : ℕ) (keys : List ℕ) (d : SessionDriver) (entry : RegistryEntry) (first : Issued)
      → get d.registry.entries key ≡ some entry
      → All (λ j. key < j) keys
      → IsDone d key entry first
      → AreIssued first.0 keys (issue_all t keys first.0)
      → AreIssued d (key ∷ keys) (
          let (d', events, issued) = issue_all t keys first.0 in
          (d', first.1 ++ events, with_issued first.2 issued))
  AreIssued-cons key keys d entry (d₁, events, none) at above done rest = absurd done
  AreIssued-cons key keys d entry (d₁, events, some info) at above
        (r, n, s, (request, sent, asks), e, k) (none_of, names, (new, went, bound), kept) =
      let last = TlcpRequest.subscribe request ∷ [] in
      let bound_entry : RegistryEntry = record entry {
        wire = some d.registry.next_sub_id;
        state = pending;
      } in
      let same : (j : ℕ) → j ≢ key → get d₁.registry.entries j ≡ get d.registry.entries j = λ j ne.
        ap (λ v. get v.entries j) r ∙ get-replace_other d.registry.entries key j bound_entry ne in
      let d₂ = (issue_all t keys d₁).0 in
      let here : get d₂.registry.entries key ≡ some bound_entry =
        kept key above
        ∙ ap (λ v. get v.entries key) r
        ∙ get-replace_same d.registry.entries key entry bound_entry at in
      (
        ap (λ es. es ++ (issue_all t keys d₁).1) e ∙ none_of,
        ap (λ n. n ∷ map (λ (e : ResubscribedEntry). e.key) (issue_all t keys d₁).2) k
            ∙ ap (λ ns. key ∷ ns) names,
        (
          new ++ last,
          went ∙ ap (λ l. new ++ l) sent ∙ sym (append_assoc new last d.transport.taken),
          (
            (
              entry,
              bound_entry,
              d.registry.next_sub_id,
              at,
              here,
              refl,
              refl,
              (request, Among-append_last (TlcpRequest.subscribe request) new, asks),
            ),
            IsBound-other d.session new last d.registry d₁.registry d₂.registry key keys same above
                (subst (λ known. All (IsBound known new d₁.registry d₂.registry) keys) s bound),
          ),
        ),
        λ j up. kept j up.1 ∙ same j (omega arith),
      )

  Room-done :
      (d : SessionDriver) (key : ℕ) (entry : RegistryEntry) (first : Issued) (n : ℕ)
      → IsDone d key entry first
      → Room d (suc n)
      → Room first.0 n
  Room-done d key entry (d₁, events, none) n done room = absurd done
  Room-done d key entry (d₁, events, some info) n (r, next, s, asks, e, k)
        (positive, numbers, requests) =
      let up : d₁.registry.next_sub_id ≡ suc d.registry.next_sub_id = ap (λ v. v.next_sub_id) r in
      (omega arith, omega arith, omega arith)

  session-done :
      (d : SessionDriver) (key : ℕ) (entry : RegistryEntry) (first : Issued)
      → IsDone d key entry first
      → first.0.session ≡ d.session
  session-done d key entry (d₁, events, none) done = absurd done
  session-done d key entry (d₁, events, some info) (r, next, s, asks, e, k) = s

  others-done :
      (d : SessionDriver) (key : ℕ) (entry : RegistryEntry) (first : Issued)
      → IsDone d key entry first
      → (j : ℕ) → j ≢ key
      → get first.0.registry.entries j ≡ get d.registry.entries j
  others-done d key entry (d₁, events, none) done j ne = absurd done
  others-done d key entry (d₁, events, some info) (r, next, s, asks, e, k) j ne =
      ap (λ v. get v.entries j) r
      ∙ get-replace_other d.registry.entries key j
          (record entry { wire = some d.registry.next_sub_id; state = pending }) ne

  pub AreIssued-issue_all :
      (session : Text) (keys : List ℕ) (d : SessionDriver)
      → d.session ≡ some session
      → Wanted d.registry keys
      → Room d (length keys)
      → AreIssued d keys (issue_all t keys d)
  unfolding issue_all
  AreIssued-issue_all session [] d bound w room = (refl, refl, ([], refl, tt), λ j up. refl)
  AreIssued-issue_all session (key ∷ keys) d bound ((entry, at, valid), above, w)
        (positive, numbers, requests) =
      let first = issue_subscription t key d in
      let done =
        IsDone-issue_subscription session key d entry bound at valid
          (positive, omega arith, omega arith) in
      AreIssued-cons key keys d entry first at above done (
        AreIssued-issue_all session keys first.0 (session-done d key entry first done ∙ bound)
          (Wanted-other d.registry first.0.registry key keys (others-done d key entry first done)
            above w)
          (Room-done d key entry first (length keys) done (positive, numbers, requests)))
