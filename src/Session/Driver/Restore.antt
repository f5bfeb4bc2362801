-- ===== src/Session/Driver/Restore.antt =====
-- The subscriptions that are asked for again when a stream is bound.
pub mod Requests
pub mod Issues
pub mod Renewal
use lightstreamer_rs.Protocol.Control.{Subscribe}
use lightstreamer_rs.Protocol.TlcpRequest.{TlcpRequest}
use lightstreamer_rs.Base.{
  ℕ, ◌+◌, ◌<◌, ◌≤◌, ◌≡◌, ◌≢◌, ◌⊎◌, refl, sym, ap, subst, ◌∙◌, arith, Bool, true, false, Option,
  none, some, List, [], ◌∷◌, ◌++◌, ◌==◌, usize_mod, u32_mod, length, ◌>>=◌, All, if◌then◌else◌,
}
use lightstreamer_rs.Text.{Text}
use lightstreamer_rs.Session.Registry.{
  Registry, RegistryEntry, Entries, get, pending, active, removing, renew, renewed,
  reset_for_new_session, SubscriptionState, SubscriptionSpec,
}
use lightstreamer_rs.Session.Registry.Entries.{Ascends}
use lightstreamer_rs.Session.Driver.{SessionDriver}
use lightstreamer_rs.Session.Driver.Dispatch.{Turn, next_request_id}
use lightstreamer_rs.Session.Driver.Issue.{
  issue_all, issue_unbound_subscriptions, unbound_keys, is_unbound, with_unbound,
}
use lightstreamer_rs.Session.Driver.Sound.{IsSound, IsSound-reset}
use lightstreamer_rs.Session.Driver.Sound.Tails.{
  IsTail, IsTail-cons, get-cons_same, unbound_keys-Above,
}
use lightstreamer_rs.Session.Driver.Sound.Changes.{IsSound-on_conok}
use lightstreamer_rs.Session.Driver.Binding.{
  start_session, retire_stale_pending, bound_to, on_conok, kind_of, is_fresh,
}
use lightstreamer_rs.Session.Time.{Duration}
use lightstreamer_rs.Session.Driver.Restore.Requests.{IsValidSpec, TakesAll, AsksFor, Among}
use lightstreamer_rs.Session.Driver.Restore.Issues.{Wanted, IsBound, AreIssued-issue_all}
use lightstreamer_rs.Session.Driver.Restore.Renewal.{
  get-renew, All-In, In-unbound_keys, length-unbound_keys, length-renew, AreValid, AreValid-renew,
}

-- A subscription that a driver has asked for again in a session: its entry after that, its number, and
-- the requests that the transport has been handed since, with the one for it.
pub record IsRestored (session : Text) (d d' : SessionDriver) (key : ℕ) (spec : SubscriptionSpec)
    : Type 0 where
  pub after : RegistryEntry
  pub sub_id : ℕ
  pub new : List TlcpRequest
  pub request : Subscribe
  pub kept : get d'.registry.entries key ≡ some after
  pub specified : after.spec ≡ spec
  pub numbered : get d'.registry.by_sub_id sub_id ≡ some key
  pub handed_over : d'.transport.taken ≡ new ++ d.transport.taken
  pub requested : Among (TlcpRequest.subscribe request) new
  pub asks : AsksFor (some session) sub_id spec request

module _ (t : Turn) (all : TakesAll t) where
  Wanted-with :
      (r : Registry) (b : Bool) (key : ℕ) (keys : List ℕ)
      → ((entry : RegistryEntry) × (get r.entries key ≡ some entry) × IsValidSpec entry.spec)
      → All (λ j. key < j) keys
      → Wanted t all r keys
      → Wanted t all r (with_unbound b key keys)
  Wanted-with r true key keys own above w = (own, above, w)
  Wanted-with r false key keys own above w = w

  Wanted-unbound_keys :
      (r : Registry) (es : Entries)
      → Ascends es
      → IsTail r es
      → AreValid es
      → Wanted t all r (unbound_keys es)
  unfolding unbound_keys
  Wanted-unbound_keys r [] h sub valid = tt
  Wanted-unbound_keys r ((k, e) ∷ es) (above, h) sub (own, valid) =
      let here = get-cons_same k e es in
      let at = sub k (λ gone. (let no : some e ≡ none = sym here ∙ gone in cc)) ∙ here in
      Wanted-with r (is_unbound e.wire e.state) k (unbound_keys es) (e, at, own)
        (unbound_keys-Above k es above)
        (Wanted-unbound_keys r es h (IsTail-cons r k e es above sub) valid)

  -- Requests have been handed to the transport, one of them for the subscription at a key.
  abbrev Asked : Text → List TlcpRequest → Registry → SessionDriver → (key : ℕ) → Type 0
  Asked session before r d' key =
      (new : List TlcpRequest) × (d'.transport.taken ≡ new ++ before)
      × IsBound t all (some session) new r d'.registry key

  -- The registry of a session that has just begun.
  restores_new :
      (session : Text) (d : SessionDriver) (es : Entries)
      → d.session ≡ some session
      → d.registry ≡ record { entries = es; by_sub_id = []; next_sub_id = 1 }
      → Ascends es
      → AreValid es
      → length es + 1 < u32_mod
      → d.next_request_id + length es < usize_mod
      → (key : ℕ) (entry : RegistryEntry) → get es key ≡ some entry
      → is_unbound entry.wire entry.state ≡ true
      → Asked session d.transport.taken d.registry (issue_unbound_subscriptions t d).0 key
  unfolding issue_unbound_subscriptions
  restores_new session d es bound fresh ordered valid numbers requests key entry at wanted =
      let same : d.registry.entries ≡ es = ap (λ r. r.entries) fresh in
      let first : d.registry.next_sub_id ≡ 1 = ap (λ r. r.next_sub_id) fresh in
      let keys = unbound_keys d.registry.entries in
      let few : length keys ≤ length es =
        subst (λ es'. length keys ≤ length es') same (length-unbound_keys d.registry.entries) in
      let w =
        Wanted-unbound_keys d.registry d.registry.entries (subst Ascends (sym same) ordered)
          (λ j found. refl) (subst AreValid (sym same) valid) in
      let issued =
        AreIssued-issue_all t all session keys d bound w (omega arith, omega arith, omega arith) in
      let (none_of, names, (new, went, all_bound), kept) = issued in
      let d' = (issue_all t keys d).0 in
      (
        new,
        went,
        All-In (IsBound t all (some session) new d.registry d'.registry) key keys
            (subst (λ known. All (IsBound t all known new d.registry d'.registry) keys) bound
              all_bound)
            (In-unbound_keys d.registry.entries key entry (ap (λ es'. get es' key) same ∙ at)
              wanted),
      )

  not_removing : (state : SubscriptionState) → state ≢ removing → is_unbound none state ≡ true
  not_removing pending ne = refl
  not_removing active ne = refl
  not_removing removing ne = absurd (ne refl)

  restored :
      (d : SessionDriver) (session : Text)
      → d.session ≡ some session
      → IsSound d.registry
      → AreValid d.registry.entries
      → length d.registry.entries + 1 < u32_mod
      → d.next_request_id + length d.registry.entries < usize_mod
      → (key : ℕ) (entry : RegistryEntry) → get d.registry.entries key ≡ some entry
      → entry.state ≢ removing
      → Asked session d.transport.taken
          (reset_for_new_session d.registry)
          (issue_unbound_subscriptions t (start_session d true).0).0
          key
  unfolding retire_stale_pending reset_for_new_session
  restored d session bound s valid numbers requests key entry at wanted =
      let es = renew d.registry.entries in
      let few = length-renew d.registry.entries in
      restores_new session (start_session d true).0 es bound refl
        (IsSound-reset d.registry s).ordered (AreValid-renew d.registry.entries valid) (omega arith)
        (omega arith) key (renewed entry)
        (get-renew d.registry.entries key entry at (not_removing entry.state wanted))
        (not_removing pending (λ e. (let no : pending ≡ removing = e in cc)))

  IsBound-on_conok :
      (d : SessionDriver) (session_id : Text) (limit : ℕ) (keep_alive : Duration)
      (control_link : Option Text) (key : ℕ)
      → is_fresh (kind_of d session_id) ≡ true
      → (let d₀ = bound_to t d session_id keep_alive control_link in
          Asked session_id d.transport.taken
            (reset_for_new_session d.registry)
            (issue_unbound_subscriptions t (start_session d₀ true).0).0
            key)
      → Asked session_id d.transport.taken
          (reset_for_new_session d.registry)
          (on_conok t d session_id limit keep_alive control_link).0
          key
  unfolding on_conok
  IsBound-on_conok d session_id limit keep_alive control_link key fresh h =
      let d₀ = bound_to t d session_id keep_alive control_link in
      subst
        (λ b.
          Asked session_id d.transport.taken (reset_for_new_session d.registry)
            (issue_unbound_subscriptions t (start_session d₀ b).0).0 key)
        (sym fresh) h

  found :
      (session : Text) (d d' : SessionDriver) (key : ℕ) (entry : RegistryEntry)
      → IsSound d'.registry
      → get d.registry.entries key ≡ some entry
      → entry.state ≢ removing
      → Asked session d.transport.taken (reset_for_new_session d.registry) d' key
      → IsRestored session d d' key entry.spec
  unfolding reset_for_new_session
  found session d d' key entry sound at wanted
        (new, went, (before, after, sub_id, was, now, wire, spec, (request, among, asks))) =
      let renews = get-renew d.registry.entries key entry at (not_removing entry.state wanted) in
      let same : before.spec ≡ entry.spec =
        (let both : some before ≡ some (renewed entry) = sym was ∙ renews in
          let renews_it : before ≡ renewed entry = cc in ap (λ e. e.spec) renews_it) in
      record {
        after = after;
        sub_id = sub_id;
        new = new;
        request = request;
        kept = now;
        specified = spec ∙ same;
        numbered = sound.held key sub_id after now wire;
        handed_over = went;
        requested = among;
        asks = subst (λ v. AsksFor (some session) sub_id v request) same asks;
      }

  -- When CONOK starts a new session in a driver whose registry is sound: for every subscription that
  -- is not being removed, the driver hands its transport a new request, in that session and with all
  -- that the subscription specifies; the registry keeps the subscription as it was specified, and
  -- finds it by the number of the request. This is so if the transport takes all requests, the
  -- subscriptions pass the checks of a request, and there are numbers left for all of them and for
  -- the requests.
  pub on_conok-restores :
      (d : SessionDriver) (session_id : Text) (limit : ℕ) (keep_alive : Duration)
      (control_link : Option Text)
      → is_fresh (kind_of d session_id) ≡ true
      → IsSound d.registry
      → AreValid d.registry.entries
      → length d.registry.entries + 1 < u32_mod
      → d.next_request_id + length d.registry.entries < usize_mod
      → (key : ℕ) (entry : RegistryEntry) → get d.registry.entries key ≡ some entry
      → entry.state ≢ removing
      → IsRestored session_id d
          (on_conok t d session_id limit keep_alive control_link).0
          key
          entry.spec
  on_conok-restores d session_id limit keep_alive control_link fresh s valid numbers requests key
        entry at wanted =
      let d₀ = bound_to t d session_id keep_alive control_link in
      let sound = IsSound-on_conok t d session_id limit keep_alive control_link s in
      found session_id d (on_conok t d session_id limit keep_alive control_link).0 key entry sound
        at wanted
        (IsBound-on_conok d session_id limit keep_alive control_link key fresh
          (restored d₀ session_id refl s valid numbers requests key entry at wanted))
