-- ===== src/Session/Driver/Answers.antt =====
-- src/session/mod.rs: the answers to control requests, REQOK, REQERR and ERROR.
use lightstreamer_rs.Base.{ℕ, false, Option, none, some, List, [], ◌∷◌, ◌++◌, ◌==◌, if◌then◌else◌}
use lightstreamer_rs.Text.{Text}
use lightstreamer_rs.Protocol.Requests.{Limit, new_request_id}
use lightstreamer_rs.Session.Outcomes.{ServerCause}
use lightstreamer_rs.Session.Events.{
  SessionEvent, message, control_response, MessageResult, ControlTarget, ControlOutcome, accepted,
}
use lightstreamer_rs.Session.Pending.{
  PendingKind, Pending, send_message, force_rebind, destroy, target, find_pending, remove_pending,
  as_requested_frequency,
}
use lightstreamer_rs.Session.Registry.{Registry, RegistryEntry, pending, active, get, remove}
use lightstreamer_rs.Session.Driver.{SessionDriver}
use lightstreamer_rs.Session.Driver.Issue.{with_entry}
use lightstreamer_rs.Session.Driver.Binding.{known_id}

-- A request of this generation, and none of another.
abbrev pub of_generation : ℕ → Option Pending → Option PendingKind
of_generation generation none = none
of_generation generation (some p) = if p.generation == generation then some p.kind else none

unfoldable pub take_pending : SessionDriver → Text → SessionDriver × Option PendingKind
take_pending d id = (
  record d { pending = remove_pending d.pending id },
  of_generation d.generation (find_pending d.pending id),
)

abbrev pub target_of : Option PendingKind → ControlTarget
target_of none = ControlTarget.session
target_of (some kind) = target kind

-- A frequency that the server has granted.
abbrev pub with_frequency : Limit → RegistryEntry → RegistryEntry
with_frequency limit entry = record entry {
  spec = record (entry.spec) { requested_max_frequency = some (as_requested_frequency limit) };
}

abbrev pub accept : SessionDriver × Option PendingKind → SessionDriver
accept (d, some (PendingKind.reconfigure key limit)) = record d {
  registry = record (d.registry) {
    entries = with_entry d.registry.entries key (with_frequency limit);
  };
}
accept (d, other) = d

unfoldable pub on_request_ok : SessionDriver → Option Text → SessionDriver × List SessionEvent
unfolding take_pending
on_request_ok d none = (d, [])
on_request_ok d (some id) =
    let answered = take_pending d id in
    (
      accept answered,
      control_response (known_id (new_request_id id)) (target_of answered.1) accepted ∷ [],
    )

abbrev pub without_number : List (ℕ × ℕ) → Option ℕ → List (ℕ × ℕ)
without_number by_sub_id none = by_sub_id
without_number by_sub_id (some sub_id) = remove by_sub_id sub_id

-- A subscription that the server has refused.
abbrev pub drop_entry : Registry → (key : ℕ) → Option RegistryEntry → Registry
drop_entry r key none = r
drop_entry r key (some entry) = record r {
  entries = remove r.entries key;
  by_sub_id = without_number r.by_sub_id entry.wire;
}

-- An entry that is to stay after all.
abbrev pub kept_entry : RegistryEntry → RegistryEntry
kept_entry entry = record entry { state = if entry.was_active then active else pending }

abbrev pub refuse :
    ServerCause → SessionDriver → Option PendingKind → SessionDriver × List SessionEvent
refuse cause d none = (d, [])
refuse cause d (some (PendingKind.subscribe key)) =
    (record d { registry = drop_entry d.registry key (get d.registry.entries key) }, [])
refuse cause d (some (PendingKind.unsubscribe key)) = (
  record d {
    registry = record (d.registry) { entries = with_entry d.registry.entries key kept_entry };
  },
  [],
)
refuse cause d (some (PendingKind.reconfigure key limit)) = (d, [])
refuse cause d (some (send_message sequence prog)) =
    (d, message none sequence prog (MessageResult.refused cause) ∷ [])
refuse cause d (some force_rebind) = (record d { force_rebind_outstanding = false }, [])
refuse cause d (some destroy) = (record d { destroy_requested = false }, [])

unfoldable pub on_request_error :
    SessionDriver → Text → ServerCause → SessionDriver × List SessionEvent
unfolding take_pending
on_request_error d id cause =
    let (d₁, kind) = take_pending d id in
    let (d₂, events) = refuse cause d₁ kind in
    (
      d₂,
      events
          ++ control_response (known_id (new_request_id id)) (target_of kind)
              (ControlOutcome.rejected cause)
            ∷ [],
    )

-- The arm for `ERROR`, which names no request.
abbrev pub uncorrelated : ServerCause → SessionEvent
uncorrelated cause = control_response none ControlTarget.session (ControlOutcome.rejected cause)
