-- ===== src/Session/Pending.antt =====
-- src/session/mod.rs: the control requests that wait for an answer. A `HashMap` is an association
-- list, in one of its orders.
use lightstreamer_rs.Base.{ℕ, Option, none, some, List, [], ◌∷◌, ◌==◌, if◌then◌else◌}
use lightstreamer_rs.Text.{Text, same_text}
use lightstreamer_rs.Protocol.Notifications.{MessageSequence}
use lightstreamer_rs.Protocol.Requests.{Limit, RequestedMaxFrequency}
use lightstreamer_rs.Session.Events.{ControlTarget, session, subscription, SubscriptionOperation}

pub data PendingKind : Type 0 where
  subscribe : (key : ℕ) → PendingKind
  unsubscribe : (key : ℕ) → PendingKind
  reconfigure : (key : ℕ) (max_frequency : Limit) → PendingKind
  send_message : MessageSequence → (prog : Option ℕ) → PendingKind
  force_rebind : PendingKind
  destroy : PendingKind

abbrev pub target : PendingKind → ControlTarget
target (PendingKind.subscribe key) = subscription key SubscriptionOperation.subscribe
target (PendingKind.unsubscribe key) = subscription key SubscriptionOperation.unsubscribe
target (PendingKind.reconfigure key limit) = subscription key SubscriptionOperation.reconfigure
target (send_message sequence prog) = session
target force_rebind = session
target destroy = session

pub record Pending : Type 0 where
  pub kind : PendingKind
  pub generation : ℕ

abbrev pub Pendings : Type 0
Pendings = List (Text × Pending)

unfoldable pub find_pending : Pendings → Text → Option Pending
find_pending [] id = none
find_pending ((i, p) ∷ ps) id = if same_text i id then some p else find_pending ps id

unfoldable pub remove_pending : Pendings → Text → Pendings
remove_pending [] id = []
remove_pending ((i, p) ∷ ps) id =
    let rest = remove_pending ps id in if same_text i id then rest else (i, p) ∷ rest

-- `HashMap::insert`.
unfoldable pub insert_pending : Pendings → Text → Pending → Pendings
unfolding remove_pending
insert_pending ps id p = (id, p) ∷ remove_pending ps id

-- The requests of other generations, and those of this one: `extract_if`.
unfoldable pub stale : Pendings → ℕ → Pendings
stale [] generation = []
stale ((i, p) ∷ ps) generation =
    let rest = stale ps generation in if p.generation == generation then rest else (i, p) ∷ rest

unfoldable pub current : Pendings → ℕ → Pendings
current [] generation = []
current ((i, p) ∷ ps) generation =
    let rest = current ps generation in if p.generation == generation then (i, p) ∷ rest else rest

abbrev pub as_requested_frequency : Limit → RequestedMaxFrequency
as_requested_frequency Limit.unlimited = RequestedMaxFrequency.unlimited
as_requested_frequency (Limit.limited number) = RequestedMaxFrequency.limited number
