-- ===== src/Session/Registry.antt =====
-- src/session/mod.rs: the desired subscriptions and their numbers in the current session. A `BTreeMap`
-- is an association list without repeated keys.
pub mod Entries
use lightstreamer_rs.Base.{
  ℕ, Bool, true, false, Option, none, some, List, [], ◌∷◌, ◌==◌, ltb, if◌then◌else◌, checked_add,
  u32_mod,
}
use lightstreamer_rs.Text.{Text}
use lightstreamer_rs.Protocol.Requests.{
  SubscriptionMode, RequestedBufferSize, RequestedMaxFrequency, Snapshot, on, of_length, off,
}
use lightstreamer_rs.Subscription.Manager.{SubscriptionManager, new_manager}

pub record SubscriptionSpec : Type 0 where
  pub group : Text
  pub schema : Text
  pub mode : SubscriptionMode
  pub data_adapter : Option Text
  pub selector : Option Text
  pub requested_buffer_size : Option RequestedBufferSize
  pub requested_max_frequency : Option RequestedMaxFrequency
  pub snapshot : Option Snapshot
  pub declared_items : List Text
  pub declared_fields : List Text

abbrev pub wants_snapshot : Option Snapshot → Bool
wants_snapshot none = false
wants_snapshot (some off) = false
wants_snapshot (some on) = true
wants_snapshot (some (of_length n)) = true

-- `SubscriptionSpec::new_manager`.
abbrev pub spec_manager : SubscriptionSpec → SubscriptionManager
spec_manager spec =
    new_manager spec.mode (wants_snapshot spec.snapshot) spec.declared_items spec.declared_fields

pub data SubscriptionState : Type 0 where
  pending : SubscriptionState
  active : SubscriptionState
  removing : SubscriptionState

pub record RegistryEntry : Type 0 where
  pub spec : SubscriptionSpec
  pub wire : Option ℕ
  pub state : SubscriptionState
  pub was_active : Bool
  pub manager : SubscriptionManager

abbrev pub Entries : Type 0
Entries = List (ℕ × RegistryEntry)

pub record Registry : Type 0 where
  pub entries : Entries
  pub by_sub_id : List (ℕ × ℕ)
  pub next_sub_id : ℕ

module _ {A : Type 0} where
  -- `BTreeMap::get`, `remove`, and a write through `get_mut`.
  unfoldable pub get : List (ℕ × A) → ℕ → Option A
  get [] key = none
  get ((k, a) ∷ entries) key = if k == key then some a else get entries key

  unfoldable pub remove : List (ℕ × A) → ℕ → List (ℕ × A)
  remove [] key = []
  remove ((k, a) ∷ entries) key =
      let rest = remove entries key in if k == key then rest else (k, a) ∷ rest

  unfoldable pub replace : List (ℕ × A) → ℕ → A → List (ℕ × A)
  replace [] key b = []
  replace ((k, a) ∷ entries) key b =
      let rest = replace entries key b in if k == key then (k, b) ∷ rest else (k, a) ∷ rest

  -- `BTreeMap::insert`, which keeps the keys in order.
  unfoldable pub insert : List (ℕ × A) → ℕ → A → List (ℕ × A)
  insert [] key b = (key, b) ∷ []
  insert ((k, a) ∷ entries) key b =
      let rest = insert entries key b in
      if k == key
      then (key, b) ∷ entries
      else if ltb key k
      then (key, b) ∷ (k, a) ∷ entries
      else (k, a) ∷ rest

-- The entry in a session that has not seen it.
abbrev pub renewed : RegistryEntry → RegistryEntry
renewed entry = record entry { wire = none; state = pending; manager = spec_manager entry.spec }

abbrev pub retained : SubscriptionState → (ℕ × RegistryEntry) → Entries → Entries
retained removing entry entries = entries
retained pending (key, entry) entries = (key, renewed entry) ∷ entries
retained active (key, entry) entries = (key, renewed entry) ∷ entries

abbrev pub renew : Entries → Entries
renew [] = []
renew ((key, entry) ∷ entries) = retained entry.state (key, entry) (renew entries)

unfoldable pub reset_for_new_session : Registry → Registry
reset_for_new_session r = record { entries = renew r.entries; by_sub_id = []; next_sub_id = 1 }

-- A number that the next one does not fit behind is not given out.
abbrev pub allocated : Registry → ℕ → Option ℕ → Registry × Option ℕ
allocated r id none = (r, none)
allocated r id (some next) = (record r { next_sub_id = next }, some id)

unfoldable pub allocate : Registry → Registry × Option ℕ
allocate r =
    if r.next_sub_id == 0
    then (r, none)
    else allocated r r.next_sub_id (checked_add u32_mod r.next_sub_id 1)
