-- ===== src/Subscription/Manager.antt =====
-- src/subscription/manager.rs: one subscription, from what the caller declared to its events.
pub mod Shape
pub mod Refusals
pub mod Examples
use lightstreamer_rs.Base.{
  ℕ, zero, suc, ◌+◌, ◌-◌, Bool, true, false, not, Option, none, some, List, [], ◌∷◌, map, length,
  get_elem?, set, replicate, leb, if◌then◌else◌, Result, ok, err, ◌>>=◌, map_err, map_ok, codes,
}
use lightstreamer_rs.Text.{Text}
use lightstreamer_rs.Protocol.Errors.{ProtocolError}
use lightstreamer_rs.Protocol.Notifications.{
  Notification, update, subscription_ok, subscription_command_ok, unsubscribed, end_of_snapshot,
  clear_snapshot, overflow, subscription_reconfigured, MaxFrequency, FilteringMode,
}
use lightstreamer_rs.Protocol.Diff.{JsonPatch}
use lightstreamer_rs.Subscription.Update.{ItemState, UpdateOutcome, new, apply, slot_text}
use lightstreamer_rs.Subscription.ItemUpdate.{
  UpdateKind, snapshot, real_time, SubscriptionSchema, new_schema, ItemUpdate,
}
use lightstreamer_rs.Protocol.Requests.{SubscriptionMode, raw, merge, distinct, command}
use lightstreamer_rs.Subscription.Events.{
  SubscriptionError, not_activated, ended_error, item_out_of_range, command_field_out_of_range,
  value_error, CommandFields, SubscriptionEvent, activated, updated, snapshot_ended,
  snapshot_cleared, overflowed, reconfigured, unsubscribed_event, classify_update,
}

pub record ItemTracker : Type 0 where
  pub state : ItemState
  pub seen_update : Bool
  pub eos_seen : Bool

abbrev pub new_tracker : ℕ → ItemTracker
new_tracker field_count = record { state = new field_count; seen_update = false; eos_seen = false }

pub record Active : Type 0 where
  pub schema : SubscriptionSchema
  pub items : List ItemTracker

pub data Activation : Type 0 where
  pending : Activation
  active : Active → Activation
  ended : Activation

pub record SubscriptionManager : Type 0 where
  pub mode : SubscriptionMode
  pub snapshot_requested : Bool
  pub declared_items : List Text
  pub declared_fields : List Text
  pub activation : Activation

abbrev pub Handled : Type 0
Handled = SubscriptionManager × Result SubscriptionError (Option SubscriptionEvent)

-- The 0-based position of a 1-based index, below a count.
abbrev pub position_below : ℕ → ℕ → Option ℕ
position_below zero count = none
position_below (suc index) count = if leb count index then none else some index

unfoldable pub item_position : ℕ → Text → ℕ → Result SubscriptionError ℕ
item_position item_count tag item_index = elim (position_below item_index item_count) [
  | none ↦ err (item_out_of_range tag item_index item_count)
  | some index ↦ ok index
]

unfoldable pub command_field_position : Text → ℕ → ℕ → Result SubscriptionError ℕ
command_field_position role position field_count = elim (position_below position field_count) [
  | none ↦ err (command_field_out_of_range role position field_count)
  | some index ↦ ok index
]

-- The positions that `SUBCMD` names, in the schema of the same line.
unfoldable pub command_positions : Option (ℕ × ℕ) → ℕ → Result SubscriptionError (Option (ℕ × ℕ))
command_positions none fields = ok none
command_positions (some (key, command_position)) fields = do
  key_index ← command_field_position (codes "key") key fields
  command_index ← command_field_position (codes "command") command_position fields
  ok (some (key_index, command_index))

abbrev pub with_activation : SubscriptionManager → Activation → SubscriptionManager
with_activation m activation = record {
  mode = m.mode;
  snapshot_requested = m.snapshot_requested;
  declared_items = m.declared_items;
  declared_fields = m.declared_fields;
  activation = activation;
}

abbrev pub one_based : Option (ℕ × ℕ) → Option CommandFields
one_based none = none
one_based (some (key, command_position)) =
    some (record { key = key + 1; command_position = command_position + 1 })

-- `activate`, once the positions of the command fields have been read. Whatever the state was, the
-- trackers are built anew.
abbrev pub activated_with :
    SubscriptionManager → (items fields : ℕ) → Result SubscriptionError (Option (ℕ × ℕ)) → Handled
activated_with m items fields (err e) = (m, err e)
activated_with m items fields (ok zero_based) = (
  with_activation m (
      active (record {
        schema = new_schema items fields m.declared_items m.declared_fields zero_based;
        items = replicate items (new_tracker fields);
      })),
  ok (some (activated items fields (one_based zero_based))),
)

unfoldable pub activate : SubscriptionManager → (items fields : ℕ) → Option (ℕ × ℕ) → Handled
activate m items fields command_fields =
    activated_with m items fields (command_positions command_fields fields)

-- What `apply_update` makes of the result of `ItemState::apply`.
abbrev pub updated_item :
    SubscriptionManager
    → Active
    → ℕ
    → UpdateKind
    → ItemTracker
    → ItemState × Result ProtocolError UpdateOutcome
    → Handled
updated_item m a index kind tracker (state, err e) = (
  with_activation m (
      active (record {
        schema = a.schema;
        items = set a.items index (record {
          state = state;
          seen_update = tracker.seen_update;
          eos_seen = tracker.eos_seen;
        });
      })),
  err (value_error e),
)
updated_item m a index kind tracker (state, ok outcome) = (
  with_activation m (
      active (record {
        schema = a.schema;
        items =
            set a.items index
              (record { state = state; seen_update = true; eos_seen = tracker.eos_seen });
      })),
  ok (
      some (
        updated (record {
          schema = a.schema;
          item = index;
          kind = kind;
          values = map slot_text state.fields;
          changed = outcome.changed;
        }))),
)

-- `apply_update`, once the tracker of the item has been looked up.
abbrev pub update_tracker :
    JsonPatch
    → SubscriptionManager
    → Active
    → (item_index index : ℕ) → Text
    → Option ItemTracker
    → Handled
update_tracker json m a item_index index raw_values none =
    (m, err (item_out_of_range (codes "U") item_index (length a.items)))
update_tracker json m a item_index index raw_values (some tracker) =
    let kind =
      classify_update m.snapshot_requested m.mode tracker.eos_seen (not tracker.seen_update) in
    updated_item m a index kind tracker (apply json tracker.state raw_values)

-- `apply_update`, once the activation has been found.
abbrev pub apply_active :
    JsonPatch → SubscriptionManager → Active → ℕ → Text → Result SubscriptionError ℕ → Handled
apply_active json m a item_index raw_values (err e) = (m, err e)
apply_active json m a item_index raw_values (ok index) =
    update_tracker json m a item_index index raw_values (get_elem? a.items index)

abbrev pub apply_activation : JsonPatch → SubscriptionManager → ℕ → Text → Activation → Handled
apply_activation json m item_index raw_values pending = (m, err (not_activated (codes "U")))
apply_activation json m item_index raw_values (active a) =
    apply_active json m a item_index raw_values
      (item_position (length a.items) (codes "U") item_index)
apply_activation json m item_index raw_values ended = (m, err (ended_error (codes "U")))

unfoldable pub apply_update : JsonPatch → SubscriptionManager → ℕ → Text → Handled
apply_update json m item_index raw_values =
    apply_activation json m item_index raw_values m.activation

-- `SubscriptionManager::item_position`.
abbrev pub position_of : Activation → Text → ℕ → Result SubscriptionError ℕ
position_of pending tag item_index = err (not_activated tag)
position_of (active a) tag item_index = item_position (length a.items) tag item_index
position_of ended tag item_index = err (ended_error tag)

abbrev pub mark_tracker : ItemTracker → ItemTracker
mark_tracker tracker = record {
  state = tracker.state;
  seen_update = tracker.seen_update;
  eos_seen = true;
}

-- The tracker of an item marked, where there is one.
abbrev pub mark_items : List ItemTracker → ℕ → List ItemTracker
mark_items [] index = []
mark_items (tracker ∷ items) zero = mark_tracker tracker ∷ items
mark_items (tracker ∷ items) (suc index) = tracker ∷ mark_items items index

abbrev pub mark_end_of_snapshot : Activation → ℕ → Activation
mark_end_of_snapshot pending index = pending
mark_end_of_snapshot (active a) index =
    active (record { schema = a.schema; items = mark_items a.items index })
mark_end_of_snapshot ended index = ended

-- A notification that reports a position and leaves the state as `change` has it.
abbrev pub reported :
    SubscriptionManager
    → (ℕ → SubscriptionManager)
    → (ℕ → SubscriptionEvent)
    → Result SubscriptionError ℕ
    → Handled
reported m change event (err e) = (m, err e)
reported m change event (ok index) = (change index, ok (some (event (index + 1))))

abbrev pub is_ended : Activation → Bool
is_ended pending = false
is_ended (active a) = false
is_ended ended = true

unfoldable pub handle : JsonPatch → SubscriptionManager → Notification → Handled
handle json m (subscription_ok id item_count field_count) = activate m item_count field_count none
handle json m (subscription_command_ok id item_count field_count key command_position) =
    activate m item_count field_count (some (key, command_position))
handle json m (update id item_index raw_values) = apply_update json m item_index raw_values
handle json m (end_of_snapshot id item_index) =
    reported m (λ index. with_activation m (mark_end_of_snapshot m.activation index)) snapshot_ended
      (position_of m.activation (codes "EOS") item_index)
handle json m (clear_snapshot id item_index) =
    reported m (λ index. m) snapshot_cleared (position_of m.activation (codes "CS") item_index)
handle json m (overflow id item_index dropped_count) =
    reported m (λ index. m) (λ index. overflowed index dropped_count)
      (position_of m.activation (codes "OV") item_index)
handle json m (subscription_reconfigured id max_frequency filtering) =
    if is_ended m.activation
    then (m, err (ended_error (codes "CONF")))
    else (m, ok (some (reconfigured max_frequency filtering)))
handle json m (unsubscribed id) = (with_activation m ended, ok (some unsubscribed_event))
handle json m other = (m, ok none)

-- `SubscriptionManager::new`.
abbrev pub new_manager : SubscriptionMode → Bool → List Text → List Text → SubscriptionManager
new_manager mode snapshot_requested declared_items declared_fields = record {
  mode = mode;
  snapshot_requested = snapshot_requested;
  declared_items = declared_items;
  declared_fields = declared_fields;
  activation = pending;
}
