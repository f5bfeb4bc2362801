-- ===== src/Subscription/Events.antt =====
-- src/subscription/manager.rs: the events and errors of a subscription, and which of its updates
-- are snapshot.
use lightstreamer_rs.Base.{ℕ, Bool, true, false, Option, if◌then◌else◌}
use lightstreamer_rs.Text.{Text}
use lightstreamer_rs.Protocol.Errors.{ProtocolError}
use lightstreamer_rs.Protocol.Notifications.{MaxFrequency, FilteringMode}
use lightstreamer_rs.Protocol.Requests.{SubscriptionMode, raw, merge, distinct, command}
use lightstreamer_rs.Subscription.ItemUpdate.{UpdateKind, snapshot, real_time, ItemUpdate}

pub data SubscriptionError : Type 0 where
  not_activated : (tag : Text) → SubscriptionError
  ended_error : (tag : Text) → SubscriptionError
  item_out_of_range : (tag : Text) (item_index item_count : ℕ) → SubscriptionError
  command_field_out_of_range : (role : Text) (position field_count : ℕ) → SubscriptionError
  value_error : ProtocolError → SubscriptionError

pub record CommandFields : Type 0 where
  pub key : ℕ
  pub command_position : ℕ

pub data SubscriptionEvent : Type 0 where
  activated : (item_count field_count : ℕ) → Option CommandFields → SubscriptionEvent
  updated : ItemUpdate → SubscriptionEvent
  snapshot_ended : (item_index : ℕ) → SubscriptionEvent
  snapshot_cleared : (item_index : ℕ) → SubscriptionEvent
  overflowed : (item_index dropped_count : ℕ) → SubscriptionEvent
  reconfigured : MaxFrequency → FilteringMode → SubscriptionEvent
  unsubscribed_event : SubscriptionEvent

unfoldable pub classify_update :
    (snapshot_requested : Bool)
    → SubscriptionMode
    → (eos_received first_notification : Bool) → UpdateKind
classify_update false mode eos_received first_notification = real_time
classify_update true raw eos_received first_notification = real_time
classify_update true merge eos_received first_notification =
    if first_notification then snapshot else real_time
classify_update true distinct eos_received first_notification =
    if eos_received then real_time else snapshot
classify_update true command eos_received first_notification =
    if eos_received then real_time else snapshot
