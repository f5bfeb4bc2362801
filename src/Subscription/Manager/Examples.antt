-- ===== src/Subscription/Manager/Examples.antt =====
-- Runs of a subscription, and the theorems about it and its updates at concrete inputs.
use lightstreamer_rs.Base.{◌≡◌, arith, refl, true, none, some, [], ◌∷◌, ok, err, codes}
use lightstreamer_rs.Protocol.Notifications.{subscription_ok, update, end_of_snapshot, overflow}
use lightstreamer_rs.Subscription.Update.{new}
use lightstreamer_rs.Subscription.ItemUpdate.{
  ItemUpdate, field_name, find_name, real_time, new_schema, name_positions,
}
use lightstreamer_rs.Subscription.ItemUpdate.Names.{field_name-field_position}
use lightstreamer_rs.Subscription.ItemUpdate.Views.{changed_fields, fields, is_changed}
use lightstreamer_rs.Subscription.ItemUpdate.Iterators.{keep_if, changed_fields-fields}
use lightstreamer_rs.Protocol.Requests.{distinct}
use lightstreamer_rs.Subscription.Events.{item_out_of_range, snapshot_ended}
use lightstreamer_rs.Subscription.Manager.{
  SubscriptionManager, handle, new_manager, activate, command_positions, item_position,
}
use lightstreamer_rs.Subscription.Manager.Shape.{IsShaped, handle-IsShaped}
use lightstreamer_rs.Subscription.Manager.Refusals.{handle-KeepsRefused}

abbrev declared : SubscriptionManager
declared = new_manager distinct true (codes "news" ∷ []) (codes "title" ∷ codes "text" ∷ [])

-- One item of two fields.
abbrev opened : SubscriptionManager
opened = (handle none declared (subscription_ok 1 1 2)).0

second_item : (handle none opened (overflow 1 2 7)).1 ≡ err (item_out_of_range (codes "OV") 2 1)
unfolding handle activate command_positions new_schema name_positions new item_position
second_item = refl

snapshot_over : (handle none opened (end_of_snapshot 1 1)).1 ≡ ok (some (snapshot_ended 1))
unfolding handle activate command_positions new_schema name_positions new item_position
snapshot_over = refl

handle-IsShaped_example : IsShaped (handle none opened (update 1 1 (codes "a|b"))).0.activation
unfolding handle activate command_positions
handle-IsShaped_example =
    handle-IsShaped none opened (update 1 1 (codes "a|b"))
      (handle-IsShaped none declared (subscription_ok 1 1 2) tt)

handle-KeepsRefused_example : (handle none opened (overflow 1 2 7)).0 ≡ opened
handle-KeepsRefused_example =
    handle-KeepsRefused none opened (overflow 1 2 7) (item_out_of_range (codes "OV") 2 1)
      second_item

abbrev shown : ItemUpdate
shown = record {
  schema = new_schema 1 2 (codes "news" ∷ []) (codes "title" ∷ codes "text" ∷ []) none;
  item = 0;
  kind = real_time;
  values = none ∷ some (codes "b") ∷ [];
  changed = 1 ∷ [];
}

field_name-field_position_example : field_name shown 2 ≡ some (codes "text")
unfolding find_name new_schema name_positions
field_name-field_position_example = field_name-field_position shown (codes "text") 2 refl

changed_fields-fields_example : changed_fields shown ≡ keep_if is_changed (fields shown)
changed_fields-fields_example = changed_fields-fields shown (omega arith, omega arith, tt)
