-- ===== src/Subscription/Manager/Shape.antt =====
-- The trackers of a subscription fit its schema, and a refused notification leaves no trace.
use lightstreamer_rs.Base.{
  ℕ, zero, suc, ◌+◌, ◌≡◌, inl, inr, refl, sym, ap, subst, ◌∙◌, true, Option, none, some, List, [],
  ◌∷◌, length, get_elem?, set, replicate, length-set, length-replicate, All, Result, ok, err, not,
  codes, Bool-cases,
}
use lightstreamer_rs.Text.{Text}
use lightstreamer_rs.Protocol.Errors.{ProtocolError}
use lightstreamer_rs.Protocol.Notifications.{
  Notification, update, subscription_ok, subscription_command_ok, unsubscribed, end_of_snapshot,
  clear_snapshot, overflow, subscription_reconfigured,
}
use lightstreamer_rs.Protocol.Diff.{JsonPatch}
use lightstreamer_rs.Subscription.Update.{ItemState, UpdateOutcome, unset, new, apply, field_count}
use lightstreamer_rs.Subscription.Update.Fields.{field_count-apply}
use lightstreamer_rs.Subscription.ItemUpdate.{
  UpdateKind, SubscriptionSchema, new_schema, name_positions,
}
use lightstreamer_rs.Subscription.Events.{
  classify_update, snapshot_ended, snapshot_cleared, overflowed, SubscriptionEvent,
  SubscriptionError,
}
use lightstreamer_rs.Subscription.Manager.{
  ItemTracker, new_tracker, Active, Activation, pending, active, ended, SubscriptionManager, handle,
  activate, apply_update, activated_with, updated_item, apply_active, apply_activation,
  update_tracker, position_of, mark_items, mark_end_of_snapshot, reported, command_positions,
  with_activation, is_ended, item_position,
}

module _ {ℓ κ} {A : Type ℓ} (P : A → Type κ) where
  All-set : (xs : List A) (i : ℕ) (v : A) → All P xs → P v → All P (set xs i v)
  All-set [] i v h hv = tt
  All-set (x ∷ xs) zero v (hx, h) hv = (hv, h)
  All-set (x ∷ xs) (suc i) v (hx, h) hv = (hx, All-set xs i v h hv)

  All-get_elem? : (xs : List A) (i : ℕ) (v : A) → All P xs → get_elem? xs i ≡ some v → P v
  All-get_elem? [] i v h e = cc
  All-get_elem? (x ∷ xs) zero v (hx, h) e = let p : x ≡ v = cc in subst P p hx
  All-get_elem? (x ∷ xs) (suc i) v (hx, h) e = All-get_elem? xs i v h e

  All-replicate : (n : ℕ) (v : A) → P v → All P (replicate n v)
  All-replicate zero v hv = tt
  All-replicate (suc n) v hv = (hv, All-replicate n v hv)

pub set-get_elem? {ℓ} :
    {A : Type ℓ} (xs : List A) (i : ℕ) {v : A} → get_elem? xs i ≡ some v → set xs i v ≡ xs
set-get_elem? [] i e = refl
set-get_elem? (x ∷ xs) zero e = cc
set-get_elem? (x ∷ xs) (suc i) e = ap (λ l. x ∷ l) (set-get_elem? xs i e)

length-name_positions :
    (index count : ℕ) (declared : List Text) → length (name_positions index count declared) ≡ count
unfolding name_positions
length-name_positions index zero declared = refl
length-name_positions index (suc count) declared =
    ap suc (length-name_positions (index + 1) count declared)

-- A tracker whose item has the fields of the schema.
abbrev pub Fits : SubscriptionSchema → ItemTracker → Type 0
Fits schema tracker = field_count tracker.state ≡ length schema.fields

-- An active subscription has one tracker for each item of its schema, and each has its fields.
abbrev pub IsShaped : Activation → Type 0
IsShaped pending = Unit
IsShaped (active a) = (length a.items ≡ length a.schema.items) × All (Fits a.schema) a.items
IsShaped ended = Unit

activated_with-IsShaped :
    (m : SubscriptionManager) (items fields : ℕ) (r : Result SubscriptionError (Option (ℕ × ℕ)))
    → IsShaped m.activation
    → IsShaped (activated_with m items fields r).0.activation
unfolding new_schema new
activated_with-IsShaped m items fields (err e) h = h
activated_with-IsShaped m items fields (ok zero_based) h = (
  length-replicate items (new_tracker fields)
      ∙ sym (length-name_positions 0 items m.declared_items),
  All-replicate (Fits (new_schema items fields m.declared_items m.declared_fields zero_based)) items
      (new_tracker fields)
      (length-replicate fields unset ∙ sym (length-name_positions 0 fields m.declared_fields)),
)

-- A tracker replaced by one that fits keeps the shape.
set-IsShaped :
    (a : Active) (index : ℕ) (tracker : ItemTracker)
    → IsShaped (active a)
    → Fits a.schema tracker
    → IsShaped (active (record { schema = a.schema; items = set a.items index tracker }))
set-IsShaped a index tracker (hl, hf) ht =
    (length-set a.items index tracker ∙ hl, All-set (Fits a.schema) a.items index tracker hf ht)

updated_item-IsShaped :
    (m : SubscriptionManager) (a : Active) (index : ℕ) (kind : UpdateKind) (tracker : ItemTracker)
    (out : ItemState × Result ProtocolError UpdateOutcome)
    → IsShaped (active a)
    → field_count out.0 ≡ length a.schema.fields
    → IsShaped (updated_item m a index kind tracker out).0.activation
updated_item-IsShaped m a index kind tracker (state, err e) h fits =
    set-IsShaped a index
      (record { state = state; seen_update = tracker.seen_update; eos_seen = tracker.eos_seen }) h
      fits
updated_item-IsShaped m a index kind tracker (state, ok outcome) h fits =
    set-IsShaped a index (record { state = state; seen_update = true; eos_seen = tracker.eos_seen })
      h fits

update_tracker-IsShaped :
    (json : JsonPatch) (m : SubscriptionManager) (a : Active) (item_index index : ℕ)
    (raw_values : Text) (o : Option ItemTracker)
    → m.activation ≡ active a
    → IsShaped (active a)
    → get_elem? a.items index ≡ o
    → IsShaped (update_tracker json m a item_index index raw_values o).0.activation
update_tracker-IsShaped json m a item_index index raw_values none p h e = rw p h
update_tracker-IsShaped json m a item_index index raw_values (some tracker) p h e =
    let fits = All-get_elem? (Fits a.schema) a.items index tracker h.1 e in
    let out = apply json tracker.state raw_values in
    let kept = field_count-apply json tracker.state out.0 raw_values out.1 refl in
    let kind =
      classify_update m.snapshot_requested m.mode tracker.eos_seen (not tracker.seen_update) in
    updated_item-IsShaped m a index kind tracker out h (kept ∙ fits)

apply_active-IsShaped :
    (json : JsonPatch) (m : SubscriptionManager) (a : Active) (item_index : ℕ) (raw_values : Text)
    (r : Result SubscriptionError ℕ)
    → m.activation ≡ active a
    → IsShaped (active a)
    → IsShaped (apply_active json m a item_index raw_values r).0.activation
apply_active-IsShaped json m a item_index raw_values (err e) p h = rw p h
apply_active-IsShaped json m a item_index raw_values (ok index) p h =
    update_tracker-IsShaped json m a item_index index raw_values (get_elem? a.items index) p h refl

apply_activation-IsShaped :
    (json : JsonPatch) (m : SubscriptionManager) (item_index : ℕ) (raw_values : Text)
    (activation : Activation)
    → m.activation ≡ activation
    → IsShaped activation
    → IsShaped (apply_activation json m item_index raw_values activation).0.activation
apply_activation-IsShaped json m item_index raw_values pending p h = rw p h
apply_activation-IsShaped json m item_index raw_values (active a) p h =
    apply_active-IsShaped json m a item_index raw_values
      (item_position (length a.items) (codes "U") item_index) p h
apply_activation-IsShaped json m item_index raw_values ended p h = rw p h

length-mark_items :
    (items : List ItemTracker) (index : ℕ) → length (mark_items items index) ≡ length items
length-mark_items [] index = refl
length-mark_items (t ∷ items) zero = refl
length-mark_items (t ∷ items) (suc index) = ap suc (length-mark_items items index)

mark_items-Fits :
    (schema : SubscriptionSchema) (items : List ItemTracker) (index : ℕ)
    → All (Fits schema) items
    → All (Fits schema) (mark_items items index)
mark_items-Fits schema [] index h = tt
mark_items-Fits schema (t ∷ items) zero h = h
mark_items-Fits schema (t ∷ items) (suc index) (ht, h) = (ht, mark_items-Fits schema items index h)

mark_end_of_snapshot-IsShaped :
    (activation : Activation) (index : ℕ)
    → IsShaped activation
    → IsShaped (mark_end_of_snapshot activation index)
mark_end_of_snapshot-IsShaped pending index h = tt
mark_end_of_snapshot-IsShaped (active a) index (hl, hf) =
    (length-mark_items a.items index ∙ hl, mark_items-Fits a.schema a.items index hf)
mark_end_of_snapshot-IsShaped ended index h = tt

reported-IsShaped :
    (m : SubscriptionManager) (change : ℕ → SubscriptionManager) (event : ℕ → SubscriptionEvent)
    (r : Result SubscriptionError ℕ)
    → IsShaped m.activation
    → ((index : ℕ) → IsShaped (change index).activation)
    → IsShaped (reported m change event r).0.activation
reported-IsShaped m change event (err e) h hc = h
reported-IsShaped m change event (ok index) h hc = hc index

-- If an active subscription has one tracker for each item of its schema, each with the fields of the
-- schema, then so it has after every notification, accepted or refused.
pub handle-IsShaped :
    (json : JsonPatch) (m : SubscriptionManager) (n : Notification)
    → IsShaped m.activation
    → IsShaped (handle json m n).0.activation
unfolding handle activate apply_update
handle-IsShaped json m (subscription_ok id items fields) h =
    activated_with-IsShaped m items fields (command_positions none fields) h
handle-IsShaped json m (subscription_command_ok id items fields key command_position) h =
    activated_with-IsShaped m items fields (command_positions (some (key, command_position)) fields)
      h
handle-IsShaped json m (update id item_index raw_values) h =
    apply_activation-IsShaped json m item_index raw_values m.activation refl h
handle-IsShaped json m (end_of_snapshot id item_index) h =
    reported-IsShaped m (λ index. with_activation m (mark_end_of_snapshot m.activation index))
      snapshot_ended (position_of m.activation (codes "EOS") item_index) h
      (λ index. mark_end_of_snapshot-IsShaped m.activation index h)
handle-IsShaped json m (clear_snapshot id item_index) h =
    reported-IsShaped m (λ index. m) snapshot_cleared
      (position_of m.activation (codes "CS") item_index) h (λ index. h)
handle-IsShaped json m (overflow id item_index dropped_count) h =
    reported-IsShaped m (λ index. m) (λ index. overflowed index dropped_count)
      (position_of m.activation (codes "OV") item_index) h (λ index. h)
handle-IsShaped json m (subscription_reconfigured id max_frequency filtering) h =
    elim (Bool-cases (is_ended m.activation)) [ inl e ↦ rw e h | inr e ↦ rw e h ]
handle-IsShaped json m (unsubscribed id) h = tt
handle-IsShaped json m other h = h
