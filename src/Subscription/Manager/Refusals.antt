-- ===== src/Subscription/Manager/Refusals.antt =====
-- What a subscription refuses, and that a refused notification leaves no trace.
use lightstreamer_rs.Base.{
  ℕ, ◌≡◌, inl, inr, refl, ap, Option, none, some, get_elem?, length, Result, ok, err, not, codes,
  Bool-cases, List, [], ◌∷◌, ◌==◌, if◌then◌else◌,
}
use lightstreamer_rs.Text.{Text}
use lightstreamer_rs.Protocol.Errors.{ProtocolError}
use lightstreamer_rs.Protocol.Notifications.{
  Notification, update, subscription_ok, subscription_command_ok, unsubscribed, end_of_snapshot,
  clear_snapshot, overflow, subscription_reconfigured,
}
use lightstreamer_rs.Protocol.Response.Printer.{print}
use lightstreamer_rs.Protocol.Diff.{JsonPatch}
use lightstreamer_rs.Subscription.Update.{ItemState, UpdateOutcome, apply}
use lightstreamer_rs.Subscription.Update.Fields.{apply_refused}
use lightstreamer_rs.Subscription.ItemUpdate.{UpdateKind}
use lightstreamer_rs.Subscription.Events.{
  classify_update, snapshot_ended, snapshot_cleared, overflowed, SubscriptionEvent,
  SubscriptionError, ended_error, unsubscribed_event,
}
use lightstreamer_rs.Subscription.Manager.{
  ItemTracker, Active, Activation, pending, active, ended, SubscriptionManager, handle, activate,
  apply_update, activated_with, updated_item, apply_active, apply_activation, update_tracker,
  position_of, mark_end_of_snapshot, reported, command_positions, with_activation, Handled,
  is_ended, item_position,
}
use lightstreamer_rs.Subscription.Manager.Shape.{set-get_elem?}

-- A result that, if it is an error, comes with the state as it was.
abbrev pub KeepsRefused : SubscriptionManager → Handled → Type 0
KeepsRefused m out = (e : SubscriptionError) → out.1 ≡ err e → out.0 ≡ m

updated_item-KeepsRefused :
    (m : SubscriptionManager) (a : Active) (index : ℕ) (kind : UpdateKind) (tracker : ItemTracker)
    (state : ItemState) (r : Result ProtocolError UpdateOutcome)
    → m.activation ≡ active a
    → get_elem? a.items index ≡ some tracker
    → ((e : ProtocolError) → r ≡ err e → state ≡ tracker.state)
    → KeepsRefused m (updated_item m a index kind tracker (state, r))
updated_item-KeepsRefused m a index kind tracker state (ok outcome) p g kept e h = cc
updated_item-KeepsRefused m a index kind tracker state (err pe) p g kept e h =
    let s = kept pe refl in let back = set-get_elem? a.items index g in rw (s, back, ← p)

update_tracker-KeepsRefused :
    (json : JsonPatch) (m : SubscriptionManager) (a : Active) (item_index index : ℕ)
    (raw_values : Text) (o : Option ItemTracker)
    → m.activation ≡ active a
    → get_elem? a.items index ≡ o
    → KeepsRefused m (update_tracker json m a item_index index raw_values o)
update_tracker-KeepsRefused json m a item_index index raw_values none p g e h = refl
update_tracker-KeepsRefused json m a item_index index raw_values (some tracker) p g e h =
    let kind =
      classify_update m.snapshot_requested m.mode tracker.eos_seen (not tracker.seen_update) in
    let out = apply json tracker.state raw_values in
    updated_item-KeepsRefused m a index kind tracker out.0 out.1 p g
      (λ pe q. apply_refused json tracker.state out.0 raw_values pe (ap (λ r. (out.0, r)) q)) e h

activation-KeepsRefused :
    (json : JsonPatch) (m : SubscriptionManager) (item_index : ℕ) (raw_values : Text)
    (activation : Activation)
    → m.activation ≡ activation
    → KeepsRefused m (apply_activation json m item_index raw_values activation)
activation-KeepsRefused json m item_index raw_values pending p e h = refl
activation-KeepsRefused json m item_index raw_values (active a) p e h =
    go (item_position (length a.items) (codes "U") item_index) e h
  where
    go :
        (r : Result SubscriptionError ℕ)
        → KeepsRefused m (apply_active json m a item_index raw_values r)
    go (err x) e h = refl
    go (ok index) e h =
        update_tracker-KeepsRefused json m a item_index index raw_values (get_elem? a.items index) p
          refl e h
activation-KeepsRefused json m item_index raw_values ended p e h = refl

activated_with-KeepsRefused :
    (m : SubscriptionManager) (items fields : ℕ) (r : Result SubscriptionError (Option (ℕ × ℕ)))
    → KeepsRefused m (activated_with m items fields r)
activated_with-KeepsRefused m items fields (err x) e h = refl
activated_with-KeepsRefused m items fields (ok zero_based) e h = cc

reported-KeepsRefused :
    (m : SubscriptionManager) (change : ℕ → SubscriptionManager) (event : ℕ → SubscriptionEvent)
    (r : Result SubscriptionError ℕ)
    → KeepsRefused m (reported m change event r)
reported-KeepsRefused m change event (err x) e h = refl
reported-KeepsRefused m change event (ok index) e h = cc

-- A notification that is refused leaves the subscription as it was: its activation, its trackers and
-- the values of its items.
pub handle-KeepsRefused :
    (json : JsonPatch) (m : SubscriptionManager) (n : Notification) (e : SubscriptionError)
    → (handle json m n).1 ≡ err e
    → (handle json m n).0 ≡ m
unfolding handle activate apply_update
handle-KeepsRefused json m (subscription_ok id items fields) e h =
    activated_with-KeepsRefused m items fields (command_positions none fields) e h
handle-KeepsRefused json m (subscription_command_ok id items fields key command_position) e h =
    activated_with-KeepsRefused m items fields
      (command_positions (some (key, command_position)) fields) e h
handle-KeepsRefused json m (update id item_index raw_values) e h =
    activation-KeepsRefused json m item_index raw_values m.activation refl e h
handle-KeepsRefused json m (end_of_snapshot id item_index) e h =
    reported-KeepsRefused m (λ index. with_activation m (mark_end_of_snapshot m.activation index))
      snapshot_ended (position_of m.activation (codes "EOS") item_index) e h
handle-KeepsRefused json m (clear_snapshot id item_index) e h =
    reported-KeepsRefused m (λ index. m) snapshot_cleared
      (position_of m.activation (codes "CS") item_index) e h
handle-KeepsRefused json m (overflow id item_index dropped_count) e h =
    reported-KeepsRefused m (λ index. m) (λ index. overflowed index dropped_count)
      (position_of m.activation (codes "OV") item_index) e h
handle-KeepsRefused json m (subscription_reconfigured id max_frequency filtering) e h =
    elim (Bool-cases (is_ended m.activation)) [ inl q ↦ rw q | inr q ↦ rw q ]
handle-KeepsRefused json m (unsubscribed id) e h = cc
handle-KeepsRefused json m other e h = refl

-- What a line of the server begins with, before its first comma.
abbrev pub line_tag : Text → Text
line_tag [] = []
line_tag (c ∷ t) = let rest = line_tag t in if c == b',' then [] else c ∷ rest

-- What an ended subscription answers: anything about its flow is refused, by the tag of its line. It
-- may be ended again, and has nothing to do with other notifications.
abbrev pub ended_answer : Notification → Result SubscriptionError (Option SubscriptionEvent)
ended_answer (update id item_index raw_values) =
    err (ended_error (line_tag (print (update id item_index raw_values))))
ended_answer (end_of_snapshot id item_index) =
    err (ended_error (line_tag (print (end_of_snapshot id item_index))))
ended_answer (clear_snapshot id item_index) =
    err (ended_error (line_tag (print (clear_snapshot id item_index))))
ended_answer (overflow id item_index dropped_count) =
    err (ended_error (line_tag (print (overflow id item_index dropped_count))))
ended_answer (subscription_reconfigured id max_frequency filtering) =
    err (ended_error (line_tag (print (subscription_reconfigured id max_frequency filtering))))
ended_answer (unsubscribed id) = ok (some unsubscribed_event)
ended_answer other = ok none

-- A notification that does not start the subscription.
abbrev pub IsNoStart : Notification → Type 0
IsNoStart (subscription_ok id items fields) = ⊥
IsNoStart (subscription_command_ok id items fields key command_position) = ⊥
IsNoStart other = Unit

-- The answers to one notification after the other, and the state that they leave.
abbrev pub handle_all :
    JsonPatch
    → SubscriptionManager
    → List Notification
    → SubscriptionManager × List (Result SubscriptionError (Option SubscriptionEvent))
handle_all json m [] = (m, [])
handle_all json m (n ∷ ns) =
    let (m', answer) = handle json m n in
    let (m'', answers) = handle_all json m' ns in (m'', answer ∷ answers)
