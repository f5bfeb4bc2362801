-- ===== src/Session/Driver/Messages/Data.antt =====
-- Notifications of data leave the messages alone.
use lightstreamer_rs.Base.{ℕ, zero, suc, ◌≡◌, refl, arith, Option, none, some, Result, ok, err}
use lightstreamer_rs.Protocol.Diff.{JsonPatch}
use lightstreamer_rs.Protocol.Notifications.{Notification, message_done, message_failed}
use lightstreamer_rs.Session.Registry.{Registry, RegistryEntry, get}
use lightstreamer_rs.Subscription.Events.{SubscriptionError, SubscriptionEvent}
use lightstreamer_rs.Session.Driver.{
  SessionDriver, OpenIntent, rebind, recover, on_data, on_data_skipping, deliver, counted,
  reported_as, interpret_for_subscription, interpret_resolved, resolve_subscription,
  interpret_entry, on_prog, on_prog_for,
}
use lightstreamer_rs.Session.Driver.Messages.{reported}
use lightstreamer_rs.Session.Driver.Messages.Steps.{Idle}
use lightstreamer_rs.Subscription.Manager.{handle}
use lightstreamer_rs.Protocol.Notifications.{MessageSequence}

module _ (w : MessageSequence → Option ℕ → ℕ) where
  reported-reported_as :
      (position key : ℕ) (outcome : Result SubscriptionError (Option SubscriptionEvent))
      → reported w (reported_as position key outcome) ≡ 0
  reported-reported_as position key (ok none) = refl
  reported-reported_as position key (ok (some event)) = refl
  reported-reported_as position key (err error) = refl

  reported-interpret_resolved :
      (json : JsonPatch) (r : Registry) (position : ℕ) (n : Notification)
      (resolved : Option (ℕ × ℕ))
      → reported w (interpret_resolved json r position n resolved).1 ≡ 0
  reported-interpret_resolved json r position n none = refl
  reported-interpret_resolved json r position n (some (sub_id, key)) = entry (get r.entries key)
    where
      entry :
          (o : Option RegistryEntry)
          → reported w (interpret_entry json r position sub_id key n o).1 ≡ 0
      entry none = refl
      entry (some e) = reported-reported_as position key (handle json e.manager n).1

  reported-interpret :
      (json : JsonPatch) (r : Registry) (position : ℕ) (n : Notification)
      → reported w (interpret_for_subscription json r position n).1 ≡ 0
  unfolding interpret_for_subscription
  reported-interpret json r position n =
      reported-interpret_resolved json r position n (resolve_subscription r n)

  reported-deliver :
      (json : JsonPatch) (r : Registry) (position : ℕ) (n : Notification)
      → reported w (deliver json r position n).1 ≡ 0
  unfolding deliver
  reported-deliver json r position (message_done sequence prog response) = refl
  reported-deliver json r position (message_failed sequence prog code text) = refl
  reported-deliver json r position other = reported-interpret json r position other

  Idle-on_data_skipping :
      (json : JsonPatch) (d : SessionDriver) (n : Notification) (skip : ℕ)
      → Idle w d (on_data_skipping json d n skip)
  Idle-on_data_skipping json d n zero =
      omega (arith, reported-deliver json d.registry (counted d.progressive) n)
  Idle-on_data_skipping json d n (suc remaining) = omega arith

  pub Idle-on_data :
      (json : JsonPatch) (d : SessionDriver) (n : Notification) → Idle w d (on_data json d n)
  unfolding on_data
  Idle-on_data json d n = Idle-on_data_skipping json d n d.skip_remaining

  pub Idle-on_prog : (d : SessionDriver) (position : ℕ) → Idle w d (on_prog d position)
  unfolding on_prog
  Idle-on_prog d position = answer d.intent
    where
      answer : (intent : OpenIntent) → Idle w d (on_prog_for d position intent)
      answer OpenIntent.create = omega arith
      answer rebind = omega arith
      answer (recover requested) = ground arith
