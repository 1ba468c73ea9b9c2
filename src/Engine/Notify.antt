-- ===== src/Engine/Notify.antt =====
-- The outcomes of `retryOrFail` (src/engine/base.ts) and of a success in src/engine/incoming.ts.
use nxt_device_messaging.Common.{
  ◌≤◌, Bool-cases, Text, ◌≡◌, ◌≢◌, refl, sym, ap, subst, ◌∙◌, ◌⊎◌, inl, inr, Bool, true, false,
  Option, none, some, List, ◌∷◌, arith,
}
use nxt_device_messaging.Message.{
  DeviceMessage, ParsedIncomingEvent, FailureContext, delivery_successful,
}
use nxt_device_messaging.Plugin.{DeliveryPlugin, DeliveryConfig, delivery}
use nxt_device_messaging.Redis.{MessageHash, Redis}
use nxt_device_messaging.Redis.Keys.{message_key}
use nxt_device_messaging.Redis.MessageStore.{
  found, truthy, get_message_by_id, get_message_id_from_delivery_queue_id, deserialize_message,
}
use nxt_device_messaging.Redis.MessageStore.Fields.{deserialize_message-ReadFrom}
use nxt_device_messaging.Lifecycle.Home.{Registry, IsKeyed, AtHome}
use nxt_device_messaging.Lifecycle.Moves.{EnterRetryArgs, enter_retry, purge}
use nxt_device_messaging.Lifecycle.Moves.Retry.{EnteredRetry, enter_retry-EnteredRetry}
use nxt_device_messaging.Lifecycle.Moves.Purge.{Purged, purge-Purged}
use nxt_device_messaging.Engine.{
  StageOutcome, removed, DeliveryEvent, Webhook, unwired, storing, failing, message_event, Call,
  World, emit_delivery_event, purge_notified, outcome_of_entry, retry_or_fail, retry_or_fail_found,
  is_final_failure, failed_message, new_failure_history, settle,
}
use nxt_device_messaging.Engine.Shown.{FailedFinally, Succeeded, updated-Succeeded}
use nxt_device_messaging.Engine.Incoming.{
  process_event, process_solicited, process_delivery, process_message, process_handling, handling,
  positive,
}

module _ (R : Redis) (id : Text) (db : R.Db) (h : MessageHash) (m : DeviceMessage)
    (there : (R.view db).hash (message_key id) ≡ some h)
    (read : deserialize_message id h ≡ some m) where
  lookup-found : get_message_by_id R id db ≡ found m
  unfolding get_message_by_id
  lookup-found = rw (there, read) refl

  id-read : m.id ≡ id
  id-read = (deserialize_message-ReadFrom id h m read).id_eq

  -- The purge of a message found under its id.
  found-Purged :
      (reg : Registry) (config : DeliveryConfig) (plugin : DeliveryPlugin)
      → reg m.plugin_id ≡ some (delivery plugin)
      → IsKeyed reg
      → AtHome reg (R.view db)
      → Purged m (R.view (purge R config m plugin db))
  found-Purged reg config plugin owned keyed home_all =
      purge-Purged R reg config db m h plugin
        (subst (λ (i : Text). (R.view db).hash (message_key i) ≡ some h) (sym id-read) there)
        (subst (λ (i : Text). deserialize_message i h ≡ some m) (sym id-read) read) owned keyed
        home_all

module _ (R : Redis) (config : DeliveryConfig) (c : Call) (id queue : Text)
    (context : FailureContext) (plugin : DeliveryPlugin) (w : World R) where
  -- The arguments with which a failed attempt enters the retry stage.
  abbrev pub retry_args : DeviceMessage → EnterRetryArgs
  retry_args m = record {
    message_id = id;
    from_key = queue;
    current_retry_count = m.retry_count;
    failure_history = new_failure_history false c.timestamp context m;
    plugin = plugin;
  }

  settled :
      (m : DeviceMessage)
      → get_message_by_id R id w.db ≡ found m
      → retry_or_fail R config c id queue context plugin w
        ≡ settle R config c queue context plugin (is_final_failure config context m) id m w
  unfolding retry_or_fail retry_or_fail_found
  settled m e = rw e refl

  exhausted-final :
      (m : DeviceMessage)
      → (context.skip_retry ≡ true) ⊎ (config.max_retries ≤ m.retry_count)
      → is_final_failure config context m ≡ true
  exhausted-final m (inl skip) = ground arith
  exhausted-final m (inr spent) = elim (Bool-cases context.skip_retry) [
    | inl e ↦ ground arith
    | inr e ↦ ground arith
  ]

  -- An attempt that fails with an unrecoverable error, or when the retries that the configuration
  -- allows are spent, of a message that is found, with a webhook that stores its event, and with every
  -- message at home in a registry that keeps the owning plugin under its own id: the outcome is
  -- `removed`, one event is stored, which shows the message as failed, with the reason of this failure
  -- and the status that it failed in as the newest entry of its history and all else as it was, and the
  -- message is purged.
  pub retry_or_fail_final :
      (reg : Registry) (h : MessageHash) (m : DeviceMessage)
      → (R.view w.db).hash (message_key id) ≡ some h
      → deserialize_message id h ≡ some m
      → (context.skip_retry ≡ true) ⊎ (config.max_retries ≤ m.retry_count)
      → c.webhook ≡ storing
      → reg m.plugin_id ≡ some (delivery plugin)
      → IsKeyed reg
      → AtHome reg (R.view w.db)
      → ((retry_or_fail R config c id queue context plugin w).0 ≡ some removed)
        × (shown : DeviceMessage) × ((retry_or_fail R config c id queue context plugin w).1.events
            ≡ message_event shown ∷ w.events)
        × FailedFinally c.timestamp context m shown
        × Purged m (R.view (retry_or_fail R config c id queue context plugin w).1.db)
  retry_or_fail_final reg h m there read spent stores owned keyed home_all =
      rw (settled m (lookup-found R id w.db h m there read), exhausted-final m spent, stores)
        (
          refl,
          failed_message c.timestamp context m,
          refl,
          record {
            status = refl;
            history = refl;
            response = refl;
            device = refl;
            same = record {
              id = refl;
              command_type = refl;
              priority = refl;
              plugin_id = refl;
              request_data = refl;
              phase = refl;
              network_id = refl;
              correlation_id = refl;
              delivery_queue_id = refl;
              retry_count = refl;
            };
          },
          found-Purged R id w.db h m there read reg config plugin owned keyed home_all,
        )

  -- Whichever way the entry goes, a hash that was there stays.
  keeps_hash :
      (a : EnterRetryArgs) (h : MessageHash) (r : Bool × R.Db)
      → a.message_id ≡ id
      → (R.view w.db).hash (message_key id) ≡ some h
      → (r ≡ (false, w.db)) ⊎ ((r.0 ≡ true) × EnteredRetry a (R.view r.1))
      → (R.view (outcome_of_entry R config w r).1.db).hash (message_key id) ≢ none
  keeps_hash a h (b, db) e there (inl same) = kept b db same
    where
      kept :
          (b : Bool) (db : R.Db)
          → ◌≡◌ {A = Bool × R.Db} (b, db) (false, w.db)
          → (R.view (outcome_of_entry R config w (b, db)).1.db).hash (message_key id) ≢ none
      kept true db same gone = cc
      kept false db same gone =
          cc (ap (λ (r : Bool × R.Db). (R.view r.1).hash (message_key id)) same)
  keeps_hash a h (true, db) e there (inr (answer, entered)) =
      λ gone. cc (ap message_key e, entered.hash)
  keeps_hash a h (false, db) e there (inr (answer, entered)) = λ gone. cc

  entry_result :
      (m : DeviceMessage)
      → (enter_retry R config c.instant (retry_args m) w.db ≡ (false, w.db))
        ⊎ (((enter_retry R config c.instant (retry_args m) w.db).0 ≡ true)
            × EnteredRetry
                (retry_args m)
                (R.view (enter_retry R config c.instant (retry_args m) w.db).1))
  entry_result m =
      elim (enter_retry-EnteredRetry R (λ i. none) config w.db c.instant (retry_args m)) [
        | inl (absent, e) ↦ inl e
        | inr entered ↦ inr entered
      ]

  -- The failed message stands first among the events, if the webhook stores events at all.
  abbrev pub Notified : DeliveryEvent → Webhook → List DeliveryEvent → Type 0
  Notified event unwired events = Unit
  Notified event storing events = events ≡ event ∷ w.events
  Notified event failing events = ⊥

  purge_notified-Notified :
      (event : DeliveryEvent) (m : DeviceMessage) (h : MessageHash) (webhook : Webhook)
      → (R.view w.db).hash (message_key id) ≡ some h
      → (R.view
            (purge_notified R config m plugin w (emit_delivery_event R webhook event w)).1.db).hash
          (message_key id)
        ≡ none
      → Notified event webhook
          (purge_notified R config m plugin w (emit_delivery_event R webhook event w)).1.events
  purge_notified-Notified event m h unwired there gone = tt
  purge_notified-Notified event m h storing there gone = refl
  purge_notified-Notified event m h failing there gone = cc

  settle-Notified :
      (final : Bool) (m : DeviceMessage) (h : MessageHash)
      → (R.view w.db).hash (message_key id) ≡ some h
      → (R.view (settle R config c queue context plugin final id m w).1.db).hash (message_key id)
        ≡ none
      → Notified
          (message_event (failed_message c.timestamp context m))
          c.webhook
          (settle R config c queue context plugin final id m w).1.events
  settle-Notified true m h there gone =
      purge_notified-Notified (message_event (failed_message c.timestamp context m)) m h c.webhook
        there gone
  settle-Notified false m h there gone = absurd (
      keeps_hash (retry_args m) h (enter_retry R config c.instant (retry_args m) w.db) refl there
        (entry_result m) gone)

  -- A message that reads from its hash loses its hash in a failed attempt only after the event with
  -- the failed message has been stored, or with no webhook configured; never when the store throws.
  pub retry_or_fail-Notified :
      (h : MessageHash) (m : DeviceMessage)
      → (R.view w.db).hash (message_key id) ≡ some h
      → deserialize_message id h ≡ some m
      → (R.view (retry_or_fail R config c id queue context plugin w).1.db).hash (message_key id)
        ≡ none
      → Notified
          (message_event (failed_message c.timestamp context m))
          c.webhook
          (retry_or_fail R config c id queue context plugin w).1.events
  retry_or_fail-Notified h m there read gone =
      let e = settled m (lookup-found R id w.db h m there read) in
      rw e (
        settle-Notified (is_final_failure config context m) m h there (
          ap (λ (r : Option StageOutcome × World R). (R.view r.1.db).hash (message_key id)) (sym e)
          ∙ gone))

module _ (R : Redis) (config : DeliveryConfig) (c : Call) (event : ParsedIncomingEvent)
    (plugin : DeliveryPlugin) (w : World R) where
  -- An event of a successful delivery, not unsolicited, whose delivery queue id the index leads to a
  -- message that is found, with a webhook that stores its event, and with every message at home in a
  -- registry that keeps the owning plugin under its own id: the outcome is `removed`, one event is
  -- stored, which shows the message as successful, with the response and the device of the vendor's
  -- event, and a failure that this carries as the newest entry of the history, and all else as it was, and
  -- the message is purged.
  pub process_event_success :
      (reg : Registry) (delivery_queue_id id : Text) (h : MessageHash) (m : DeviceMessage)
      → event.unsolicited ≡ false
      → truthy event.delivery_queue_id ≡ some delivery_queue_id
      → get_message_id_from_delivery_queue_id R delivery_queue_id w.db ≡ some id
      → event.delivery_status ≡ delivery_successful
      → (R.view w.db).hash (message_key id) ≡ some h
      → deserialize_message id h ≡ some m
      → c.webhook ≡ storing
      → reg m.plugin_id ≡ some (delivery plugin)
      → IsKeyed reg
      → AtHome reg (R.view w.db)
      → ((process_event R config c event plugin w).0 ≡ some removed)
        × (shown : DeviceMessage) × ((process_event R config c event plugin w).1.events
            ≡ message_event shown ∷ w.events)
        × Succeeded c.timestamp event m shown
        × Purged m (R.view (process_event R config c event plugin w).1.db)
  unfolding process_event process_solicited process_delivery process_message process_handling
  process_event_success reg d id h m solicited indexed leads success there read stores owned keyed
        home_all =
      rw (solicited, indexed, leads, handled, lookup-found R id w.db h m there read, stores)
        (
          refl,
          _,
          refl,
          updated-Succeeded _ _ m success,
          found-Purged R id w.db h m there read reg config plugin owned keyed home_all,
        )
    where
      handled : handling event.delivery_status plugin.delivery_pattern ≡ positive
      handled = rw success refl
