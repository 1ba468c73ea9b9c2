-- ===== src/Engine/Outcomes.antt =====
-- What src/engine/base.ts and src/engine/incoming.ts do to the database is a run of the transitions.
use nxt_device_messaging.Common.{
  Text, ◌≡◌, refl, sym, subst, Bool, true, false, Option, none, some, arith,
}
use nxt_device_messaging.Message.{
  DeliveryStatus, DeviceMessage, ParsedIncomingEvent, FailureContext,
}
use nxt_device_messaging.Plugin.{DeliveryPlugin, DeliveryConfig, PipelinePattern, push}
use nxt_device_messaging.Redis.{Redis}
use nxt_device_messaging.Redis.MessageStore.{
  Lookup, missing, malformed, found, truthy, get_message_by_id,
  get_message_id_from_delivery_queue_id,
}
use nxt_device_messaging.Lifecycle.Stages.{StageName, stages, stage_for_status, stage_key_for}
use nxt_device_messaging.Lifecycle.Home.{Registry, AtHome, OwnedBy}
use nxt_device_messaging.Lifecycle.Reach.{purges, retries, advances}
use nxt_device_messaging.Lifecycle.Stages.Keys.{IsStageKey}
use nxt_device_messaging.Lifecycle.Protocol.{Run, begun, does}
use nxt_device_messaging.Lifecycle.Protocol.Refines.{Run-AtHome}
use nxt_device_messaging.Engine.{
  DeliveryEvent, Webhook, unwired, storing, failing, message_event, unsolicited_event, Call, World,
  emit_delivery_event, purge_notified, outcome_of_entry, retry_or_fail, retry_or_fail_found,
  is_final_failure, settle, retry,
}
use nxt_device_messaging.Engine.Incoming.{
  process_event, process_handling, Handling, hop, negative, positive, unexpected, handling,
  updated_message, or_default, resolve_stored, fail_stored, fail_in_stage, hopped, emitted,
  process_message, process_delivery, process_solicited,
}

hop-push : (s : DeliveryStatus) (p : PipelinePattern) → handling s p ≡ hop → p ≡ push
hop-push s p e = ground arith

module _ (R : Redis) (reg : Registry) (config : DeliveryConfig) where
  pub purge_notified-Run :
      (webhook : Webhook) (event : DeliveryEvent) (m : DeviceMessage) (plugin : DeliveryPlugin)
      (w : World R)
      → Run R reg config w.db
          (purge_notified R config m plugin w (emit_delivery_event R webhook event w)).1.db
  purge_notified-Run unwired event m plugin w = does R reg config (purges w.db m plugin) tt
  purge_notified-Run storing event m plugin w = does R reg config (purges w.db m plugin) tt
  purge_notified-Run failing event m plugin w = begun

  outcome-db : (w : World R) (r : Bool × R.Db) → (outcome_of_entry R config w r).1.db ≡ r.1
  outcome-db w (true, after) = refl
  outcome-db w (false, after) = refl

  retry-Run :
      (c : Call) (queue : Text) (context : FailureContext) (plugin : DeliveryPlugin) (id : Text)
      (m : DeviceMessage) (w : World R)
      → IsStageKey queue
      → Run R reg config w.db (retry R config c queue context plugin id m w).1.db
  retry-Run c queue context plugin id m w at_stage =
      subst (Run R reg config w.db) (sym (outcome-db w _))
        (does R reg config (retries w.db c.instant _) at_stage)

  settle-Run :
      (c : Call) (queue : Text) (context : FailureContext) (plugin : DeliveryPlugin) (final : Bool)
      (id : Text) (m : DeviceMessage) (w : World R)
      → IsStageKey queue
      → Run R reg config w.db (settle R config c queue context plugin final id m w).1.db
  settle-Run c queue context plugin true id m w at_stage = purge_notified-Run c.webhook _ m plugin w
  settle-Run c queue context plugin false id m w at_stage =
      retry-Run c queue context plugin id m w at_stage

  found-Run :
      (c : Call) (queue : Text) (context : FailureContext) (plugin : DeliveryPlugin) (id : Text)
      (l : Lookup) (w : World R)
      → IsStageKey queue
      → Run R reg config w.db (retry_or_fail_found R config c queue context plugin id l w).1.db
  unfolding retry_or_fail_found
  found-Run c queue context plugin id missing w at_stage = begun
  found-Run c queue context plugin id malformed w at_stage = begun
  found-Run c queue context plugin id (found m) w at_stage =
      settle-Run c queue context plugin (is_final_failure config context m) id m w at_stage

  -- Whatever `retryOrFail` decides for a member of a stage, it changes the database by transitions alone.
  pub retry_or_fail-Run :
      (c : Call) (id queue : Text) (context : FailureContext) (plugin : DeliveryPlugin)
      (w : World R)
      → IsStageKey queue
      → Run R reg config w.db (retry_or_fail R config c id queue context plugin w).1.db
  unfolding retry_or_fail
  retry_or_fail-Run c id queue context plugin w at_stage =
      found-Run c queue context plugin id (get_message_by_id R id w.db) w at_stage

  module _ (c : Call) (event : ParsedIncomingEvent) (plugin : DeliveryPlugin) (w : World R) where
    hopped-db : (r : Option Bool × R.Db) → (hopped R config c event plugin w r).1.db ≡ r.1
    hopped-db (none, after) = refl
    hopped-db (some claimed, after) = refl

    stage-Run :
        (id : Text) (o : Option StageName)
        → Run R reg config w.db (fail_in_stage R config c event plugin id o w).1.db
    stage-Run id none = begun
    stage-Run id (some st) =
        retry_or_fail-Run c id (stage_key_for (stages st) plugin.id)
          (or_default event.failure_context) plugin w (st, plugin.id, refl)

    stored-Run :
        (id : Text) (l : Lookup)
        → Run R reg config w.db (fail_stored R config c event plugin id l w).1.db
    stored-Run id missing = begun
    stored-Run id malformed = begun
    stored-Run id (found m) =
        stage-Run id (stage_for_status m.delivery_status plugin.delivery_pattern)

    resolve-Run :
        (l : Lookup) → Run R reg config w.db (resolve_stored R config c event plugin l w).1.db
    resolve-Run missing = begun
    resolve-Run malformed = begun
    resolve-Run (found m) =
        purge_notified-Run c.webhook (message_event (updated_message c.timestamp event m)) m plugin
          w

    handling-Run :
        (k : Handling) (id : Text)
        → (k ≡ hop → OwnedBy reg (R.view w.db) id plugin)
        → Run R reg config w.db (process_handling R config c event plugin k id w).1.db
    unfolding process_handling
    handling-Run hop id owned =
        subst (Run R reg config w.db) (sym (hopped-db _))
          (does R reg config (advances w.db c.instant _ (owned refl)) tt)
    handling-Run negative id owned = stored-Run id (get_message_by_id R id w.db)
    handling-Run positive id owned = resolve-Run (get_message_by_id R id w.db)
    handling-Run unexpected id owned = begun

    message-Run :
        (o : Option Text)
        → ((id : Text)
            → o ≡ some id
            → plugin.delivery_pattern ≡ push
            → OwnedBy reg (R.view w.db) id plugin)
        → Run R reg config w.db (process_message R config c event plugin o w).1.db
    unfolding process_message
    message-Run none owned = begun
    message-Run (some id) owned =
        handling-Run (handling event.delivery_status plugin.delivery_pattern) id
          (λ e. owned id refl (hop-push event.delivery_status plugin.delivery_pattern e))

    -- For a plugin that is pushed to: the messages that the delivery index names are the plugin's own.
    abbrev pub Indexed : Type 0
    Indexed =
        plugin.delivery_pattern ≡ push
        → (delivery_queue_id id : Text)
        → get_message_id_from_delivery_queue_id R delivery_queue_id w.db ≡ some id
        → OwnedBy reg (R.view w.db) id plugin

    delivery-Run :
        (o : Option Text)
        → Indexed
        → Run R reg config w.db (process_delivery R config c event plugin o w).1.db
    unfolding process_delivery
    delivery-Run none owned = begun
    delivery-Run (some d) owned =
        message-Run (get_message_id_from_delivery_queue_id R d w.db) (λ id e p. owned p d id e)

    emitted-Run :
        (webhook : Webhook) (e : DeliveryEvent)
        → Run R reg config w.db
            (emitted R config c event plugin w (emit_delivery_event R webhook e w)).1.db
    emitted-Run unwired e = begun
    emitted-Run storing e = begun
    emitted-Run failing e = begun

    solicited-Run :
        (b : Bool)
        → Indexed
        → Run R reg config w.db (process_solicited R config c event plugin b w).1.db
    unfolding process_solicited
    solicited-Run true owned = emitted-Run c.webhook (unsolicited_event plugin.id event)
    solicited-Run false owned = delivery-Run (truthy event.delivery_queue_id) owned

    -- Whatever the event says, it changes the database by transitions alone, when, for a plugin that is
    -- pushed to, the messages that the delivery index names are the plugin's own.
    pub process_event-Run :
        Indexed → Run R reg config w.db (process_event R config c event plugin w).1.db
    unfolding process_event
    process_event-Run owned = solicited-Run event.unsolicited owned

    -- An event keeps every message at home, when, for a plugin that is pushed to, the messages that
    -- the delivery index names are the plugin's own.
    pub process_event-AtHome :
        Indexed
        → AtHome reg (R.view w.db)
        → AtHome reg (R.view (process_event R config c event plugin w).1.db)
    process_event-AtHome owned home_all = Run-AtHome R reg config home_all (process_event-Run owned)
