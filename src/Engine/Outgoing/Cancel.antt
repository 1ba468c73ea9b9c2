-- ===== src/Engine/Outgoing/Cancel.antt =====
-- Sends, enqueues and cancels of src/engine/outgoing.ts are runs of the transitions.
use nxt_device_messaging.Common.{
  List, Text, ◌≡◌, ◌≢◌, ◌↔◌, ◌⊎◌, refl, sym, ap, ◌∙◌, Bool, true, false, Bool-cases, inl, inr,
  Option, none, some, [], ◌∷◌, arith,
}
use nxt_device_messaging.Message.{
  CreateDeviceMessage, DeviceMessage, DeliveryStatus, queued, to_retry, sent_to_ns, delivered_to_ns,
  sent_to_device, delivery_successful, delivery_failed,
}
use nxt_device_messaging.Lifecycle.Stages.{queue_retry_key}
use nxt_device_messaging.Plugin.{
  DeliveryPlugin, DeliveryConfig, DeviceMessagingPlugin, delivery, token_only,
}
use nxt_device_messaging.Redis.{MessageHash, Redis}
use nxt_device_messaging.Redis.Keys.{message_key}
use nxt_device_messaging.Lifecycle.Home.{Registry, IsKeyed, AtHome, OwnedBy, as_delivery}
use nxt_device_messaging.Lifecycle.Moves.{claim_from_queue, purge}
use nxt_device_messaging.Redis.MessageStore.{
  get_all_messages_for_correlation_id, deserialize_message,
}
use nxt_device_messaging.Lifecycle.Moves.Transitions.{claim_from_queue-AtHome}
use nxt_device_messaging.Lifecycle.Moves.Purge.{Purged, purge-Purged}
use nxt_device_messaging.Lifecycle.Moves.Entry.{IsFresh}
use nxt_device_messaging.Lifecycle.Reach.{claims, purges, advances, enqueues}
use nxt_device_messaging.Lifecycle.Stages.Keys.{ns-IsStageKey}
use nxt_device_messaging.Lifecycle.Protocol.{Run, Run-trans, begun, then_does, does}
use nxt_device_messaging.Lifecycle.Protocol.Refines.{Run-AtHome}
use nxt_device_messaging.Engine.{Call, World}
use nxt_device_messaging.Engine.Outcomes.{retry_or_fail-Run}
use nxt_device_messaging.Engine.Outgoing.{
  cancel_all, cancel_found, cancel_one_by_correlation_id, Sent, accepted, refused, includes,
  cancel_queue, cancel_claimed, cancel_in, cancel_owned, cancel_one_message, enqueue_valid,
  enqueue_with, enqueue, send_one_to_network_server,
}

module _ (R : Redis) (reg : Registry) (config : DeliveryConfig) where
  claimed-Run :
      (m : DeviceMessage) (plugin : DeliveryPlugin) (start : R.Db) (r : Bool × R.Db)
      → Run R reg config start r.1
      → Run R reg config start (cancel_claimed R config reg m plugin r).1
  claimed-Run m plugin start (true, db) r = then_does r (purges db m plugin) tt
  claimed-Run m plugin start (false, db) r = r

  in-Run :
      (m : DeviceMessage) (plugin : DeliveryPlugin) (o : Option Text) (db : R.Db)
      → Run R reg config db (cancel_in R config reg m plugin o db).1
  in-Run m plugin none db = begun
  in-Run m plugin (some queue) db =
      claimed-Run m plugin db (claim_from_queue R config queue m.id db)
        (does R reg config (claims db queue m.id) tt)

  owned-Run :
      (m : DeviceMessage) (o : Option DeliveryPlugin) (db : R.Db)
      → Run R reg config db (cancel_owned R config reg m o db).1
  owned-Run m none db = begun
  owned-Run m (some plugin) db = in-Run m plugin (cancel_queue plugin m m.delivery_status) db

  cancel_all-Run :
      (ms : List DeviceMessage) (db : R.Db) → Run R reg config db (cancel_all R config reg ms db).1
  unfolding cancel_all cancel_one_message
  cancel_all-Run [] db = begun
  cancel_all-Run (m ∷ ms) db =
      Run-trans R reg config (owned-Run m (as_delivery (reg m.plugin_id)) db) (cancel_all-Run ms _)

  found-Run :
      (o : Option (List DeviceMessage)) (db : R.Db)
      → Run R reg config db (cancel_found R config reg o db).1
  unfolding cancel_found
  found-Run none db = begun
  found-Run (some []) db = begun
  found-Run (some (m ∷ ms)) db = cancel_all-Run (m ∷ ms) db

  pub cancel_one_by_correlation_id-Run :
      (correlation_id : Text) (db : R.Db)
      → Run R reg config db (cancel_one_by_correlation_id R config reg correlation_id db).1
  unfolding cancel_one_by_correlation_id
  cancel_one_by_correlation_id-Run correlation_id db =
      found-Run (get_all_messages_for_correlation_id R correlation_id db) db

  -- The cancel of one message, won or lost, makes transitions only, and so keeps every message at home.
  pub cancel_one_message-AtHome :
      (m : DeviceMessage) (db : R.Db)
      → AtHome reg (R.view db)
      → AtHome reg (R.view (cancel_one_message R config reg m db).1)
  unfolding cancel_one_message
  cancel_one_message-AtHome m db home_all =
      Run-AtHome R reg config home_all (owned-Run m (as_delivery (reg m.plugin_id)) db)

  pub send_one_to_network_server-Run :
      (c : Call) (plugin : DeliveryPlugin) (m : DeviceMessage) (answer : Sent) (w : World R)
      → OwnedBy reg (R.view w.db) m.id plugin
      → Run R reg config w.db (send_one_to_network_server R config reg c plugin m answer w).db
  unfolding send_one_to_network_server
  send_one_to_network_server-Run c plugin m (refused context) w owned =
      retry_or_fail-Run R reg config c m.id _ context plugin w ns-IsStageKey
  send_one_to_network_server-Run c plugin m (accepted []) w owned =
      retry_or_fail-Run R reg config c m.id _ _ plugin w ns-IsStageKey
  send_one_to_network_server-Run c plugin m (accepted (x ∷ xs)) w owned =
      does R reg config (advances w.db c.instant _ owned) tt

  -- A send keeps every message at home, whatever the plugin that owns the message answers.
  pub send_one_to_network_server-AtHome :
      (c : Call) (plugin : DeliveryPlugin) (m : DeviceMessage) (answer : Sent) (w : World R)
      → OwnedBy reg (R.view w.db) m.id plugin
      → AtHome reg (R.view w.db)
      → AtHome reg (R.view (send_one_to_network_server R config reg c plugin m answer w).db)
  send_one_to_network_server-AtHome c plugin m answer w owned home_all =
      Run-AtHome R reg config home_all (send_one_to_network_server-Run c plugin m answer w owned)

  valid-Run :
      (id : Text) (create : CreateDeviceMessage) (plugin : DeliveryPlugin) (issue : Option Text)
      (db : R.Db)
      → IsFresh id (R.view db)
      → (R.view db).hash (message_key id) ≡ none
      → reg create.plugin_id ≡ some (delivery plugin)
      → Run R reg config db (enqueue_valid R config reg id create plugin issue db).1
  valid-Run id create plugin (some issue) db fresh new e = begun
  valid-Run id create plugin none db fresh new e =
      does R reg config (enqueues db id create plugin fresh new e) tt

  with-Run :
      (id : Text) (create : CreateDeviceMessage) (o : Option DeviceMessagingPlugin) (db : R.Db)
      → IsFresh id (R.view db)
      → (R.view db).hash (message_key id) ≡ none
      → reg create.plugin_id ≡ o
      → Run R reg config db (enqueue_with R config reg id create o db).1
  with-Run id create none db fresh new e = begun
  with-Run id create (some (token_only i)) db fresh new e = begun
  with-Run id create (some (delivery plugin)) db fresh new e =
      elim (Bool-cases (includes plugin.supported_command_types create.command_type)) [
        | inl b ↦ rw b (valid-Run id create plugin (plugin.validate_enqueue create) db fresh new e)
        | inr b ↦ rw b begun
      ]

  pub enqueue-Run :
      (id : Text) (create : CreateDeviceMessage) (db : R.Db)
      → IsFresh id (R.view db)
      → (R.view db).hash (message_key id) ≡ none
      → Run R reg config db (enqueue R config reg id create db).1
  unfolding enqueue
  enqueue-Run id create db fresh new = with-Run id create (reg create.plugin_id) db fresh new refl

  -- An enqueue under an id that occurs nowhere keeps every message at home, accepted or rejected.
  pub enqueue-AtHome :
      (id : Text) (create : CreateDeviceMessage) (db : R.Db)
      → IsFresh id (R.view db)
      → (R.view db).hash (message_key id) ≡ none
      → AtHome reg (R.view db)
      → AtHome reg (R.view (enqueue R config reg id create db).1)
  enqueue-AtHome id create db fresh new home_all =
      Run-AtHome R reg config home_all (enqueue-Run id create db fresh new)

  module _ (m : DeviceMessage) (plugin : DeliveryPlugin) (db : R.Db) where
    answer_claimed : (r : Bool × R.Db) → (cancel_claimed R config reg m plugin r).0 ≡ r.0
    answer_claimed (true, after) = refl
    answer_claimed (false, after) = refl

    answer_claim :
        (queue : Text)
        → ((claim_from_queue R config queue m.id db).0 ≡ true)
          ↔ ((R.view db).zset queue m.id ≢ none)
    unfolding claim_from_queue
    answer_claim queue = ground arith

    -- The member that the cancel has to find.
    abbrev pub Waits : Option Text → Type 0
    Waits none = ⊥
    Waits (some queue) = (R.view db).zset queue m.id ≢ none

    answer_in : (o : Option Text) → ((cancel_in R config reg m plugin o db).0 ≡ true) ↔ Waits o
    answer_in none = ((λ e. cc), (λ h. absurd h))
    answer_in (some queue) =
        let same = answer_claimed (claim_from_queue R config queue m.id db) in
        ((λ e. (answer_claim queue).0 (sym same ∙ e)), (λ h. same ∙ (answer_claim queue).1 h))

    claimed-Purged :
        (r : Bool × R.Db)
        → Purged m (R.view (purge R config m plugin r.1))
        → (cancel_claimed R config reg m plugin r).0 ≡ true
        → Purged m (R.view (cancel_claimed R config reg m plugin r).1)
    claimed-Purged (true, after) p e = p
    claimed-Purged (false, after) p e = cc

    claim-hash :
        (queue k : Text)
        → (R.view (claim_from_queue R config queue m.id db).1).hash k ≡ (R.view db).hash k
    unfolding claim_from_queue
    claim-hash queue k = rw R.view-call refl

    in-Purged :
        (h : MessageHash) (o : Option Text)
        → (R.view db).hash (message_key m.id) ≡ some h
        → deserialize_message m.id h ≡ some m
        → reg m.plugin_id ≡ some (delivery plugin)
        → IsKeyed reg
        → AtHome reg (R.view db)
        → (cancel_in R config reg m plugin o db).0 ≡ true
        → Purged m (R.view (cancel_in R config reg m plugin o db).1)
    in-Purged h none there read owned keyed home_all e = cc
    in-Purged h (some queue) there read owned keyed home_all e =
        let after = (claim_from_queue R config queue m.id db).1 in
        claimed-Purged (claim_from_queue R config queue m.id db)
          (purge-Purged R reg config after m h plugin (claim-hash queue (message_key m.id) ∙ there)
            read owned keyed (claim_from_queue-AtHome R reg config db queue m.id home_all))
          e

    -- The message is queued in its ready queue, or waits in the retry queue.
    abbrev pub IsCancellable : Type 0
    IsCancellable =
        ((m.delivery_status ≡ queued)
          × ((R.view db).zset (plugin.initial_queue_key m.network_id m.device) m.id ≢ none))
        ⊎ ((m.delivery_status ≡ to_retry) × ((R.view db).zset queue_retry_key m.id ≢ none))

    uncancellable :
        {status : DeliveryStatus}
        → m.delivery_status ≡ status
        → status ≢ queued
        → status ≢ to_retry
        → IsCancellable
        → ⊥
    uncancellable e not_queued not_to_retry (inl c) = not_queued (sym e ∙ c.0)
    uncancellable e not_queued not_to_retry (inr c) = not_to_retry (sym e ∙ c.0)

    cancellable-Waits :
        (status : DeliveryStatus)
        → m.delivery_status ≡ status
        → Waits (cancel_queue plugin m status) ↔ IsCancellable
    cancellable-Waits queued e = ((λ h. inl (e, h)), back)
      where
        back :
            IsCancellable
            → (R.view db).zset (plugin.initial_queue_key m.network_id m.device) m.id ≢ none
        back (inl c) = c.1
        back (inr c) = absurd (cc (e, c.0))
    cancellable-Waits to_retry e = ((λ h. inr (e, h)), back)
      where
        back : IsCancellable → (R.view db).zset queue_retry_key m.id ≢ none
        back (inl c) = absurd (cc (e, c.0))
        back (inr c) = c.1
    cancellable-Waits sent_to_ns e = (absurd, uncancellable e (λ f. cc) (λ f. cc))
    cancellable-Waits delivered_to_ns e = (absurd, uncancellable e (λ f. cc) (λ f. cc))
    cancellable-Waits sent_to_device e = (absurd, uncancellable e (λ f. cc) (λ f. cc))
    cancellable-Waits delivery_successful e = (absurd, uncancellable e (λ f. cc) (λ f. cc))
    cancellable-Waits delivery_failed e = (absurd, uncancellable e (λ f. cc) (λ f. cc))

    -- For a message of a registered delivery plugin, the cancel answers true exactly when the message
    -- has the status queued and is in the ready queue that the plugin names for its network and device,
    -- or has the status to_retry and is in the retry queue.
    pub cancel_one_message_iff :
        reg m.plugin_id ≡ some (delivery plugin)
        → ((cancel_one_message R config reg m db).0 ≡ true) ↔ IsCancellable
    unfolding cancel_one_message
    cancel_one_message_iff owned =
        let (to, from) = answer_in (cancel_queue plugin m m.delivery_status) in
        let (waits, cancellable) = cancellable-Waits m.delivery_status refl in
        rw owned ((λ e. waits (to e)), (λ h. from (cancellable h)))

    -- A cancel that answers true, of a message that reads from its hash, with every message at home in
    -- a registry that keeps the owning plugin under its own id, has purged the message.
    pub cancel_one_message-Purged :
        (h : MessageHash)
        → (R.view db).hash (message_key m.id) ≡ some h
        → deserialize_message m.id h ≡ some m
        → reg m.plugin_id ≡ some (delivery plugin)
        → IsKeyed reg
        → AtHome reg (R.view db)
        → (cancel_one_message R config reg m db).0 ≡ true
        → Purged m (R.view (cancel_one_message R config reg m db).1)
    unfolding cancel_one_message
    cancel_one_message-Purged h there read owned keyed home_all e =
        let same =
          ap (λ (o : Option DeviceMessagingPlugin). cancel_owned R config reg m (as_delivery o) db)
            owned in
        rw owned (
          in-Purged h (cancel_queue plugin m m.delivery_status) there read owned keyed home_all
            (ap (λ (r : Bool × R.Db). r.0) (sym same) ∙ e))

  -- The cancel by a correlation id keeps every message at home, whatever messages the index leads to.
  pub cancel_one_by_correlation_id-AtHome :
      (correlation_id : Text) (db : R.Db)
      → AtHome reg (R.view db)
      → AtHome reg (R.view (cancel_one_by_correlation_id R config reg correlation_id db).1)
  cancel_one_by_correlation_id-AtHome correlation_id db home_all =
      Run-AtHome R reg config home_all (cancel_one_by_correlation_id-Run correlation_id db)
