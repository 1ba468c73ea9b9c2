-- ===== src/Engine/Outgoing/Distribute.antt =====
-- The distribution of src/engine/outgoing.ts: from the ready queues to the plugins. The queues are
-- taken one after the other; the code starts them side by side. A message that is handed over is in the
-- answer; `send_one_to_network_server` is what happens to it then.
pub mod Handover
pub mod Edges
pub mod Sends
use nxt_device_messaging.Common.{
  ℕ, Text, Bool, true, false, Option, none, some, List, [], ◌∷◌, leb, ltb, ◌==◌, if◌then◌else◌,
}
use nxt_device_messaging.Message.{DeviceMessage}
use nxt_device_messaging.Plugin.{DeliveryPlugin, DeliveryConfig, Admission, spacing, concurrency}
use nxt_device_messaging.Plugin.QueueKey.{
  get_plugin_id_from_initial_queue_key, build_concurrency_rate_limit_key,
}
use nxt_device_messaging.Redis.{Redis}
use nxt_device_messaging.Redis.Keys.{lock_for_queue, list_of_initial_queues}
use nxt_device_messaging.Redis.AdmissionStore.{
  lock_queue_for_time_ms, validate_and_clean_concurrency_rate_limit,
}
use nxt_device_messaging.Lifecycle.Home.{Registry, as_delivery}
use nxt_device_messaging.Lifecycle.Moves.{ConcurrencyRateLimit, pick_into_ns}
use nxt_device_messaging.Engine.{Call, World, emit_delivery_event, message_event}

abbrev or_empty : Option Text → Text
or_empty none = []
or_empty (some t) = t

abbrev pub concurrency_rate_limit : Admission → Text → Option ConcurrencyRateLimit
concurrency_rate_limit (spacing ms) queue_key = none
concurrency_rate_limit (concurrency max_in_flight) queue_key =
    some
      (record { key = or_empty (build_concurrency_rate_limit_key queue_key); max = max_in_flight })

abbrev pub owner_of_queue : Registry → Option Text → Option DeliveryPlugin
owner_of_queue reg none = none
owner_of_queue reg (some id) = as_delivery (reg id)

module _ (R : Redis) where
  abbrev pub slot_free : ℕ → ℕ × R.Db → Bool × R.Db
  slot_free max_in_flight (live, db) = (ltb live max_in_flight, db)

  -- Only a full set is cleaned of dead members.
  unfoldable pub admit_slot : ℕ → Option Text → R.Db → Bool × R.Db
  admit_slot max_in_flight none db = (false, db)
  admit_slot max_in_flight (some key) db =
      if leb max_in_flight (R.scard db key)
      then slot_free max_in_flight (validate_and_clean_concurrency_rate_limit R key db)
      else (true, db)

  unfoldable pub can_admit : Admission → Text → R.Db → Bool × R.Db
  unfolding admit_slot
  can_admit (spacing min_interval_ms) queue_key db =
      lock_queue_for_time_ms R (lock_for_queue queue_key) min_interval_ms db
  can_admit (concurrency max_in_flight) queue_key db =
      admit_slot max_in_flight (build_concurrency_rate_limit_key queue_key) db

  module _ (config : DeliveryConfig) (reg : Registry) (c : Call) where
    -- The event is for a first send alone.
    abbrev pub notify_first_send : DeviceMessage → World R → Option (World R)
    notify_first_send message w =
        if message.retry_count == 0
        then emit_delivery_event R c.webhook (message_event message) w
        else some w

    -- A message whose event was not stored is not handed over.
    abbrev pub hand_over :
        DeviceMessage → World R → Option (World R) → Option DeviceMessage × World R
    hand_over message w none = (none, w)
    hand_over message w (some notified) = (some message, notified)

    -- Nothing picked, a hash that does not read, or a message.
    abbrev pub handed : Option (Option DeviceMessage) → World R → Option DeviceMessage × World R
    handed none w = (none, w)
    handed (some none) w = (none, w)
    handed (some (some message)) w = hand_over message w (notify_first_send message w)

    abbrev pub picked_in :
        World R → Option (Option DeviceMessage) × R.Db → Option DeviceMessage × World R
    picked_in w (picked, after) = handed picked (record w { db = after })

    abbrev pub distribute_admitted :
        Text → DeliveryPlugin → World R → Bool × R.Db → Option DeviceMessage × World R
    distribute_admitted queue_key plugin w (false, after) = (none, record w { db = after })
    distribute_admitted queue_key plugin w (true, after) = picked_in w (
        pick_into_ns R config c.instant queue_key plugin
          (concurrency_rate_limit plugin.admission queue_key) after)

    unfoldable pub distribute_owned :
        Text → Option DeliveryPlugin → World R → Option DeviceMessage × World R
    distribute_owned queue_key none w = (none, w)
    distribute_owned queue_key (some plugin) w =
        distribute_admitted queue_key plugin w (can_admit plugin.admission queue_key w.db)

    unfoldable pub distribute_queue : Text → World R → Option DeviceMessage × World R
    unfolding distribute_owned
    distribute_queue queue_key w =
        distribute_owned queue_key
          (owner_of_queue reg (get_plugin_id_from_initial_queue_key queue_key)) w

  module _ (config : DeliveryConfig) (reg : Registry) (call_for : Text → Call) where
    abbrev also : Option DeviceMessage → List DeviceMessage → List DeviceMessage
    also none ms = ms
    also (some m) ms = m ∷ ms

    unfoldable pub distribute_queues : List Text → World R → List DeviceMessage × World R
    distribute_queues [] w = ([], w)
    distribute_queues (q ∷ qs) w =
        let (first, after) = distribute_queue config reg (call_for q) q w in
        let (rest, last) = distribute_queues qs after in (also first rest, last)

    unfoldable pub distribute_to_network_servers : World R → List DeviceMessage × World R
    unfolding distribute_queues
    distribute_to_network_servers w = distribute_queues (R.smembers w.db list_of_initial_queues) w
