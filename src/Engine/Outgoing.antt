-- ===== src/Engine/Outgoing.antt =====
-- src/engine/outgoing.ts: the enqueue, the cancel by a correlation id, and the send of one message that
-- has been picked. The kick of the distributor after an enqueue is left out, and so is the distribution
-- over the ready queues.
pub mod Cancel
pub mod Distribute
use nxt_device_messaging.Common.{
  ℕ, Text, txt, Bool, true, false, Option, none, some, List, [], ◌∷◌, ◌==◌, ◌||◌, ◌&&◌,
  if◌then◌else◌,
}
use nxt_device_messaging.Message.{
  DeliveryStatus, queued, to_retry, sent_to_ns, delivered_to_ns, sent_to_device,
  delivery_successful, delivery_failed, CommandType, read_voltage, read_current, read_power,
  read_power_limit, read_credit, read_version, read_date, read_time, turn_on, turn_off, set_date,
  set_time, clear_credit, clear_tamper, set_power_limit, top_up_kwh, deliver_preexisting_token,
  read_report, join_network, CreateDeviceMessage, DeviceMessage, FailureContext,
}
use nxt_device_messaging.Plugin.{
  DeliveryPlugin, DeliveryConfig, DeviceMessagingPlugin, delivery, token_only,
}
use nxt_device_messaging.Redis.{Redis}
use nxt_device_messaging.Redis.MessageStore.{
  get_all_messages_for_correlation_id, enqueue_device_message,
}
use nxt_device_messaging.Lifecycle.Stages.{ns, queue_ns_key, queue_retry_key}
use nxt_device_messaging.Lifecycle.Home.{Registry, as_delivery}
use nxt_device_messaging.Lifecycle.Moves.{advance, purge, claim_from_queue}
use nxt_device_messaging.Engine.{Call, World, retry_or_fail}

abbrev pub command_code : CommandType → ℕ
command_code read_voltage = 0
command_code read_current = 1
command_code read_power = 2
command_code read_power_limit = 3
command_code read_credit = 4
command_code read_version = 5
command_code read_date = 6
command_code read_time = 7
command_code turn_on = 8
command_code turn_off = 9
command_code set_date = 10
command_code set_time = 11
command_code clear_credit = 12
command_code clear_tamper = 13
command_code set_power_limit = 14
command_code top_up_kwh = 15
command_code deliver_preexisting_token = 16
command_code read_report = 17
command_code join_network = 18

abbrev pub includes : List CommandType → CommandType → Bool
includes [] t = false
includes (s ∷ rest) t = (command_code s == command_code t) || includes rest t

-- The three errors that an enqueue throws.
pub data EnqueueError : Type 0 where
  unknown_plugin unsupported_command_type : EnqueueError
  invalid_enqueue : Text → EnqueueError

pub data EnqueueResult : Type 0 where
  rejected : EnqueueError → EnqueueResult
  stored : Option DeviceMessage → EnqueueResult

pub data CancelResult : Type 0 where
  cancelled not_cancellable not_found : CancelResult

-- The result of `sendOne`: the external delivery id, or the parsed error.
pub data Sent : Type 0 where
  accepted : Text → Sent
  refused : FailureContext → Sent

abbrev pub empty_id_context : FailureContext
empty_id_context = record {
  reason = txt "Plugin returned an empty deliveryQueueId after sendOne";
  error_code = none;
  details = none;
  skip_retry = true;
}

-- The queue in which a cancellable message waits; none for a message that has been handed off.
abbrev pub cancel_queue : DeliveryPlugin → DeviceMessage → DeliveryStatus → Option Text
cancel_queue plugin message to_retry = some queue_retry_key
cancel_queue plugin message queued =
    some (plugin.initial_queue_key message.network_id message.device)
cancel_queue plugin message sent_to_ns = none
cancel_queue plugin message delivered_to_ns = none
cancel_queue plugin message sent_to_device = none
cancel_queue plugin message delivery_successful = none
cancel_queue plugin message delivery_failed = none

module _ (R : Redis) (config : DeliveryConfig) (reg : Registry) where
  abbrev pub enqueue_valid :
      Text → CreateDeviceMessage → DeliveryPlugin → Option Text → R.Db → EnqueueResult × R.Db
  enqueue_valid id create plugin (some issue) db = (rejected (invalid_enqueue issue), db)
  enqueue_valid id create plugin none db =
      let (message, after) =
        enqueue_device_message R id create
          (plugin.initial_queue_key create.network_id create.device) config.message_ttl_seconds
          db in
      (stored message, after)

  abbrev pub enqueue_with :
      Text → CreateDeviceMessage → Option DeviceMessagingPlugin → R.Db → EnqueueResult × R.Db
  enqueue_with id create none db = (rejected unknown_plugin, db)
  enqueue_with id create (some (token_only i)) db = (rejected unsupported_command_type, db)
  enqueue_with id create (some (delivery plugin)) db =
      if includes plugin.supported_command_types create.command_type
      then enqueue_valid id create plugin (plugin.validate_enqueue create) db
      else (rejected unsupported_command_type, db)

  -- `id` is the fresh ULID.
  unfoldable pub enqueue : Text → CreateDeviceMessage → R.Db → EnqueueResult × R.Db
  enqueue id create db = enqueue_with id create (reg create.plugin_id) db

  -- The purge of a message whose claim was won.
  abbrev pub cancel_claimed : DeviceMessage → DeliveryPlugin → Bool × R.Db → Bool × R.Db
  cancel_claimed message plugin (true, after) = (true, purge R config message plugin after)
  cancel_claimed message plugin (false, after) = (false, after)

  abbrev pub cancel_in : DeviceMessage → DeliveryPlugin → Option Text → R.Db → Bool × R.Db
  cancel_in message plugin none db = (false, db)
  cancel_in message plugin (some queue) db =
      cancel_claimed message plugin (claim_from_queue R config queue message.id db)

  abbrev pub cancel_owned : DeviceMessage → Option DeliveryPlugin → R.Db → Bool × R.Db
  cancel_owned message none db = (false, db)
  cancel_owned message (some plugin) db =
      cancel_in message plugin (cancel_queue plugin message message.delivery_status) db

  unfoldable pub cancel_one_message : DeviceMessage → R.Db → Bool × R.Db
  cancel_one_message message db = cancel_owned message (as_delivery (reg message.plugin_id)) db

  -- One after the other; true if every one was cancelled.
  unfoldable pub cancel_all : List DeviceMessage → R.Db → Bool × R.Db
  unfolding cancel_one_message
  cancel_all [] db = (true, db)
  cancel_all (m ∷ ms) db =
      let (answer, after) = cancel_one_message m db in
      let (rest, last) = cancel_all ms after in (answer && rest, last)

  abbrev pub result_of : Bool → CancelResult
  result_of true = cancelled
  result_of false = not_cancellable

  -- None is the throw of the lookup.
  unfoldable pub cancel_found : Option (List DeviceMessage) → R.Db → Option CancelResult × R.Db
  unfolding cancel_all
  cancel_found none db = (none, db)
  cancel_found (some []) db = (some not_found, db)
  cancel_found (some (m ∷ ms)) db =
      let (answer, after) = cancel_all (m ∷ ms) db in (some (result_of answer), after)

  unfoldable pub cancel_one_by_correlation_id : Text → R.Db → Option CancelResult × R.Db
  unfolding cancel_found
  cancel_one_by_correlation_id correlation_id db =
      cancel_found (get_all_messages_for_correlation_id R correlation_id db) db

  abbrev pub advanced : World R → Option Bool × R.Db → World R
  advanced w (answer, after) = record w { db = after }

  -- What is done with the answer of the plugin.
  unfoldable pub send_one_to_network_server :
      Call → DeliveryPlugin → DeviceMessage → Sent → World R → World R
  send_one_to_network_server c plugin message (refused context) w =
      (retry_or_fail R config c message.id queue_ns_key context plugin w).1
  send_one_to_network_server c plugin message (accepted []) w =
      (retry_or_fail R config c message.id queue_ns_key empty_id_context plugin w).1
  send_one_to_network_server c plugin message (accepted (x ∷ xs)) w = advanced w (
      advance R config c.instant
        (record {
          message_id = message.id;
          plugin = plugin;
          from = ns;
          delivery_queue_id = x ∷ xs;
          retry_count = message.retry_count;
        })
        w.db)
