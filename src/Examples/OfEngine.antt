-- ===== src/Examples/OfEngine.antt =====
-- Failed attempts, an incoming event and a drain, over the Redis of Redis/Memory.
use nxt_device_messaging.Common.{
  inl, Option, txt, text_discrete, ◌≡◌, ◌≢◌, ◌↔◌, refl, true, false, some, none, [], ◌∷◌,
}
use nxt_device_messaging.Message.{
  DeviceMessage, FailureContext, ParsedIncomingEvent, delivery_successful,
}
use nxt_device_messaging.Redis.{set_ex, calls}
use nxt_device_messaging.Redis.Keys.{
  message_key, message_key_prefix, message_id_from_key, index_external_delivery_id,
}
use nxt_device_messaging.Redis.Memory.{History, memory, view_of}
use nxt_device_messaging.Redis.MessageStore.{
  enqueue_device_message, serialize_create_device_message, get_message_id_from_delivery_queue_id,
}
use nxt_device_messaging.Lifecycle.Stages.{queue_ns_key}
use nxt_device_messaging.Lifecycle.Home.{AtHome}
use nxt_device_messaging.Lifecycle.Moves.Purge.{Purged}
use nxt_device_messaging.Engine.{
  StageOutcome, removed, message_event, storing, Call, World, retry_or_fail, failed_message,
}
use nxt_device_messaging.Engine.Incoming.{process_event}
use nxt_device_messaging.Engine.Shown.{FailedFinally, Succeeded}
use nxt_device_messaging.Engine.Notify.{
  retry_or_fail_final, retry_or_fail-Notified, process_event_success,
}
use nxt_device_messaging.Engine.Actions.{Surroundings, not_offered, no_poll}
use nxt_device_messaging.Engine.Outgoing.{cancel_one_message}
use nxt_device_messaging.Engine.Outgoing.Cancel.{
  IsCancellable, cancel_one_message_iff, cancel_one_message-Purged,
}
use nxt_device_messaging.Examples.Fixtures.{acme, one_plugin, config, dto, message, meter}
use nxt_device_messaging.Examples.OfMoves.{
  instant, after_enqueue, one_plugin-IsKeyed, registered, enqueued-AtHome, enqueued-hash,
  reads_back,
}

abbrev call : Call
call = record { instant = instant; timestamp = txt "now"; webhook = storing }

abbrev pub world : World memory
world = record { db = after_enqueue; events = [] }

abbrev hopeless : FailureContext
hopeless = record {
  reason = txt "no such meter";
  error_code = none;
  details = none;
  skip_retry = true;
}

abbrev passing : FailureContext
passing = record { reason = txt "busy"; error_code = none; details = none; skip_retry = false }

abbrev failed_world : Option StageOutcome × World memory
failed_world = retry_or_fail memory config call (txt "a") queue_ns_key hopeless acme world

retry_or_fail_final_example :
    (failed_world.0 ≡ some removed)
    × (shown : DeviceMessage) × (failed_world.1.events ≡ message_event shown ∷ [])
    × FailedFinally (txt "now") hopeless message shown
    × Purged message (memory.view failed_world.1.db)
retry_or_fail_final_example =
    retry_or_fail_final memory config call (txt "a") queue_ns_key hopeless acme world one_plugin
      (serialize_create_device_message dto) message enqueued-hash reads_back (inl refl) refl
      registered one_plugin-IsKeyed enqueued-AtHome

placed : (view_of after_enqueue).zset (txt "q") (txt "a") ≢ none
unfolding view_of enqueue_device_message calls text_discrete
placed e = cc

gone : (memory.view failed_world.1.db).hash (message_key (txt "a")) ≡ none
gone =
    let (outcome, shown, events, failed, purged) =
      retry_or_fail_final memory config call (txt "a") queue_ns_key hopeless acme world one_plugin
        (serialize_create_device_message dto) message enqueued-hash reads_back (inl refl) refl
        registered one_plugin-IsKeyed enqueued-AtHome in
    purged.no_hash

retry_or_fail-Notified_example :
    (retry_or_fail memory config call (txt "a") queue_ns_key hopeless acme world).1.events
    ≡ message_event (failed_message (txt "now") hopeless message) ∷ []
retry_or_fail-Notified_example =
    retry_or_fail-Notified memory config call (txt "a") queue_ns_key hopeless acme world
      (serialize_create_device_message dto) message enqueued-hash reads_back gone

-- The message, with the index of delivery 77 leading to it.
abbrev indexed : History
indexed = set_ex (index_external_delivery_id (txt "77")) (message_key (txt "a")) 60 ∷ after_enqueue

abbrev indexed_world : World memory
indexed_world = record { db = indexed; events = [] }

indexed-AtHome : AtHome one_plugin (view_of indexed)
unfolding view_of
indexed-AtHome = record {
  member = λ i q h p score found own z. enqueued-AtHome.member i q h p score found own z;
}

indexed-hash :
    (view_of indexed).hash (message_key (txt "a")) ≡ some (serialize_create_device_message dto)
unfolding view_of
indexed-hash = enqueued-hash

leads : get_message_id_from_delivery_queue_id memory (txt "77") indexed ≡ some (txt "a")
unfolding get_message_id_from_delivery_queue_id view_of index_external_delivery_id message_key
    message_key_prefix text_discrete message_id_from_key
leads = refl

abbrev success : ParsedIncomingEvent
success = record {
  command_type = none;
  delivery_queue_id = some (txt "77");
  delivery_status = delivery_successful;
  device = meter;
  response = none;
  unsolicited = false;
  failure_context = none;
}

abbrev resolved : Option StageOutcome × World memory
resolved = process_event memory config call success acme indexed_world

process_event_success_example :
    (resolved.0 ≡ some removed)
    × (shown : DeviceMessage) × (resolved.1.events ≡ message_event shown ∷ [])
    × Succeeded (txt "now") success message shown
    × Purged message (memory.view resolved.1.db)
process_event_success_example =
    process_event_success memory config call success acme indexed_world one_plugin (txt "77")
      (txt "a") (serialize_create_device_message dto) message refl refl leads refl indexed-hash
      reads_back refl registered one_plugin-IsKeyed indexed-AtHome

abbrev pub env : Surroundings
env = record {
  in_flight = λ id. false;
  remote_status = λ m. not_offered;
  fetch_status = λ m. no_poll;
  decode_time = λ id. 1700000000000;
  call = λ id. call;
}

cancel_one_message_iff_example :
    ((cancel_one_message memory config one_plugin message after_enqueue).0 ≡ true)
    ↔ IsCancellable memory one_plugin config message acme after_enqueue
cancel_one_message_iff_example =
    cancel_one_message_iff memory one_plugin config message acme after_enqueue registered

cancelled : (cancel_one_message memory config one_plugin message after_enqueue).0 ≡ true
cancelled = cancel_one_message_iff_example.1 (inl (refl, placed))

cancel_one_message-Purged_example :
    Purged message
      (memory.view (cancel_one_message memory config one_plugin message after_enqueue).1)
cancel_one_message-Purged_example =
    cancel_one_message-Purged memory one_plugin config message acme after_enqueue
      (serialize_create_device_message dto) enqueued-hash reads_back registered one_plugin-IsKeyed
      enqueued-AtHome cancelled
