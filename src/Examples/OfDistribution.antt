-- ===== src/Examples/OfDistribution.antt =====
-- A distribution over one ready queue of a plugin with a spacing lock, and the keys of ready queues.
use nxt_device_messaging.Common.{txt, text_discrete, Text, ◌≡◌, refl, none, some, [], ite, arith}
use nxt_device_messaging.Message.{DeviceMessage, sent_to_ns}
use nxt_device_messaging.Plugin.{DeliveryPlugin, spacing, delivery}
use nxt_device_messaging.Plugin.QueueKey.{
  build_initial_queue_key, get_plugin_id_from_initial_queue_key, build_concurrency_rate_limit_key,
  parse_initial_queue_key, split_colon, join_colon, build_initial_queue_key-parsed,
}
use nxt_device_messaging.Redis.{calls}
use nxt_device_messaging.Redis.Keys.{
  list_of_initial_queues, lock_for_queue, message_key, message_key_prefix, index_correlation_id,
}
use nxt_device_messaging.Redis.Memory.{
  memory, view_of, scard_of, first_of_history, empty_in, members_of,
}
use nxt_device_messaging.Redis.Scripts.{
  at_cap, popped, fetch_if_exists, fetch_member, fetch_next_message_in_queue_and_move,
}
use nxt_device_messaging.Redis.MessageStore.{enqueue_device_message, deserialize_message}
use nxt_device_messaging.Redis.AdmissionStore.{lock_queue_for_time_ms}
use nxt_device_messaging.Lifecycle.Home.{AtHome, Registry}
use nxt_device_messaging.Lifecycle.Moves.{pick_into_ns}
use nxt_device_messaging.Lifecycle.Stages.{queue_ns_key}
use nxt_device_messaging.Engine.{Call, World, storing}
use nxt_device_messaging.Engine.Outgoing.Distribute.{
  can_admit, distribute_owned, distribute_queue, owner_of_queue,
}
use nxt_device_messaging.Engine.Outgoing.Distribute.Sends.{
  Handed, distribute_queue-Handed, distribute_queue_spaced,
}
use nxt_device_messaging.Examples.Fixtures.{acme, config, dto, message}
use nxt_device_messaging.Examples.OfMoves.{instant}

abbrev pub network_queue : Text
network_queue = txt "queue:acme:network:7"

build_initial_queue_key-parsed_example :
    (get_plugin_id_from_initial_queue_key
        (build_initial_queue_key (txt "acme") (txt "net:work") (txt "7"))
      ≡ some (txt "acme"))
    × (build_concurrency_rate_limit_key
          (build_initial_queue_key (txt "acme") (txt "net:work") (txt "7"))
        ≡ some (txt "rate_limit:acme:net:work:7"))
build_initial_queue_key-parsed_example =
    build_initial_queue_key-parsed (txt "acme") (txt "net:work") (txt "7") (λ e. cc)
      ((λ e. cc), ((λ e. cc), ((λ e. cc), ((λ e. cc), tt))))

network_limit :
    build_concurrency_rate_limit_key network_queue ≡ some (txt "rate_limit:acme:network:7")
unfolding build_concurrency_rate_limit_key parse_initial_queue_key split_colon join_colon
    text_discrete
network_limit = refl

abbrev pub spaced_acme : DeliveryPlugin
spaced_acme = record acme {
  admission = spacing 500;
  initial_queue_key = λ network d. network_queue;
}

abbrev pub spaced_registry : Registry
spaced_registry id = ite (text_discrete id (txt "acme")) (some (delivery spaced_acme)) none

abbrev waiting : World memory
waiting = record {
  db = (enqueue_device_message memory (txt "a") dto network_queue 86400 []).1;
  events = [];
}

abbrev pub call : Call
call = record { instant = instant; timestamp = txt "now"; webhook = storing }

abbrev pub sent_message : DeviceMessage
sent_message = record message { delivery_status = sent_to_ns }

handed_message :
    (distribute_queue memory config spaced_registry call network_queue waiting).0
    ≡ some sent_message
unfolding distribute_queue distribute_owned can_admit lock_queue_for_time_ms pick_into_ns at_cap
    popped fetch_if_exists fetch_member fetch_next_message_in_queue_and_move
    get_plugin_id_from_initial_queue_key parse_initial_queue_key split_colon
    build_concurrency_rate_limit_key join_colon text_discrete view_of scard_of first_of_history
    empty_in members_of enqueue_device_message deserialize_message calls message_key
    message_key_prefix lock_for_queue list_of_initial_queues queue_ns_key index_correlation_id
handed_message = refl

distribute_queue-Handed_example :
    Handed network_queue sent_message
      (view_of waiting.db)
      (view_of (distribute_queue memory config spaced_registry call network_queue waiting).1.db)
distribute_queue-Handed_example =
    distribute_queue-Handed memory config spaced_registry call network_queue waiting sent_message
      handed_message

network_owner :
    owner_of_queue spaced_registry (get_plugin_id_from_initial_queue_key network_queue)
    ≡ some spaced_acme
unfolding get_plugin_id_from_initial_queue_key parse_initial_queue_key split_colon text_discrete
network_owner = refl

distribute_queue_spaced_example :
    (distribute_queue memory config spaced_registry call network_queue
      (distribute_queue memory config spaced_registry call network_queue waiting).1).0
    ≡ none
distribute_queue_spaced_example =
    distribute_queue_spaced memory config spaced_registry call network_queue spaced_acme 500
      network_owner refl call waiting
      (distribute_queue memory config spaced_registry call network_queue waiting).1 refl

pub nowhere-AtHome : AtHome spaced_registry (view_of [])
unfolding view_of
nowhere-AtHome = record { member = λ id queue h p score found own z. ground arith }
