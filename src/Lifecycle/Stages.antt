-- ===== src/Lifecycle/Stages.antt =====
-- src/engine/lifecycle/stages.ts and the types of types.ts; src/lib/retry-helpers.ts. A draw of
-- Math.random() is a number below 2 ^ 53 that stands for that many 2 ^ 53rds.
pub mod Table
pub mod Waits
pub mod Keys
use nxt_device_messaging.Common.{
  ℕ, Text, txt, ◌+◌, ◌*◌, ◌/◌, ◌^◌, min, Bool, true, false, Option, none, some, List, [], ◌∷◌, ◌++◌,
  map, ltb, if◌then◌else◌,
}
use nxt_device_messaging.Message.{
  DeliveryStatus, queued, to_retry, sent_to_ns, delivered_to_ns, sent_to_device,
  delivery_successful, delivery_failed, DeviceMessage,
}
use nxt_device_messaging.Plugin.{PipelinePattern, push, pull, PluginTuning, DeliveryConfig}
use nxt_device_messaging.Redis.Keys.{queue_awaiting_task}

pub data StageName : Type 0 where
  ns relay_node device awaiting_task retry : StageName

pub record StageEntryContext : Type 0 where
  pub tuning : PluginTuning
  pub delivery : DeliveryConfig
  pub retry_count : ℕ
  pub random : ℕ

pub record StageRescheduleContext : Type 0 where
  pub message : DeviceMessage
  pub message_age_ms : ℕ
  pub tuning : PluginTuning
  pub delivery : DeliveryConfig
  pub random : ℕ

-- A core stage has one key, a per-plugin stage one for each plugin id.
pub data StageKey : Type 0 where
  core : Text → StageKey
  per_plugin : (Text → Text) → StageKey

pub record StageDefinition : Type 0 where
  pub name : StageName
  pub key : StageKey
  pub entry_status : DeliveryStatus
  pub entry_wait_ms : StageEntryContext → ℕ
  pub reschedule_wait_ms : Option (StageRescheduleContext → ℕ)

unfoldable pub queue_ns_key : Text
queue_ns_key = txt "queue_in_flight_to_ns"

unfoldable pub queue_relay_node_key : Text
queue_relay_node_key = txt "queue_in_flight_to_relay_node"

unfoldable pub queue_device_key : Text
queue_device_key = txt "queue_in_flight_to_device"

unfoldable pub queue_retry_key : Text
queue_retry_key = txt "queue_awaiting_retry"

pub default_poll_ladder_ms : ℕ → ℕ
default_poll_ladder_ms age =
    if ltb age 20000
    then 10000
    else if ltb age 50000
    then 15000
    else if ltb age 90000
    then 20000
    else 30000

abbrev pub pull_max_message_age_ms : ℕ
pull_max_message_age_ms = 48 * 60 * 60 * 1000

pub capped_delay : ℕ → DeliveryConfig → ℕ
capped_delay retry_count d =
    min (d.retry_base_delay_ms * d.retry_backoff_multiplier ^ retry_count) d.retry_max_delay_ms

-- Half of the draw's fraction of the capped delay, rounded down.
pub jitter : ℕ → ℕ → ℕ
jitter random capped = random * capped / 2 ^ 54

pub calculate_backoff_delay : ℕ → DeliveryConfig → ℕ → ℕ
calculate_backoff_delay retry_count d random =
    capped_delay retry_count d + jitter random (capped_delay retry_count d)

abbrev pub stages : StageName → StageDefinition
stages ns = record {
  name = ns;
  key = core queue_ns_key;
  entry_status = sent_to_ns;
  entry_wait_ms = λ c. c.tuning.ns_in_flight_timeout_ms;
  reschedule_wait_ms = none;
}
stages relay_node = record {
  name = relay_node;
  key = core queue_relay_node_key;
  entry_status = delivered_to_ns;
  entry_wait_ms = λ c. c.tuning.relay_node_in_flight_timeout_ms;
  reschedule_wait_ms = none;
}
stages device = record {
  name = device;
  key = core queue_device_key;
  entry_status = sent_to_device;
  entry_wait_ms = λ c. c.tuning.device_in_flight_timeout_ms;
  reschedule_wait_ms = none;
}
stages awaiting_task = record {
  name = awaiting_task;
  key = per_plugin queue_awaiting_task;
  entry_status = delivered_to_ns;
  entry_wait_ms = λ c. c.tuning.initial_poll_delay_ms;
  reschedule_wait_ms = some (λ c. default_poll_ladder_ms c.message_age_ms);
}
stages retry = record {
  name = retry;
  key = core queue_retry_key;
  entry_status = to_retry;
  entry_wait_ms = λ c. calculate_backoff_delay c.retry_count c.delivery c.random;
  reschedule_wait_ms = none;
}

-- `Object.values(STAGES)`, in the order of the table.
abbrev pub all_stages : List StageName
all_stages = ns ∷ relay_node ∷ device ∷ awaiting_task ∷ retry ∷ []

abbrev pub pipelines : PipelinePattern → List StageName
pipelines push = ns ∷ relay_node ∷ device ∷ []
pipelines pull = ns ∷ awaiting_task ∷ []

abbrev pub same_stage : StageName → StageName → Bool
same_stage ns ns = true
same_stage relay_node relay_node = true
same_stage device device = true
same_stage awaiting_task awaiting_task = true
same_stage retry retry = true
same_stage _ _ = false

abbrev first : List StageName → Option StageName
first [] = none
first (s ∷ rest) = some s

-- The element behind the first occurrence of `current`; none at the end or if there is none.
stage_after : List StageName → StageName → Option StageName
stage_after [] current = none
stage_after (s ∷ rest) current =
    let later = stage_after rest current in if same_stage s current then first rest else later

unfoldable pub next_stage : PipelinePattern → StageName → Option StageName
unfolding stage_after
next_stage pattern current = stage_after (pipelines pattern) current

unfoldable pub stage_for_status : DeliveryStatus → PipelinePattern → Option StageName
stage_for_status sent_to_ns pattern = some ns
stage_for_status delivered_to_ns push = some relay_node
stage_for_status delivered_to_ns pull = some awaiting_task
stage_for_status sent_to_device pattern = some device
stage_for_status to_retry pattern = some retry
stage_for_status queued pattern = none
stage_for_status delivery_successful pattern = none
stage_for_status delivery_failed pattern = none

abbrev key_for : StageKey → Text → Text
key_for (core key) plugin_id = key
key_for (per_plugin key) plugin_id = key plugin_id

unfoldable pub stage_key_for : StageDefinition → Text → Text
stage_key_for stage plugin_id = key_for stage.key plugin_id

unfoldable pub reschedule_wait_ms_for : StageDefinition → StageRescheduleContext → ℕ
reschedule_wait_ms_for stage context = elim stage.reschedule_wait_ms [
  | some wait ↦ wait context
  | none ↦ stage.entry_wait_ms (record {
    tuning = context.tuning;
    delivery = context.delivery;
    retry_count = context.message.retry_count;
    random = context.random;
  })
]

-- A stage paired with one concrete key; a per-plugin stage also with the plugin's id.
pub record StageQueue : Type 0 where
  pub stage : StageName
  pub key : Text
  pub plugin_id : Option Text

abbrev queues_of : StageName → StageKey → List Text → List StageQueue
queues_of stage (core key) plugin_ids = record { stage = stage; key = key; plugin_id = none } ∷ []
queues_of stage (per_plugin key) plugin_ids =
    map (λ id. record { stage = stage; key = key id; plugin_id = some id }) plugin_ids

queues_of_stages : List StageName → List Text → List StageQueue
queues_of_stages [] plugin_ids = []
queues_of_stages (s ∷ rest) plugin_ids =
    queues_of s (stages s).key plugin_ids ++ queues_of_stages rest plugin_ids

pub enumerate_stage_queues : List Text → List StageQueue
unfolding queues_of_stages
enumerate_stage_queues plugin_ids = queues_of_stages all_stages plugin_ids

unfoldable pub enumerate_stage_keys : List Text → List Text
unfolding enumerate_stage_queues
enumerate_stage_keys plugin_ids = map (λ q. q.key) (enumerate_stage_queues plugin_ids)
