-- ===== src/Lifecycle/Stages/Keys.antt =====
-- The keys of the stage queues (src/engine/lifecycle/stages.ts, enumerateStageKeys).
use nxt_device_messaging.Common.{
  Text, ◌≡◌, ◌≢◌, refl, ◌⊎◌, inl, inr, none, some, List, [], ◌∷◌, ◌++◌, map, All, arith,
}
use nxt_device_messaging.Redis.Keys.{queue_awaiting_task}
use nxt_device_messaging.Lifecycle.Stages.{
  StageName, ns, relay_node, device, awaiting_task, retry, stages, stage_key_for,
  enumerate_stage_keys, queue_ns_key, queue_relay_node_key, queue_device_key, queue_retry_key,
  StageQueue, enumerate_stage_queues, queues_of_stages,
}

abbrev pub Distinct : List Text → Type 0
Distinct [] = Unit
Distinct (x ∷ xs) = All (λ y. x ≢ y) xs × Distinct xs

-- `x` stands in the list.
abbrev pub Listed : Text → List Text → Type 0
Listed x [] = ⊥
Listed x (y ∷ ys) = (x ≡ y) ⊎ Listed x ys

abbrev task_queue : Text → StageQueue
task_queue id = record { stage = awaiting_task; key = queue_awaiting_task id; plugin_id = some id }

-- The four core keys around the task keys of the plugins.
keys : List Text → List Text
keys ids =
    map (λ (q : StageQueue). q.key)
      (map task_queue ids ++ record { stage = retry; key = queue_retry_key; plugin_id = none } ∷ [])

enumerate_stage_keys-keys :
    (ids : List Text)
    → enumerate_stage_keys ids ≡ queue_ns_key ∷ queue_relay_node_key ∷ queue_device_key ∷ keys ids
unfolding enumerate_stage_keys keys
enumerate_stage_keys-keys ids = refl

-- A core key is none of the task keys.
All-keys :
    (key : Text) (ids : List Text)
    → ((id : Text) → key ≢ queue_awaiting_task id)
    → key ≢ queue_retry_key
    → All (λ k. key ≢ k) (keys ids)
unfolding keys
All-keys key [] h r = (r, tt)
All-keys key (id ∷ ids) h r = (h id, All-keys key ids h r)

All-task :
    (id : Text) (ids : List Text)
    → All (λ j. id ≢ j) ids
    → All (λ k. queue_awaiting_task id ≢ k) (keys ids)
unfolding keys queue_awaiting_task queue_retry_key
All-task id [] h = ((λ e. ground arith), tt)
All-task id (j ∷ ids) h = ((λ e. h.0 (cc)), All-task id ids h.1)

Distinct-keys : (ids : List Text) → Distinct ids → Distinct (keys ids)
unfolding keys
Distinct-keys [] d = (tt, tt)
Distinct-keys (id ∷ ids) d = (All-task id ids d.0, Distinct-keys ids d.1)

-- No two stage queues share a key, for plugins with different ids.
pub enumerate_stage_keys-Distinct :
    (ids : List Text) → Distinct ids → Distinct (enumerate_stage_keys ids)
unfolding queue_ns_key queue_relay_node_key queue_device_key queue_retry_key queue_awaiting_task
enumerate_stage_keys-Distinct ids d = rw enumerate_stage_keys-keys (
  (
    (λ e. ground arith),
    ((λ e. ground arith), rest queue_ns_key (λ id e. ground arith) (λ e. ground arith)),
  ),
  (
    ((λ e. ground arith), rest queue_relay_node_key (λ id e. ground arith) (λ e. ground arith)),
    (rest queue_device_key (λ id e. ground arith) (λ e. ground arith), Distinct-keys ids d),
  ),
)
  where
    rest :
        (key : Text)
        → ((id : Text) → key ≢ queue_awaiting_task id)
        → key ≢ queue_retry_key
        → All (λ k. key ≢ k) (keys ids)
    rest key h r = All-keys key ids h r

abbrev pub IsStageKey : Text → Type 0
IsStageKey queue = (st : StageName) × (k : Text) × (queue ≡ stage_key_for (stages st) k)

pub ns-IsStageKey : IsStageKey queue_ns_key
unfolding stage_key_for
ns-IsStageKey = (ns, [], refl)

abbrev pub HasStageKey : StageQueue → Type 0
HasStageKey q = IsStageKey q.key

task-HasStageKey :
    (ids : List Text) (rest : List StageQueue)
    → All HasStageKey rest
    → All HasStageKey (map task_queue ids ++ rest)
unfolding stage_key_for
task-HasStageKey [] rest h = h
task-HasStageKey (id ∷ ids) rest h = ((awaiting_task, id, refl), task-HasStageKey ids rest h)

-- Every queue of a tick has the key of a stage.
pub enumerate_stage_queues-HasStageKey :
    (ids : List Text) → All HasStageKey (enumerate_stage_queues ids)
unfolding enumerate_stage_queues queues_of_stages stage_key_for
enumerate_stage_queues-HasStageKey ids = (
  (ns, [], refl),
  (
    (relay_node, [], refl),
    (
      (device, [], refl),
      task-HasStageKey ids (record { stage = retry; key = queue_retry_key; plugin_id = none } ∷ [])
          ((retry, [], refl), tt),
    ),
  ),
)

-- The keys listed for one plugin contain the key of every stage for that plugin.
pub enumerate_stage_keys_complete :
    (st : StageName) (id : Text)
    → Listed (stage_key_for (stages st) id) (enumerate_stage_keys (id ∷ []))
unfolding enumerate_stage_keys stage_key_for
enumerate_stage_keys_complete ns id = inl refl
enumerate_stage_keys_complete relay_node id = inr (inl refl)
enumerate_stage_keys_complete device id = inr (inr (inl refl))
enumerate_stage_keys_complete awaiting_task id = inr (inr (inr (inl refl)))
enumerate_stage_keys_complete retry id = inr (inr (inr (inr (inl refl))))
