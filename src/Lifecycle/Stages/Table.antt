-- ===== src/Lifecycle/Stages/Table.antt =====
-- The table agrees with itself: statuses, stages and pipelines (src/engine/lifecycle/stages.ts).
use nxt_device_messaging.Common.{
  ℕ, ◌<◌, ◌≡◌, ◌↔◌, ◌⊎◌, Bool, true, false, ◌||◌, some, List, [], ◌∷◌, arith,
}
use nxt_device_messaging.Message.{
  DeliveryStatus, queued, to_retry, sent_to_ns, delivered_to_ns, sent_to_device,
  delivery_successful, delivery_failed,
}
use nxt_device_messaging.Plugin.{PipelinePattern}
use nxt_device_messaging.Lifecycle.Stages.{
  StageName, device, retry, stages, pipelines, same_stage, next_stage, stage_for_status,
}

abbrev has_stage : List StageName → StageName → Bool
has_stage [] st = false
has_stage (s ∷ rest) st = same_stage s st || has_stage rest st

-- A message of this pattern can wait in the stage: it is on the pipeline, or the retry stage.
abbrev pub visits : PipelinePattern → StageName → Bool
visits p st = has_stage (pipelines p) st || same_stage st retry

-- The order of the documented flow from enqueue to the outcome.
abbrev pub flow_rank : DeliveryStatus → ℕ
flow_rank to_retry = 0
flow_rank queued = 1
flow_rank sent_to_ns = 2
flow_rank delivered_to_ns = 3
flow_rank sent_to_device = 4
flow_rank delivery_successful = 5
flow_rank delivery_failed = 5

-- A status and a pattern determine a stage exactly when the stage writes that status on entry and is
-- one that messages of the pattern visit, or is the device stage: the hash needs no field for the
-- stage. (The device stage is read back for a PULL plugin too, which never enters it.)
pub stage_for_status_iff :
    (s : DeliveryStatus) (p : PipelinePattern) (st : StageName)
    → (stage_for_status s p ≡ some st)
      ↔ (((stages st).entry_status ≡ s) × ((visits p st ≡ true) ⊎ (st ≡ device)))
unfolding stage_for_status
stage_for_status_iff s p st = ground arith

-- The next stage on a pipeline is visited by its pattern, is read back from the status that it
-- writes, and its status is later in the flow than that of the stage before it.
pub next_stage_forward :
    (p : PipelinePattern) (st st' : StageName)
    → next_stage p st ≡ some st'
    → (visits p st' ≡ true)
      × (stage_for_status (stages st').entry_status p ≡ some st')
      × (flow_rank (stages st).entry_status < flow_rank (stages st').entry_status)
unfolding next_stage stage_for_status
next_stage_forward p st st' h = ground arith
