-- ===== src/Lifecycle/Protocol.antt =====
-- What src/engine/lifecycle promises of one message, with queues, keys, scores and indices forgotten:
-- where it stands, and how that may change.
pub mod Sources
pub mod Steps
pub mod Refines
use nxt_device_messaging.Common.{Text, ◌≡◌, ◌≢◌, Option, none, some, ℕ}
use nxt_device_messaging.Message.{DeliveryStatus, queued, to_retry, sent_to_ns, Device}
use nxt_device_messaging.Plugin.{DeliveryPlugin, DeliveryConfig, delivery}
use nxt_device_messaging.Redis.{MessageHash, Keyspace, Redis}
use nxt_device_messaging.Redis.Keys.{message_key}
use nxt_device_messaging.Lifecycle.Stages.{
  StageName, stages, next_stage, stage_for_status, stage_key_for, queue_retry_key,
}
use nxt_device_messaging.Lifecycle.Stages.Keys.{IsStageKey}
use nxt_device_messaging.Lifecycle.Home.{Registry, owner}
use nxt_device_messaging.Lifecycle.Reach.{
  Step, enqueues, picks, advances, retries, reschedules, requeues, claims, purges, expires, Reach,
  here, next,
}

-- A message with no hash, or whose hash names no delivery plugin, is absent.
pub data Standing : Type 0 where
  absent : Standing
  stands : DeliveryPlugin → Option DeliveryStatus → Standing

abbrev pub standing_under : Option DeliveryPlugin → Option DeliveryStatus → Standing
standing_under none status = absent
standing_under (some p) status = stands p status

abbrev pub standing_of : Registry → Option MessageHash → Standing
standing_of reg none = absent
standing_of reg (some h) = standing_under (owner reg h) h.delivery_status

abbrev pub standing : Registry → Keyspace → Text → Standing
standing reg s id = standing_of reg (s.hash (message_key id))

-- What a step of the lifecycle is, with the plugin of an enqueue and the stage that an advance leaves.
pub data Action : Type 0 where
  enqueuing : DeliveryPlugin → Action
  advancing : StageName → Action
  picking retrying rescheduling requeuing claiming purging expiring : Action

abbrev pub action_of :
    {R : Redis} {reg : Registry} {config : DeliveryConfig} {db db' : R.Db}
    → Step R reg config db db'
    → Action
action_of (enqueues db id dto plugin fresh new owned) = enqueuing plugin
action_of (picks db t queue plugin limit) = picking
action_of (advances db t a owned) = advancing a.from
action_of (retries db t a) = retrying
action_of (reschedules db t st m age plugin) = rescheduling
action_of (requeues db id from_key to_key priority plugin owned ready) = requeuing
action_of (claims db queue id) = claiming
action_of (purges db m plugin) = purging
action_of (expires db db' w) = expiring

-- How one step may move a message, by what the step is: only an enqueue lets a message in, only a purge
-- and an expiry let one go, and a reschedule and a claim move none.
pub data Edge : Action → Standing → Standing → Type 0 where
  stays : (a : Action) (x : Standing) → Edge a x x
  enters : (p : DeliveryPlugin) → Edge (enqueuing p) absent (stands p (some queued))
  is_purged : (x : Standing) → Edge purging x absent
  runs_out : (x : Standing) → Edge expiring x absent
  is_sent :
      (p : DeliveryPlugin) → Edge picking (stands p (some queued)) (stands p (some sent_to_ns))
  goes_on :
      (p : DeliveryPlugin) (s : DeliveryStatus) (st st' : StageName)
      → stage_for_status s p.delivery_pattern ≡ some st
      → next_stage p.delivery_pattern st ≡ some st'
      → Edge (advancing st) (stands p (some s)) (stands p (some (stages st').entry_status))
  fails :
      (p : DeliveryPlugin) (s : DeliveryStatus) (st : StageName)
      → stage_for_status s p.delivery_pattern ≡ some st
      → Edge retrying (stands p (some s)) (stands p (some to_retry))
  is_tried_again :
      (p : DeliveryPlugin) → Edge requeuing (stands p (some to_retry)) (stands p (some queued))

-- Every single step, in its place, has moved the message along an edge of its own.
abbrev pub Follows :
    {R : Redis} {reg : Registry} {config : DeliveryConfig} {start db : R.Db}
    → Text
    → Reach R reg config start db
    → Type 0
Follows id here = Unit
Follows {R} {reg} id (next {db} {db'} r step) =
    Follows id r
    × Edge (action_of step) (standing reg (R.view db) id) (standing reg (R.view db') id)

-- No ready queue has the key of a stage.
abbrev pub IsApart : Registry → Type 0
IsApart reg =
    (id : Text) (p : DeliveryPlugin) (network : Option ℕ) (d : Device) (st : StageName) (k : Text)
    → reg id ≡ some (delivery p)
    → p.initial_queue_key network d ≢ stage_key_for (stages st) k

-- How the engine calls the moves: it picks from no stage, a failed attempt comes out of a stage, and
-- what is put back into a ready queue comes out of the retry queue.
abbrev pub IsCalled :
    {R : Redis} {reg : Registry} {config : DeliveryConfig} {db db' : R.Db}
    → Step R reg config db db'
    → Type 0
IsCalled (picks db t queue plugin limit) = IsStageKey queue → ⊥
IsCalled (retries db t a) = IsStageKey a.from_key
IsCalled (requeues db id from_key to_key priority plugin owned ready) = from_key ≡ queue_retry_key
IsCalled (enqueues db id dto plugin fresh new owned) = Unit
IsCalled (advances db t a owned) = Unit
IsCalled (reschedules db t st m age plugin) = Unit
IsCalled (claims db queue id) = Unit
IsCalled (purges db m plugin) = Unit
IsCalled (expires db db' w) = Unit

abbrev pub AllCalled :
    {R : Redis} {reg : Registry} {config : DeliveryConfig} {start db : R.Db}
    → Reach R reg config start db
    → Type 0
AllCalled here = Unit
AllCalled (next r st) = AllCalled r × IsCalled st

-- A run of steps, each made the way the engine makes it.
pub data Run (R : Redis) (reg : Registry) (config : DeliveryConfig) (start : R.Db)
    : R.Db → Type 0 where
  begun : Run R reg config start start
  then_does :
      {db db' : R.Db}
      → Run R reg config start db
      → (step : Step R reg config db db') → IsCalled step
      → Run R reg config start db'

pub does :
    (R : Redis) (reg : Registry) (config : DeliveryConfig) {db db' : R.Db}
    (step : Step R reg config db db')
    → IsCalled step
    → Run R reg config db db'
does R reg config step c = then_does begun step c

pub Run-trans :
    (R : Redis) (reg : Registry) (config : DeliveryConfig) {a b c : R.Db}
    → Run R reg config a b
    → Run R reg config b c
    → Run R reg config a c
Run-trans R reg config r begun = r
Run-trans R reg config r (then_does q step c) = then_does (Run-trans R reg config r q) step c

pub Run-Reach :
    (R : Redis) (reg : Registry) (config : DeliveryConfig) {a b : R.Db}
    → Run R reg config a b
    → (r : Reach R reg config a b) × AllCalled r
Run-Reach R reg config begun = (here, tt)
Run-Reach R reg config (then_does q step c) =
    let (r, cs) = Run-Reach R reg config q in (next r step, (cs, c))
