-- ===== src/Lifecycle/Protocol/Refines.antt =====
-- The queues of src/engine/lifecycle do what the protocol says.
use nxt_device_messaging.Common.{Text, ◌+◌, pos, ◌≡◌, refl, sym, ap, ◌∙◌}
use nxt_device_messaging.Plugin.{DeliveryConfig}
use nxt_device_messaging.Redis.{Redis, Keyspace, Command, zadd_xx, zrem, apply, calls, view-calls}
use nxt_device_messaging.Redis.Commands.{Within-apply_all}
use nxt_device_messaging.Redis.Keys.{message_key}
use nxt_device_messaging.Redis.StageStore.{message_full_cleanup, cleanup_commands}
use nxt_device_messaging.Lifecycle.Moves.{reschedule, claim_from_queue, purge, purge_queues}
use nxt_device_messaging.Lifecycle.Moves.Purge.{cleanup-TakesAway}
use nxt_device_messaging.Lifecycle.Protocol.Steps.{
  Moves, same-Moves, kept-Moves, enqueue-Moves, pick_into_ns-Moves, advance-Moves,
  enter_retry-Moves, requeue-Moves,
}
use nxt_device_messaging.Lifecycle.Stages.{stages, stage_key_for, reschedule_wait_ms_for}
use nxt_device_messaging.Lifecycle.Home.{Registry, AtHome}
use nxt_device_messaging.Lifecycle.Reach.{
  Step, enqueues, picks, advances, retries, reschedules, requeues, claims, purges, expires, Reach,
  here, next, Reach-AtHome,
}
use nxt_device_messaging.Lifecycle.Protocol.{
  Action, rescheduling, claiming, purging, expiring, is_purged, runs_out, action_of, Follows,
  IsApart, IsCalled, AllCalled, Run, Run-Reach,
}

-- One command that leaves the message hashes.
call-Moves :
    (action : Action) (R : Redis) (reg : Registry) (db : R.Db) (c : Command)
    → ((i : Text) → (apply c (R.view db)).hash (message_key i) ≡ (R.view db).hash (message_key i))
    → Moves action reg (R.view db) (R.view (R.call c db))
call-Moves action R reg db c same =
    same-Moves action reg (R.view db) (R.view (R.call c db))
      (λ i. ap (λ (s : Keyspace). s.hash (message_key i)) (R.view-call c db) ∙ same i)

-- A step, made the way the engine makes it, moves each message along an edge of the protocol.
Step-Moves :
    (R : Redis) (reg : Registry) (config : DeliveryConfig) {db db' : R.Db}
    → IsApart reg
    → AtHome reg (R.view db)
    → (step : Step R reg config db db') → IsCalled step
    → Moves (action_of step) reg (R.view db) (R.view db')
unfolding reschedule claim_from_queue purge message_full_cleanup
Step-Moves R reg config apart a (enqueues db id dto plugin fresh new owned) c =
    enqueue-Moves R reg config db apart a id dto plugin fresh new owned
Step-Moves R reg config apart a (picks db t queue plugin limit) c =
    pick_into_ns-Moves R reg config db apart a t queue plugin limit c
Step-Moves R reg config apart a (advances db t x owned) c =
    advance-Moves R reg config db apart a t x owned
Step-Moves R reg config apart a (retries db t x) c = enter_retry-Moves R reg config db apart a t x c
Step-Moves R reg config apart a (reschedules db t st m age plugin) c =
    call-Moves rescheduling R reg db
      (zadd_xx (stage_key_for (stages st) plugin.id)
        (pos (t.now + reschedule_wait_ms_for (stages st) _)) m.id)
      (λ i. refl)
Step-Moves R reg config apart a (requeues db id from_key to_key priority plugin owned ready) c =
    requeue-Moves R reg config db apart a id from_key to_key priority c
Step-Moves R reg config apart a (claims db queue id) c =
    call-Moves claiming R reg db (zrem queue id) (λ i. refl)
Step-Moves R reg config apart a (purges db m plugin) c =
    let cs = cleanup_commands m (purge_queues m plugin) in
    kept-Moves purging reg (R.view db) (R.view (calls R cs db)) is_purged (λ i h f.
      (Within-apply_all cs (R.view db) (cleanup-TakesAway m (purge_queues m plugin))).hashes
        (message_key i) h
        (ap (λ (s : Keyspace). s.hash (message_key i)) (sym (view-calls R cs db)) ∙ f))
Step-Moves R reg config apart a (expires db db' w) c =
    kept-Moves expiring reg (R.view db) (R.view db') runs_out
      (λ i h f. w.hashes (message_key i) h f)

-- From a database in which every message is at home, with ready queues apart from the stages, and
-- whatever order of steps is taken, each made the way the engine makes it, every single step moves a
-- message only as its kind allows, or not at all: an enqueue takes an absent message in as queued for
-- its plugin, a pick a queued one to the network server, an advance one in its stage on to the next
-- stage of its plugin's pipeline, a retry one in a stage to the retry queue, a requeue one from there
-- back to queued, and a purge or an expiry takes it away. The plugin stays. A reschedule and a claim
-- move nothing.
pub Reach-Follows :
    (R : Redis) (reg : Registry) (config : DeliveryConfig) {start db : R.Db}
    → IsApart reg
    → AtHome reg (R.view start)
    → (r : Reach R reg config start db) → AllCalled r
    → (id : Text) → Follows id r
Reach-Follows R reg config apart a here c id = tt
Reach-Follows R reg config apart a (next r st) (cs, c) id = (
  Reach-Follows R reg config apart a r cs id,
  Step-Moves R reg config apart (Reach-AtHome R reg config a r) st c id,
)

-- What the steps of a run keep.
pub Run-AtHome :
    (R : Redis) (reg : Registry) (config : DeliveryConfig) {start db : R.Db}
    → AtHome reg (R.view start)
    → Run R reg config start db
    → AtHome reg (R.view db)
Run-AtHome R reg config a q = Reach-AtHome R reg config a (Run-Reach R reg config q).0
