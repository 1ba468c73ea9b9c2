-- ===== src/Lifecycle/Reach.antt =====
-- Every order of the transitions of src/engine/lifecycle/moves.ts, of enqueues, and of keys that
-- Redis lets expire. Each step runs with nothing between its commands; for `enterRetry`, which reads
-- before its MULTI, that is an assumption of the model.
use nxt_device_messaging.Common.{ℕ, Text, ℤ, ◌≡◌, sym, ◌∙◌, Option, none, some, some_inj}
use nxt_device_messaging.Message.{CreateDeviceMessage, DeviceMessage}
use nxt_device_messaging.Plugin.{DeliveryPlugin, DeliveryConfig, delivery}
use nxt_device_messaging.Redis.{MessageHash, Redis}
use nxt_device_messaging.Redis.Commands.{Within}
use nxt_device_messaging.Redis.Keys.{message_key}
use nxt_device_messaging.Redis.MessageStore.{enqueue_device_message}
use nxt_device_messaging.Lifecycle.Stages.{StageName}
use nxt_device_messaging.Lifecycle.Home.{Registry, owner, OwnedBy, ready_queue, AtHome}
use nxt_device_messaging.Lifecycle.Moves.{
  Instant, ConcurrencyRateLimit, AdvanceArgs, EnterRetryArgs, pick_into_ns, advance, enter_retry,
  reschedule, purge, claim_from_queue, requeue,
}
use nxt_device_messaging.Lifecycle.Moves.Invariant.{Shrunk-AtHome}
use nxt_device_messaging.Lifecycle.Moves.Transitions.{
  advance-AtHome, requeue-AtHome, reschedule-AtHome, claim_from_queue-AtHome,
}
use nxt_device_messaging.Lifecycle.Moves.Retry.{enter_retry-AtHome}
use nxt_device_messaging.Lifecycle.Moves.Purge.{purge-AtHome}
use nxt_device_messaging.Lifecycle.Moves.Entry.{IsFresh, enqueue-AtHome, pick_into_ns-AtHome}

pub data Step (R : Redis) (reg : Registry) (config : DeliveryConfig) : R.Db → R.Db → Type 0 where
  enqueues :
      (db : R.Db) (id : Text) (dto : CreateDeviceMessage) (plugin : DeliveryPlugin)
      → IsFresh id (R.view db)
      → (R.view db).hash (message_key id) ≡ none
      → reg dto.plugin_id ≡ some (delivery plugin)
      → Step R reg config db
          (enqueue_device_message R id dto
            (plugin.initial_queue_key dto.network_id dto.device)
            config.message_ttl_seconds
            db).1
  picks :
      (db : R.Db) (t : Instant) (queue : Text) (plugin : DeliveryPlugin)
      (limit : Option ConcurrencyRateLimit)
      → Step R reg config db (pick_into_ns R config t queue plugin limit db).1
  advances :
      (db : R.Db) (t : Instant) (a : AdvanceArgs)
      → OwnedBy reg (R.view db) a.message_id a.plugin
      → Step R reg config db (advance R config t a db).1
  retries :
      (db : R.Db) (t : Instant) (a : EnterRetryArgs)
      → Step R reg config db (enter_retry R config t a db).1
  reschedules :
      (db : R.Db) (t : Instant) (st : StageName) (m : DeviceMessage) (age : ℕ)
      (plugin : DeliveryPlugin)
      → Step R reg config db (reschedule R config t st m age plugin db)
  requeues :
      (db : R.Db) (id from_key to_key : Text) (priority : ℤ) (plugin : DeliveryPlugin)
      → OwnedBy reg (R.view db) id plugin
      → ((g : MessageHash)
          → (R.view db).hash (message_key id) ≡ some g
          → ready_queue plugin g.network_id g.device ≡ some to_key)
      → Step R reg config db (requeue R config id from_key to_key priority db).1
  claims :
      (db : R.Db) (queue id : Text) → Step R reg config db (claim_from_queue R config queue id db).1
  purges :
      (db : R.Db) (m : DeviceMessage) (plugin : DeliveryPlugin)
      → Step R reg config db (purge R config m plugin db)
  expires : (db db' : R.Db) → Within (R.view db') (R.view db) → Step R reg config db db'

pub data Reach (R : Redis) (reg : Registry) (config : DeliveryConfig) (start : R.Db)
    : R.Db → Type 0 where
  here : Reach R reg config start start
  next :
      {db db' : R.Db}
      → Reach R reg config start db
      → Step R reg config db db'
      → Reach R reg config start db'

pub Reach-trans :
    (R : Redis) (reg : Registry) (config : DeliveryConfig) {a b c : R.Db}
    → Reach R reg config a b
    → Reach R reg config b c
    → Reach R reg config a c
Reach-trans R reg config r here = r
Reach-trans R reg config r (next q st) = next (Reach-trans R reg config r q) st

not_none : {A : Type 0} {o : Option A} {x : A} → o ≡ some x → o ≡ none → ⊥
not_none e f = cc

Step-AtHome :
    (R : Redis) (reg : Registry) (config : DeliveryConfig) {db db' : R.Db}
    → Step R reg config db db'
    → AtHome reg (R.view db)
    → AtHome reg (R.view db')
Step-AtHome R reg config (enqueues db id dto plugin fresh new owned) a =
    enqueue-AtHome R reg db id dto config.message_ttl_seconds plugin fresh new owned a
Step-AtHome R reg config (picks db t queue plugin limit) a =
    pick_into_ns-AtHome reg config t queue plugin limit R db a
Step-AtHome R reg config (advances db t args owned) a =
    advance-AtHome R reg config db t args owned a
Step-AtHome R reg config (retries db t args) a = enter_retry-AtHome R reg config db t args a
Step-AtHome R reg config (reschedules db t st m age plugin) a =
    reschedule-AtHome R reg config db t st m age plugin a
Step-AtHome R reg config (requeues db id from_key to_key priority plugin owned ready) a =
    requeue-AtHome R reg config db id from_key to_key priority plugin owned ready a
Step-AtHome R reg config (claims db queue id) a = claim_from_queue-AtHome R reg config db queue id a
Step-AtHome R reg config (purges db m plugin) a = purge-AtHome R reg config db m plugin a
Step-AtHome R reg config (expires db db' w) a =
    Shrunk-AtHome reg (R.view db) (R.view db') (λ id h e. w.hashes (message_key id) h e)
      (λ q id score z. not_none (w.zsets q id score z)) a

-- From a database in which every message is at home, whatever steps are taken and in whatever order,
-- a message whose hash is there and names a delivery plugin sits in no sorted set other than the
-- queue that its status, its device and its plugin name. The steps are the transitions, with an
-- advance and a requeue made for the plugin that owns the message and a requeue to its ready queue,
-- the enqueue under an id that occurs nowhere, and the expiry of keys.
pub Reach-AtHome :
    (R : Redis) (reg : Registry) (config : DeliveryConfig) {start db : R.Db}
    → AtHome reg (R.view start)
    → Reach R reg config start db
    → AtHome reg (R.view db)
Reach-AtHome R reg config a here = a
Reach-AtHome R reg config a (next r st) =
    Step-AtHome R reg config st (Reach-AtHome R reg config a r)

-- So it is never in two queues at once.
pub Reach-one_queue :
    (R : Redis) (reg : Registry) (config : DeliveryConfig) {start db : R.Db}
    → AtHome reg (R.view start)
    → Reach R reg config start db
    → (id q q' : Text) (h : MessageHash) (p : DeliveryPlugin) (score score' : ℤ)
    → (R.view db).hash (message_key id) ≡ some h
    → owner reg h ≡ some p
    → (R.view db).zset q id ≡ some score
    → (R.view db).zset q' id ≡ some score'
    → q ≡ q'
Reach-one_queue R reg config a r id q q' h p score score' e own z z' =
    let home_all = Reach-AtHome R reg config a r in
    some_inj
      (sym (home_all.member id q h p score e own z) ∙ home_all.member id q' h p score' e own z')
