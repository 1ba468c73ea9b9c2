-- ===== src/Engine/Runner.antt =====
-- src/engine/lifecycle/runner.ts: the drain of one stage queue, and a tick over all of them. The
-- kick of the distributor, and the guard against a second drain of a row that is still draining, are
-- left out. Ids are ULIDs, so reading the time of an id does not throw.
pub mod Drain
use nxt_device_messaging.Common.{ℕ, ◌-◌, Text, Option, none, some, List, [], ◌∷◌}
use nxt_device_messaging.Message.{DeviceMessage}
use nxt_device_messaging.Plugin.{DeliveryPlugin, DeliveryConfig}
use nxt_device_messaging.Redis.{Redis}
use nxt_device_messaging.Redis.MessageStore.{Lookup, missing, malformed, found, get_message_by_id}
use nxt_device_messaging.Redis.StageStore.{get_expired_messages_in_queue}
use nxt_device_messaging.Lifecycle.Home.{Registry, as_delivery}
use nxt_device_messaging.Lifecycle.Stages.{StageQueue, enumerate_stage_queues}
use nxt_device_messaging.Lifecycle.Moves.{reschedule, claim_from_queue}
use nxt_device_messaging.Engine.{StageOutcome, removed, moved_on, rescheduled, orphaned, World}
use nxt_device_messaging.Engine.Actions.{Surroundings, act_in}

module _ (R : Redis) (config : DeliveryConfig) (reg : Registry) (env : Surroundings) where
  abbrev pub remove : Text → Text → World R → World R
  remove queue id w = record w { db = (claim_from_queue R config queue id w.db).1 }

  -- A throw of the action counts as `rescheduled`.
  abbrev pub conclude :
      StageQueue
      → DeviceMessage
      → Text
      → ℕ
      → DeliveryPlugin
      → Option StageOutcome × World R
      → World R
  conclude q message id age plugin (some orphaned, w) = remove q.key id w
  conclude q message id age plugin (some removed, w) = w
  conclude q message id age plugin (some moved_on, w) = w
  conclude q message id age plugin (some rescheduled, w) = record w {
    db = reschedule R config (env.call id).instant q.stage message age plugin w.db;
  }
  conclude q message id age plugin (none, w) = record w {
    db = reschedule R config (env.call id).instant q.stage message age plugin w.db;
  }

  abbrev pub drain_owned :
      StageQueue → ℕ → Text → DeviceMessage → Option DeliveryPlugin → World R → World R
  drain_owned q now id message none w = remove q.key id w
  drain_owned q now id message (some plugin) w =
      let age = now - env.decode_time id in
      conclude q message id age plugin (act_in R config env q.stage q.key message plugin age w)

  -- None is the throw of a hash that does not read, which ends the drain.
  abbrev pub drain_found : StageQueue → ℕ → Text → Lookup → World R → Option (World R)
  drain_found q now id missing w = some (remove q.key id w)
  drain_found q now id malformed w = none
  drain_found q now id (found message) w =
      some (drain_owned q now id message (as_delivery (reg message.plugin_id)) w)

  abbrev pub continue : World R → Option (World R) → (World R → World R) → World R
  continue w none rest = w
  continue w (some after) rest = rest after

  unfoldable pub drain_ids : StageQueue → ℕ → List Text → World R → World R
  drain_ids q now [] w = w
  drain_ids q now (id ∷ ids) w =
      continue w (drain_found q now id (get_message_by_id R id w.db) w) (drain_ids q now ids)

  -- The members due at `now`, one after the other.
  unfoldable pub drain : StageQueue → ℕ → World R → World R
  drain q now w = drain_ids q now (get_expired_messages_in_queue R q.key now w.db) w

  -- The stage queues, one after the other; the code drains them side by side.
  unfoldable pub drain_queues : List StageQueue → ℕ → World R → World R
  drain_queues [] now w = w
  drain_queues (q ∷ qs) now w = drain_queues qs now (drain q now w)

  -- One tick, for the ids of the plugins that are polled.
  unfoldable pub tick : List Text → ℕ → World R → World R
  unfolding drain_queues
  tick pull_plugin_ids now w = drain_queues (enumerate_stage_queues pull_plugin_ids) now w
