-- ===== src/Engine/System.antt =====
-- The engine of src/engine as a whole: ticks, events, distributions, sends, enqueues and cancels, in any
-- order, over one database, with keys that expire in between.
use nxt_device_messaging.Common.{ℕ, Text, ◌≡◌, none, List}
use nxt_device_messaging.Message.{CreateDeviceMessage, DeviceMessage, ParsedIncomingEvent}
use nxt_device_messaging.Plugin.{DeliveryPlugin, DeliveryConfig}
use nxt_device_messaging.Redis.{Redis}
use nxt_device_messaging.Redis.Commands.{Within}
use nxt_device_messaging.Redis.Keys.{message_key}
use nxt_device_messaging.Lifecycle.Home.{Registry, AtHome, OwnedBy}
use nxt_device_messaging.Lifecycle.Moves.Entry.{IsFresh}
use nxt_device_messaging.Lifecycle.Reach
use nxt_device_messaging.Lifecycle.Protocol.{Run, does}
use nxt_device_messaging.Lifecycle.Protocol.Refines.{Run-AtHome}
use nxt_device_messaging.Engine.{Call, World}
use nxt_device_messaging.Engine.Incoming.{process_event}
use nxt_device_messaging.Engine.Outcomes.{Indexed, process_event-AtHome}
use nxt_device_messaging.Engine.Actions.{Surroundings}
use nxt_device_messaging.Engine.Runner.{tick}
use nxt_device_messaging.Engine.Runner.Drain.{tick-AtHome}
use nxt_device_messaging.Engine.Outgoing.{
  Sent, send_one_to_network_server, enqueue, cancel_one_by_correlation_id,
}
use nxt_device_messaging.Engine.Outgoing.Cancel.{
  send_one_to_network_server-Run, enqueue-Run, cancel_one_by_correlation_id-Run,
}
use nxt_device_messaging.Engine.Outgoing.Distribute.{distribute_to_network_servers}
use nxt_device_messaging.Engine.Outgoing.Distribute.Handover.{distribute_to_network_servers-AtHome}

-- What the engine does in one go.
pub data Acts (R : Redis) (reg : Registry) (config : DeliveryConfig)
    : World R → World R → Type 0 where
  ticks :
      (env : Surroundings) (pull_plugin_ids : List Text) (now : ℕ) (w : World R)
      → Acts R reg config w (tick R config reg env pull_plugin_ids now w)
  receives :
      (c : Call) (event : ParsedIncomingEvent) (plugin : DeliveryPlugin) (w : World R)
      → Indexed R reg config c event plugin w
      → Acts R reg config w (process_event R config c event plugin w).1
  distributes :
      (call_for : Text → Call) (w : World R)
      → Acts R reg config w (distribute_to_network_servers R config reg call_for w).1
  sends :
      (c : Call) (plugin : DeliveryPlugin) (m : DeviceMessage) (answer : Sent) (w : World R)
      → OwnedBy reg (R.view w.db) m.id plugin
      → Acts R reg config w (send_one_to_network_server R config reg c plugin m answer w)
  enqueues :
      (id : Text) (create : CreateDeviceMessage) (w : World R)
      → IsFresh id (R.view w.db)
      → (R.view w.db).hash (message_key id) ≡ none
      → Acts R reg config w (record w { db = (enqueue R config reg id create w.db).1 })
  cancels :
      (correlation_id : Text) (w : World R)
      → Acts R reg config w
          (record w { db = (cancel_one_by_correlation_id R config reg correlation_id w.db).1 })
  forgets :
      (w : World R) (db : R.Db)
      → Within (R.view db) (R.view w.db)
      → Acts R reg config w (record w { db = db })

pub data Runs (R : Redis) (reg : Registry) (config : DeliveryConfig) (start : World R)
    : World R → Type 0 where
  starts : Runs R reg config start start
  goes_on :
      {w w' : World R}
      → Runs R reg config start w
      → Acts R reg config w w'
      → Runs R reg config start w'

module _ (R : Redis) (reg : Registry) (config : DeliveryConfig) where
  expires-Run :
      (w : World R) (db : R.Db) → Within (R.view db) (R.view w.db) → Run R reg config w.db db
  expires-Run w db h = does R reg config (Reach.expires w.db db h) tt

  Acts-AtHome :
      {w w' : World R}
      → Acts R reg config w w'
      → AtHome reg (R.view w.db)
      → AtHome reg (R.view w'.db)
  Acts-AtHome (ticks env ids now w) a = tick-AtHome R reg config env ids now w a
  Acts-AtHome (receives c event plugin w owned) a =
      process_event-AtHome R reg config c event plugin w owned a
  Acts-AtHome (distributes call_for w) a =
      distribute_to_network_servers-AtHome R config reg call_for w a
  Acts-AtHome (sends c plugin m answer w owned) a =
      Run-AtHome R reg config a
        (send_one_to_network_server-Run R reg config c plugin m answer w owned)
  Acts-AtHome (enqueues id create w fresh new) a =
      Run-AtHome R reg config a (enqueue-Run R reg config id create w.db fresh new)
  Acts-AtHome (cancels correlation_id w) a =
      Run-AtHome R reg config a (cancel_one_by_correlation_id-Run R reg config correlation_id w.db)
  Acts-AtHome (forgets w db h) a = Run-AtHome R reg config a (expires-Run w db h)

  -- Whatever order of ticks, events, distributions, sends, enqueues, cancels and expiries the engine goes
  -- through, from a database in which every message is at home, a message whose hash names a delivery
  -- plugin is in no sorted set other than the one that its status, its device and its plugin name.
  -- Sends are made for the plugin that owns the message, enqueues under an id that occurs nowhere, and
  -- for an event of a plugin that is pushed to, the messages that the delivery index names are its own.
  pub Runs-AtHome :
      {w w' : World R}
      → AtHome reg (R.view w.db)
      → Runs R reg config w w'
      → AtHome reg (R.view w'.db)
  Runs-AtHome a starts = a
  Runs-AtHome a (goes_on r act) = Acts-AtHome act (Runs-AtHome a r)
