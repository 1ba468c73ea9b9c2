-- ===== src/Examples/OfProtocol.antt =====
-- The protocol along the pipeline of Examples/OfMoves.
use nxt_device_messaging.Common.{Text, txt, ◌≡◌, ◌≢◌, subst, some, arith}
use nxt_device_messaging.Plugin.{DeliveryPlugin, delivery}
use nxt_device_messaging.Redis.Memory.{memory}
use nxt_device_messaging.Redis.Keys.{queue_awaiting_task}
use nxt_device_messaging.Lifecycle.Stages.{
  StageName, stages, stage_key_for, queue_ns_key, queue_relay_node_key, queue_device_key,
  queue_retry_key,
}
use nxt_device_messaging.Lifecycle.Stages.Keys.{IsStageKey}
use nxt_device_messaging.Lifecycle.Protocol.{IsApart, Follows}
use nxt_device_messaging.Lifecycle.Protocol.Refines.{Reach-Follows}
use nxt_device_messaging.Examples.Fixtures.{acme, one_plugin, config}
use nxt_device_messaging.Examples.OfMoves.{nothing-AtHome, advanced}

one_plugin-entry : (id : Text) (p : DeliveryPlugin) → one_plugin id ≡ some (delivery p) → p ≡ acme
one_plugin-entry id p e = ground arith

q_apart : (st : StageName) (k : Text) → txt "q" ≢ stage_key_for (stages st) k
unfolding stage_key_for queue_ns_key queue_relay_node_key queue_device_key queue_retry_key
    queue_awaiting_task
q_apart st k e = ground arith

pub one_plugin-IsApart : IsApart one_plugin
one_plugin-IsApart id p network d st k e f = q_apart st k (
    subst (λ (x : DeliveryPlugin). x.initial_queue_key network d ≡ stage_key_for (stages st) k)
      (one_plugin-entry id p e) f)

q_ready : IsStageKey (txt "q") → ⊥
q_ready (st, k, e) = q_apart st k e

Reach-Follows_example : Follows (txt "a") advanced
Reach-Follows_example =
    Reach-Follows memory one_plugin config one_plugin-IsApart nothing-AtHome advanced
      (((tt, tt), q_ready), tt) (txt "a")
