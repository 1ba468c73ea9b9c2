-- ===== src/Lifecycle/Home.antt =====
-- Where a message belongs: the one queue that its hash names, by its status and its owner. The
-- stages are derived from the status (src/engine/lifecycle/stages.ts), and the ready queue from the
-- plugin (initialQueueKey in src/plugins/plugin.interface.ts).

use nxt_device_messaging.Common.{
  ℕ, Text, text_discrete, ℤ, ◌≡◌, ◌≢◌, sym, ap, ◌∙◌, subst, Option, none, some, some_inj,
  Option-cases, inl, inr, pos, arith,
}
use nxt_device_messaging.Message.{DeliveryStatus, queued, Device}
use nxt_device_messaging.Plugin.{DeliveryPlugin, DeviceMessagingPlugin, delivery, token_only}
use nxt_device_messaging.Redis.{MessageHash, Keyspace, at, at_member}
use nxt_device_messaging.Redis.Keys.{message_key, message_key-injective}
use nxt_device_messaging.Lifecycle.Stages.{StageName, stages, stage_for_status, stage_key_for}

-- The registry's lookup by id.
abbrev pub Registry : Type 0
Registry = Text → Option DeviceMessagingPlugin

abbrev pub as_delivery : Option DeviceMessagingPlugin → Option DeliveryPlugin
as_delivery none = none
as_delivery (some (delivery p)) = some p
as_delivery (some (token_only id)) = none

abbrev owner_by_id : Registry → Option Text → Option DeliveryPlugin
owner_by_id reg none = none
owner_by_id reg (some id) = as_delivery (reg id)

-- The delivery plugin that the hash names.
abbrev pub owner : Registry → MessageHash → Option DeliveryPlugin
owner reg h = owner_by_id reg h.plugin_id

abbrev pub ready_queue : DeliveryPlugin → Option ℕ → Option Device → Option Text
ready_queue p network none = none
ready_queue p network (some d) = some (p.initial_queue_key network d)

abbrev pub stage_queue : DeliveryPlugin → Option StageName → Option Text
stage_queue p none = none
stage_queue p (some st) = some (stage_key_for (stages st) p.id)

abbrev pub home_of : DeliveryPlugin → Option ℕ → Option Device → Option DeliveryStatus → Option Text
home_of p network d none = none
home_of p network d (some queued) = ready_queue p network d
home_of p network d (some status) = stage_queue p (stage_for_status status p.delivery_pattern)

-- The queue of a message: the ready queue while it is queued, the stage queue of its status while
-- it waits in a stage, and none once it has its outcome.
abbrev pub home : DeliveryPlugin → MessageHash → Option Text
home p h = home_of p h.network_id h.device h.delivery_status

-- Every message whose hash is there sits in no queue but its own.
pub record AtHome (reg : Registry) (s : Keyspace) : Type 0 where
  pub member :
      (id queue : Text) (h : MessageHash) (p : DeliveryPlugin) (score : ℤ)
      → s.hash (message_key id) ≡ some h
      → owner reg h ≡ some p
      → s.zset queue id ≡ some score
      → home p h ≡ some queue

-- The registry gives a plugin under the id that the plugin has.
abbrev pub IsKeyed : Registry → Type 0
IsKeyed reg = (id : Text) (p : DeliveryPlugin) → reg id ≡ some (delivery p) → p.id ≡ id

-- The delivery plugin that owns the message, if its hash names one, is this one.
abbrev pub OwnedBy : Registry → Keyspace → Text → DeliveryPlugin → Type 0
OwnedBy reg s id plugin =
    (h : MessageHash) (p : DeliveryPlugin)
    → s.hash (message_key id) ≡ some h
    → owner reg h ≡ some p
    → p ≡ plugin

-- The id has left `source`, it may be in `destination`, no other member has appeared anywhere, and
-- of the message hashes only its own has changed, to `h'`.
pub record Relocated (id source destination : Text) (h' : MessageHash) (s s' : Keyspace)
    : Type 0 where
  pub zsets :
      (q i : Text) (score : ℤ)
      → s'.zset q i ≡ some score
      → at_member (at_member s.zset source id none) destination id (some (pos 0)) q i ≢ none
  pub hashes :
      (i : Text) → s'.hash (message_key i) ≡ at s.hash (message_key id) (some h') (message_key i)

module _ {s s' : Keyspace} {id source destination : Text} {h' : MessageHash}
    (r : Relocated id source destination h' s s') where
  other_hash : (i : Text) → i ≢ id → s'.hash (message_key i) ≡ s.hash (message_key i)
  other_hash i ne = ground (arith, r.hashes i, message_key-injective i id)

  other_zset : (q i : Text) (score : ℤ) → i ≢ id → s'.zset q i ≡ some score → s.zset q i ≢ none
  other_zset q i score ne e = ground (arith, r.zsets q i score e)

  own_hash : s'.hash (message_key id) ≡ some h'
  own_hash = ground (arith, r.hashes id)

  own_zset :
      (q : Text) (score : ℤ)
      → s'.zset q id ≡ some score
      → q ≢ destination
      → (q ≢ source) × (s.zset q id ≢ none)
  own_zset q score e ne = ground (arith, r.zsets q id score e)

  -- It is enough to look at the message that moved.
  pub from_own :
      (reg : Registry)
      → AtHome reg s
      → ((q : Text) (p : DeliveryPlugin) (score : ℤ)
          → owner reg h' ≡ some p
          → s'.zset q id ≡ some score
          → home p h' ≡ some q)
      → AtHome reg s'
  from_own reg a own_at = record {
    member = λ i q g p score hg own z. elim (text_discrete i id) [
      | yes e ↦
          let same : h' ≡ g =
            some_inj (sym own_hash ∙ (ap (λ (j : Text). s'.hash (message_key j)) (sym e) ∙ hg)) in
          subst (λ (x : MessageHash). home p x ≡ some q) same
            (own_at q p score (subst (λ (x : MessageHash). owner reg x ≡ some p) (sym same) own)
              (subst (λ (j : Text). s'.zset q j ≡ some score) e z))
      | no ne ↦ elim (Option-cases (s.zset q i)) [
        | inl absent ↦ absurd (other_zset q i score ne z absent)
        | inr (earlier, f) ↦ a.member i q g p earlier (sym (other_hash i ne) ∙ hg) own f
      ]
    ];
  }

  module _ (reg : Registry) (h : MessageHash) (old : ℤ) (found : s.hash (message_key id) ≡ some h)
      (placed : s.zset source id ≡ some old) (same : h'.plugin_id ≡ h.plugin_id)
      (a : AtHome reg s) where
    own_member :
        (q : Text) (p : DeliveryPlugin) (score : ℤ)
        → (owner reg h ≡ some p → home p h' ≡ some destination)
        → owner reg h' ≡ some p
        → s'.zset q id ≡ some score
        → home p h' ≡ some q
    own_member q p score new own z = elim (text_discrete q destination) [
      | yes e ↦ rw e (new (rw (← same) own))
      | no ne ↦
          let (apart, before) = own_zset q score z ne in
          let there : home p h ≡ some source =
            a.member id source h p old found (rw (← same) own) placed in
          elim (Option-cases (s.zset q id)) [
            | inl absent ↦ absurd (before absent)
            | inr (earlier, e) ↦ absurd (
                apart
                  (some_inj (sym (a.member id q h p earlier found (rw (← same) own) e) ∙ there)))
          ]
    ]

    -- A message that leaves its queue for the queue that its new hash names stays at home.
    pub Relocated-AtHome :
        ((p : DeliveryPlugin) → owner reg h ≡ some p → home p h' ≡ some destination) → AtHome reg s'
    Relocated-AtHome new = from_own reg a (λ q p score own z. own_member q p score (new p) own z)

  -- A hash that names no delivery plugin has no home to be away from.
  pub Relocated-AtHome_unowned :
      (reg : Registry) → owner reg h' ≡ none → AtHome reg s → AtHome reg s'
  Relocated-AtHome_unowned reg e a = from_own reg a (λ q p score own z. cc (e, own))
