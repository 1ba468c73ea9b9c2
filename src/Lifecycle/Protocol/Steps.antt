-- ===== src/Lifecycle/Protocol/Steps.antt =====
-- Each move of src/engine/lifecycle/moves.ts takes a message along an edge and leaves the others.
use nxt_device_messaging.Common.{
  ℕ, Text, text_discrete, ℤ, ◌≡◌, refl, sym, ap, ◌∙◌, subst, Bool, true, false, Option, none, some,
  Option-cases, inl, inr, arith,
}
use nxt_device_messaging.Message.{DeliveryStatus, queued, to_retry, sent_to_ns, CreateDeviceMessage}
use nxt_device_messaging.Plugin.{DeliveryPlugin, DeliveryConfig, delivery}
use nxt_device_messaging.Redis.{MessageHash, Keyspace, Redis, view-calls, merge, sadd}
use nxt_device_messaging.Redis.Keys.{message_key, message_key-injective, list_of_initial_queues}
use nxt_device_messaging.Redis.Scripts.{MoveArgs, status_fields}
use nxt_device_messaging.Redis.Scripts.Move.{
  MoveOutcome, missed, orphan, committed, move-MoveOutcome,
}
use nxt_device_messaging.Redis.Scripts.Fetch.{
  FetchOutcome, refused, picked, picked_hash, fetch-FetchOutcome,
}
use nxt_device_messaging.Redis.StageStore.{requeue_message, requeue_args, note_queue}
use nxt_device_messaging.Redis.MessageStore.{enqueue_device_message}
use nxt_device_messaging.Lifecycle.Stages.{
  StageName, retry, stages, next_stage, stage_key_for, queue_ns_key, queue_retry_key,
}
use nxt_device_messaging.Lifecycle.Home.{Registry, owner, OwnedBy, AtHome, Relocated}
use nxt_device_messaging.Lifecycle.Moves.{
  Instant, ConcurrencyRateLimit, AdvanceArgs, EnterRetryArgs, pick_into_ns, pick_args, advance,
  advance_args, enter_retry, enter_if_placed, requeue, due_at, stale_index, held_slot,
}
use nxt_device_messaging.Lifecycle.Moves.Invariant.{moved-Relocated, status_fields-plugin}
use nxt_device_messaging.Lifecycle.Moves.Retry.{
  enter_retry-Relocated, retried, retried-plugin, retried-unowned, retried-status,
}
use nxt_device_messaging.Lifecycle.Moves.Entry.{IsFresh, enqueue-Relocated}
use nxt_device_messaging.Lifecycle.Stages.Keys.{IsStageKey}
use nxt_device_messaging.Lifecycle.Protocol.{
  Standing, absent, stands, standing_under, standing_of, standing, Edge, stays, enters, is_sent,
  goes_on, fails, is_tried_again, IsApart, Action, enqueuing, advancing, picking, retrying,
  requeuing,
}
use nxt_device_messaging.Lifecycle.Protocol.Sources.{
  stage_key_for-injective, stage_for_status-retry, InStage, outside-queued, inside-InStage,
}

-- Every message has moved along an edge of this action, or has not moved.
abbrev pub Moves : Action → Registry → Keyspace → Keyspace → Type 0
Moves action reg s s' = (i : Text) → Edge action (standing reg s i) (standing reg s' i)

same_hash :
    (action : Action) (reg : Registry) {o o' : Option MessageHash}
    → o' ≡ o
    → Edge action (standing_of reg o) (standing_of reg o')
same_hash action reg {o} e =
    subst (λ (x : Option MessageHash). Edge action (standing_of reg o) (standing_of reg x)) (sym e)
      (stays action (standing_of reg o))

module _ (action : Action) (reg : Registry) (s s' : Keyspace) where
  -- Message hashes that stay leave every message where it stands.
  pub same-Moves :
      ((i : Text) → s'.hash (message_key i) ≡ s.hash (message_key i)) → Moves action reg s s'
  same-Moves same i = same_hash action reg (same i)

  -- Hashes that only go take their messages with them.
  pub kept-Moves :
      ((x : Standing) → Edge action x absent)
      → ((i : Text) (h : MessageHash)
          → s'.hash (message_key i) ≡ some h
          → s.hash (message_key i) ≡ some h)
      → Moves action reg s s'
  kept-Moves leaves kept i = elim (Option-cases (s'.hash (message_key i))) [
    | inl e ↦ rw e (leaves _)
    | inr (h, e) ↦ same_hash action reg (e ∙ sym (kept i h e))
  ]

  pub Relocated-Moves :
      {id source destination : Text} {h' : MessageHash}
      → Relocated id source destination h' s s'
      → Edge action (standing reg s id) (standing_of reg (some h'))
      → Moves action reg s s'
  Relocated-Moves {id} {h' = h'} r own i = elim (text_discrete i id) [
    | yes e ↦
        let there : s'.hash (message_key i) ≡ some h' = ground (arith, r.hashes i) in
        rw (there, e) own
    | no ne ↦ same_hash action reg (ground (arith, r.hashes i, message_key-injective i id))
  ]

retry_key : (k : Text) → queue_retry_key ≡ stage_key_for (stages retry) k
unfolding stage_key_for
retry_key k = refl

-- A hash that keeps its plugin moves as its status does.
changed :
    (action : Action) (reg : Registry) (h h' : MessageHash) (o' : Option DeliveryStatus)
    → h'.plugin_id ≡ h.plugin_id
    → h'.delivery_status ≡ o'
    → ((p : DeliveryPlugin)
        → owner reg h ≡ some p
        → Edge action (stands p h.delivery_status) (stands p o'))
    → Edge action (standing_of reg (some h)) (standing_of reg (some h'))
changed action reg h h' o' same status move = elim (Option-cases (owner reg h)) [
  | inl e ↦ rw (same, e) (stays action absent)
  | inr (p, e) ↦ rw (same, e, status) (move p e)
]

module _ (action : Action) (reg : Registry) (a : MoveArgs) (s : Keyspace) where
  -- A move between queues, by what it does to the message that it finds.
  MoveOutcome-Moves :
      (s' : Keyspace) (answer : Bool)
      → a.message_key ≡ message_key a.message_id
      → ((h : MessageHash) (p : DeliveryPlugin) (score : ℤ)
          → s.hash (message_key a.message_id) ≡ some h
          → owner reg h ≡ some p
          → s.zset a.source_queue a.message_id ≡ some score
          → Edge action (stands p h.delivery_status) (stands p (some a.delivery_status)))
      → MoveOutcome a s s' answer
      → Moves action reg s s'
  MoveOutcome-Moves s' answer k move (missed e r v) = rw v (same-Moves action reg s s (λ i. refl))
  MoveOutcome-Moves s' answer k move (orphan score e f r v) =
      rw v (same-Moves action reg s s (λ i. refl))
  MoveOutcome-Moves s' answer k move (committed score h e f r v) =
      let found : s.hash (message_key a.message_id) ≡ some h = sym (ap s.hash k) ∙ f in
      rw v (
        Relocated-Moves action reg _ _ (moved-Relocated reg a s h k f) (
          rw found (
            changed action reg h (merge (status_fields a.delivery_status a.delivery_queue_id) h)
              (some a.delivery_status) (status_fields-plugin reg a s h) (ground arith)
              (λ p own. move h p score found own e))))

-- A failed attempt, by what it does to the message that it finds.
retried-Edge :
    (reg : Registry) (x : EnterRetryArgs) (due : ℕ) (stale slot : Option Text) (s : Keyspace)
    (o : Option MessageHash)
    → s.hash (message_key x.message_id) ≡ o
    → ((h : MessageHash) (p : DeliveryPlugin)
        → s.hash (message_key x.message_id) ≡ some h
        → owner reg h ≡ some p
        → Edge retrying (stands p h.delivery_status) (stands p (some to_retry)))
    → Edge retrying
        (standing reg s x.message_id)
        (standing_of reg (some (retried x due stale slot s)))
retried-Edge reg x due stale slot s none e move =
    subst
      (λ (o : Option MessageHash).
        Edge retrying (standing_of reg o) (standing_of reg (some (retried x due stale slot s))))
      (sym e)
      (subst
        (λ (o : Option DeliveryPlugin).
          Edge retrying absent (standing_under o (retried x due stale slot s).delivery_status))
        (sym (retried-unowned x due stale slot s reg e)) (stays retrying absent))
retried-Edge reg x due stale slot s (some h) e move =
    subst
      (λ (o : Option MessageHash).
        Edge retrying (standing_of reg o) (standing_of reg (some (retried x due stale slot s))))
      (sym e)
      (changed retrying reg h (retried x due stale slot s) (some to_retry)
        (retried-plugin x due stale slot s h e) (retried-status x due stale slot s)
        (λ p own. move h p e own))

module _ (R : Redis) (reg : Registry) (config : DeliveryConfig) (db : R.Db) (apart : IsApart reg)
    (a : AtHome reg (R.view db)) where
  open R use {view, view-call}

  at_stage :
      (id q : Text) (h : MessageHash) (p : DeliveryPlugin) (score : ℤ)
      → (view db).hash (message_key id) ≡ some h
      → owner reg h ≡ some p
      → (view db).zset q id ≡ some score
      → IsStageKey q
      → InStage p h.delivery_status q
  at_stage id q h p score found own placed =
      inside-InStage reg apart (view db) a id q h p score found own placed

  advanced-Edge :
      (x : AdvanceArgs) (target : StageName)
      → next_stage x.plugin.delivery_pattern x.from ≡ some target
      → OwnedBy reg (view db) x.message_id x.plugin
      → (h : MessageHash) (p : DeliveryPlugin) (score : ℤ)
      → (view db).hash (message_key x.message_id) ≡ some h
      → owner reg h ≡ some p
      → (view db).zset (stage_key_for (stages x.from) x.plugin.id) x.message_id ≡ some score
      → Edge
          (advancing x.from)
          (stands p h.delivery_status)
          (stands p (some (stages target).entry_status))
  advanced-Edge x target e owned h p score found own placed =
      let here = at_stage x.message_id _ h p score found own placed (x.from, x.plugin.id, refl) in
      let same : p ≡ x.plugin = owned h p found own in
      let stage : here.stage ≡ x.from =
        stage_key_for-injective here.stage x.from p.id
          (here.key ∙ ap (λ (y : DeliveryPlugin). stage_key_for (stages x.from) y.id) (sym same)) in
      rw here.has_status (
        goes_on p here.status x.from target (here.has_stage ∙ ap some stage)
          (ap (λ (y : DeliveryPlugin). next_stage y.delivery_pattern x.from) same ∙ e))

  pub advance-Moves :
      (t : Instant) (x : AdvanceArgs)
      → OwnedBy reg (view db) x.message_id x.plugin
      → Moves (advancing x.from) reg (view db) (view (advance R config t x db).1)
  unfolding advance
  advance-Moves t x owned = elim (Option-cases (next_stage x.plugin.delivery_pattern x.from)) [
    | inl e ↦ rw (e, advance) (same-Moves (advancing x.from) reg (view db) (view db) (λ i. refl))
    | inr (target, e) ↦
        rw (e, advance)
          (MoveOutcome-Moves (advancing x.from) reg (advance_args config t x target) (view db) _ _
            refl (advanced-Edge x target e owned)
            (move-MoveOutcome R (advance_args config t x target) db))
  ]

  requeued-Edge :
      (id : Text) (h : MessageHash) (p : DeliveryPlugin) (score : ℤ)
      → (view db).hash (message_key id) ≡ some h
      → owner reg h ≡ some p
      → (view db).zset queue_retry_key id ≡ some score
      → Edge requeuing (stands p h.delivery_status) (stands p (some queued))
  requeued-Edge id h p score found own placed =
      let here =
        at_stage id queue_retry_key h p score found own placed (retry, p.id, retry_key p.id) in
      let stage : here.stage ≡ retry =
        stage_key_for-injective here.stage retry p.id (here.key ∙ retry_key p.id) in
      rw here.has_status (
        rw (stage_for_status-retry here.status p (here.has_stage ∙ ap some stage))
          (is_tried_again p))

  note_queue-Moves :
      (queue : Text) (answer : Bool) (after : R.Db)
      → Moves requeuing reg (view db) (view after)
      → Moves requeuing reg (view db) (view (note_queue R queue (answer, after)).1)
  note_queue-Moves queue true after m = rw (view-call (sadd list_of_initial_queues queue) after) m
  note_queue-Moves queue false after m = m

  pub requeue-Moves :
      (id from_key to_key : Text) (priority : ℤ)
      → from_key ≡ queue_retry_key
      → Moves requeuing reg (view db) (view (requeue R config id from_key to_key priority db).1)
  unfolding requeue requeue_message
  requeue-Moves id from_key to_key priority e =
      let x = requeue_args id from_key to_key priority in
      note_queue-Moves to_key _ _ (
        MoveOutcome-Moves requeuing reg x (view db) _ _ refl
          (λ h p score found own placed.
            requeued-Edge id h p score found own
              (subst (λ (q : Text). (view db).zset q id ≡ some score) e placed))
          (move-MoveOutcome R x db))

  FetchOutcome-Moves :
      (t : Instant) (queue : Text) (plugin : DeliveryPlugin) (limit : Option ConcurrencyRateLimit)
      (s' : Keyspace) (answer : Option (Text × MessageHash))
      → (IsStageKey queue → ⊥)
      → FetchOutcome (pick_args config t queue plugin limit) (view db) s' answer
      → Moves picking reg (view db) s'
  FetchOutcome-Moves t queue plugin limit s' answer outside (refused e hashes zsets) =
      same-Moves picking reg (view db) s'
        (λ i. ap (λ (g : Text → Option MessageHash). g (message_key i)) hashes)
  FetchOutcome-Moves t queue plugin limit s' answer outside
        (picked id score h placed found e zsets hashes) =
      Relocated-Moves picking reg (view db) s' {source = queue} {destination = queue_ns_key}
        (record {
          zsets = λ q i sc z. ground (arith, ap (λ (f : Text → Text → Option ℤ). f q i) zsets);
          hashes = λ i. hashes (message_key i);
        })
        (rw found (
          changed picking reg h (picked_hash (pick_args config t queue plugin limit) h)
            (some sent_to_ns) (ground arith) (ground arith)
            (λ p own.
              rw (outside-queued reg apart (view db) a id queue h p score found own placed outside)
                (is_sent p))))

  pub pick_into_ns-Moves :
      (t : Instant) (queue : Text) (plugin : DeliveryPlugin) (limit : Option ConcurrencyRateLimit)
      → (IsStageKey queue → ⊥)
      → Moves picking reg (view db) (view (pick_into_ns R config t queue plugin limit db).1)
  unfolding pick_into_ns
  pick_into_ns-Moves t queue plugin limit outside =
      FetchOutcome-Moves t queue plugin limit _ _ outside
        (fetch-FetchOutcome R (pick_args config t queue plugin limit) db)

  enter_if_placed-Moves :
      (t : Instant) (x : EnterRetryArgs) (o : Option ℤ)
      → (view db).zset x.from_key x.message_id ≡ o
      → IsStageKey x.from_key
      → Moves retrying reg (view db) (view (enter_if_placed R config t x o db).1)
  unfolding enter_if_placed
  enter_if_placed-Moves t x none e staged = same-Moves retrying reg (view db) (view db) (λ i. refl)
  enter_if_placed-Moves t x (some score) e staged = rw view-calls (
      Relocated-Moves retrying reg _ _ (enter_retry-Relocated x _ _ _ (view db)) (
        retried-Edge reg x (due_at config t retry x.plugin x.current_retry_count)
          (stale_index ((view db).hash (message_key x.message_id)))
          (held_slot ((view db).hash (message_key x.message_id))) (view db)
          ((view db).hash (message_key x.message_id)) refl
          (λ h p f own.
            let here = at_stage x.message_id x.from_key h p score f own e staged in
            rw here.has_status (fails p here.status here.stage here.has_stage))))

  pub enter_retry-Moves :
      (t : Instant) (x : EnterRetryArgs)
      → IsStageKey x.from_key
      → Moves retrying reg (view db) (view (enter_retry R config t x db).1)
  unfolding enter_retry
  enter_retry-Moves t x staged =
      enter_if_placed-Moves t x ((view db).zset x.from_key x.message_id) refl staged

  pub enqueue-Moves :
      (id : Text) (dto : CreateDeviceMessage) (plugin : DeliveryPlugin)
      → IsFresh id (view db)
      → (view db).hash (message_key id) ≡ none
      → reg dto.plugin_id ≡ some (delivery plugin)
      → Moves (enqueuing plugin) reg (view db) (
          view
            (enqueue_device_message R id dto
              (plugin.initial_queue_key dto.network_id dto.device)
              config.message_ttl_seconds
              db).1)
  unfolding enqueue_device_message
  enqueue-Moves id dto plugin fresh new owned = rw view-calls (
      Relocated-Moves (enqueuing plugin) reg _ _
        (enqueue-Relocated id dto (plugin.initial_queue_key dto.network_id dto.device)
          config.message_ttl_seconds (view db) fresh new)
        (rw (new, owned) (enters plugin)))
