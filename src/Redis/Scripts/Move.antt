-- ===== src/Redis/Scripts/Move.antt =====
-- What move-message-between-queues.lua does, read off the keyspace.
use nxt_device_messaging.Common.{
  Text, ◌≢◌, ◌↔◌, ◌⊎◌, arith, ℤ, ◌≡◌, refl, sym, ◌∙◌, ap, Bool, true, false, Option, none, some,
}
use nxt_device_messaging.Redis.{MessageHash, Keyspace, zrem, Redis, view-calls, apply, apply_all}
use nxt_device_messaging.Redis.Scripts.{
  MoveArgs, move_commands, move_if_present, move_message_between_queues,
}

-- The member is out of the source queue, and nothing else has changed.
abbrev pub dropped : MoveArgs → Keyspace → Keyspace
dropped a s = apply (zrem a.source_queue a.message_id) s

abbrev pub moved : MoveArgs → Keyspace → Keyspace
moved a s = apply_all (move_commands a) (dropped a s)

-- The three ways in which the script ends.
pub data MoveOutcome (a : MoveArgs) (s s' : Keyspace) (answer : Bool) : Type 0 where
  missed :
      s.zset a.source_queue a.message_id ≡ none
      → answer ≡ false
      → s' ≡ dropped a s
      → MoveOutcome a s s' answer
  orphan :
      (score : ℤ)
      → s.zset a.source_queue a.message_id ≡ some score
      → s.hash a.message_key ≡ none
      → answer ≡ false
      → s' ≡ dropped a s
      → MoveOutcome a s s' answer
  committed :
      (score : ℤ) (h : MessageHash)
      → s.zset a.source_queue a.message_id ≡ some score
      → s.hash a.message_key ≡ some h
      → answer ≡ true
      → s' ≡ moved a s
      → MoveOutcome a s s' answer

module _ (R : Redis) (a : MoveArgs) (db : R.Db) where
  open R use {view, call, view-call}

  move_if_present-MoveOutcome :
      (o : Option ℤ) (h : Option MessageHash) (after : R.Db)
      → (view db).zset a.source_queue a.message_id ≡ o
      → (view db).hash a.message_key ≡ h
      → view after ≡ dropped a (view db)
      → MoveOutcome a
          (view db)
          (view (move_if_present R a o h after).1)
          (move_if_present R a o h after).0
  unfolding move_if_present
  move_if_present-MoveOutcome none h after e f v = missed e refl v
  move_if_present-MoveOutcome (some score) none after e f v = orphan score e f refl v
  move_if_present-MoveOutcome (some score) (some h) after e f v =
      committed score h e f refl
        (view-calls R (move_commands a) after ∙ ap (apply_all (move_commands a)) v)

  -- The script ends in one of the three ways, and its answer says whether it moved the message.
  pub move-MoveOutcome :
      MoveOutcome a
        (view db)
        (view (move_message_between_queues R a db).1)
        (move_message_between_queues R a db).0
  unfolding move_message_between_queues
  move-MoveOutcome =
      move_if_present-MoveOutcome ((view db).zset a.source_queue a.message_id)
        ((view (call (zrem a.source_queue a.message_id) db)).hash a.message_key)
        (call (zrem a.source_queue a.message_id) db) refl
        (ap (λ (s : Keyspace). s.hash a.message_key)
          (sym (view-call (zrem a.source_queue a.message_id) db)))
        (view-call (zrem a.source_queue a.message_id) db)

-- A changed hash was there, and a hash that was there stays.
merged_keeps :
    (a : MoveArgs) (s : Keyspace) (h : MessageHash) (k : Text)
    → s.hash a.message_key ≡ some h
    → ((moved a s).hash k ≡ none) ↔ (s.hash k ≡ none)
merged_keeps a s h k e = ground arith

answers :
    (a : MoveArgs) (s s' : Keyspace) (answer : Bool)
    → MoveOutcome a s s' answer
    → ((answer ≡ true)
        ↔ ((s.zset a.source_queue a.message_id ≢ none) × (s.hash a.message_key ≢ none)))
      × ((k : Text) → (s'.hash k ≡ none) ↔ (s.hash k ≡ none))
      × ((s'.zset a.source_queue a.message_id ≡ none) ⊎ (a.source_queue ≡ a.destination_queue))
answers a s s' answer (missed e r v) = (
  ground arith,
  (λ k. ground (arith, ap (λ (j : Keyspace). j.hash k) v)),
  ground (arith, ap (λ (j : Keyspace). j.zset a.source_queue a.message_id) v),
)
answers a s s' answer (orphan score e f r v) = (
  ground arith,
  (λ k. ground (arith, ap (λ (j : Keyspace). j.hash k) v)),
  ground (arith, ap (λ (j : Keyspace). j.zset a.source_queue a.message_id) v),
)
answers a s s' answer (committed score h e f r v) = (
  ground arith,
  (λ k. ground (arith, merged_keeps a s h k f, ap (λ (j : Keyspace). j.hash k) v)),
  ground (arith, ap (λ (j : Keyspace). j.zset a.source_queue a.message_id) v),
)

-- The script answers 1 exactly when the member is in the source queue and the message hash is there.
-- Whatever it answers, no hash appears and none goes, and the member is out of the source queue
-- unless source and destination are one queue.
pub move_message_between_queues_lem :
    (R : Redis) (a : MoveArgs) (db : R.Db)
    → (((move_message_between_queues R a db).0 ≡ true) ↔ (
        ((R.view db).zset a.source_queue a.message_id ≢ none)
        × ((R.view db).hash a.message_key ≢ none)))
      × ((k : Text)
          → ((R.view (move_message_between_queues R a db).1).hash k ≡ none)
            ↔ ((R.view db).hash k ≡ none))
      × (((R.view (move_message_between_queues R a db).1).zset a.source_queue a.message_id ≡ none)
          ⊎ (a.source_queue ≡ a.destination_queue))
move_message_between_queues_lem R a db = answers a (R.view db) _ _ (move-MoveOutcome R a db)
