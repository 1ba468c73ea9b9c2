-- ===== src/Redis/Scripts/Strings.antt =====
-- fetch-next-message-in-queue.lua writes no string: the locks and the indexes stay as they are.
use nxt_device_messaging.Common.{
  Text, ◌≡◌, refl, ap, ◌∙◌, Bool-cases, inl, inr, Option, none, some, [], ◌∷◌,
}
use nxt_device_messaging.Redis.{MessageHash, Keyspace, zrem, apply_all, Redis, view-calls}
use nxt_device_messaging.Redis.Scripts.{
  FetchArgs, at_cap, popped, fetch_commands, claim_commands, fetch_if_exists, fetch_member,
  fetch_next_message_in_queue_and_move,
}

module _ (R : Redis) (a : FetchArgs) (db : R.Db) where
  open R use {view, call, view-call}

  popped-string : (id : Text) → (view (popped R a id db)).string ≡ (view db).string
  unfolding popped
  popped-string id =
      elim (Bool-cases (R.zcard_zero (call (zrem a.source_queue id) db) a.source_queue)) [
        | inl e ↦ rw (e, popped) (rw view-call (rw view-call refl))
        | inr e ↦ rw (e, popped) (rw view-call refl)
      ]

  claim-string :
      (key id : Text) (s : Keyspace) → (apply_all (claim_commands key id) s).string ≡ s.string
  claim-string [] id s = refl
  claim-string (x ∷ xs) id s = refl

  exists-string :
      (id : Text) (o : Option MessageHash)
      → (view (fetch_if_exists R a id o (popped R a id db)).1).string ≡ (view db).string
  unfolding fetch_if_exists
  exists-string id none = popped-string id
  exists-string id (some h) =
      ap (λ (s : Keyspace). s.string) (view-calls R (fetch_commands a id) (popped R a id db))
      ∙ (claim-string a.concurrency_set id _ ∙ popped-string id)

  member-string : (o : Option Text) → (view (fetch_member R a o db).1).string ≡ (view db).string
  unfolding fetch_member
  member-string none = rw view-call refl
  member-string (some id) = exists-string id _

  pub fetch-string :
      (view (fetch_next_message_in_queue_and_move R a db).1).string ≡ (view db).string
  unfolding fetch_next_message_in_queue_and_move
  fetch-string = elim (Bool-cases (at_cap R a db)) [
    | inl e ↦ rw (e, fetch_next_message_in_queue_and_move) refl
    | inr e ↦
        rw (e, fetch_next_message_in_queue_and_move) (member-string (R.first db a.source_queue))
  ]
