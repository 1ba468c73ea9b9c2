-- ===== src/Redis/Scripts/Fetch.antt =====
-- What fetch-next-message-in-queue.lua does: the cap, the pop, and the claim of a slot.
use nxt_device_messaging.Common.{
  ℕ, ◌+◌, ◌≤◌, ◌<◌, Text, text_discrete, ℤ, ◌≡◌, refl, sym, ap, subst, ite, ◌∙◌, inl, inr, false,
  Bool-cases, Option, none, some, List, [], ◌∷◌, arith,
}
use nxt_device_messaging.Redis.{
  MessageHash, no_fields, Keyspace, Command, zadd, zadd_xx, zrem, hset, hdel, expire, sadd, srem,
  set_ex, set_px_nx, del, apply, apply_all, merge, at_member, at, IsFirst, scard_after, Redis,
  calls, view-calls,
}
use nxt_device_messaging.Redis.Keys.{message_key}
use nxt_device_messaging.Redis.Scripts.{
  FetchArgs, at_cap, popped, fetch_commands, fetch_if_exists, fetch_member, claim_commands, with_id,
  status_fields, fetch_next_message_in_queue_and_move,
}

-- The hash of the picked message: the new status, and the slot's key if a slot was claimed.
abbrev pub claimed : Text → MessageHash → MessageHash
claimed [] h = h
claimed (x ∷ xs) h = merge (record no_fields { concurrency_rate_limit_key = some (x ∷ xs) }) h

abbrev pub picked_hash : FetchArgs → MessageHash → MessageHash
picked_hash a h = claimed a.concurrency_set (merge (status_fields a.new_status []) h)

-- Either nothing was picked, and then at most a member has left the source and no hash has changed;
-- or the member that ZPOPMIN found went to the destination.
pub data FetchOutcome (a : FetchArgs) (s s' : Keyspace) (answer : Option (Text × MessageHash))
    : Type 0 where
  refused :
      answer ≡ none
      → s'.hash ≡ s.hash
      → ((q i : Text) (score : ℤ) → s'.zset q i ≡ some score → s.zset q i ≡ some score)
      → FetchOutcome a s s' answer
  picked :
      (id : Text) (score : ℤ) (h : MessageHash)
      → s.zset a.source_queue id ≡ some score
      → s.hash (message_key id) ≡ some h
      → answer ≡ some (id, picked_hash a h)
      → s'.zset
        ≡ at_member
            (at_member s.zset a.source_queue id none)
            a.destination_queue
            id
            (some a.timeout_at)
      → ((k : Text) → s'.hash k ≡ at s.hash (message_key id) (some (picked_hash a h)) k)
      → FetchOutcome a s s' answer

claim-zset : (key id : Text) (s : Keyspace) → (apply_all (claim_commands key id) s).zset ≡ s.zset
claim-zset [] id s = refl
claim-zset (x ∷ xs) id s = refl

claim-hash :
    (key id : Text) (s : Keyspace) (h : MessageHash) (k : Text)
    → s.hash (message_key id) ≡ some h
    → (apply_all (claim_commands key id) s).hash k
      ≡ at s.hash (message_key id) (some (claimed key h)) k
claim-hash [] id s h k e = ground arith
claim-hash (x ∷ xs) id s h k e = ground arith

module _ (R : Redis) (a : FetchArgs) (db : R.Db) where
  open R use {view, call, view-call}

  popped-zset :
      (id : Text) → (view (popped R a id db)).zset ≡ at_member (view db).zset a.source_queue id none
  unfolding popped
  popped-zset id =
      elim (Bool-cases (R.zcard_zero (call (zrem a.source_queue id) db) a.source_queue)) [
        | inl e ↦ rw (e, popped) (rw view-call (rw view-call refl))
        | inr e ↦ rw (e, popped) (rw view-call refl)
      ]

  popped-hash : (id : Text) → (view (popped R a id db)).hash ≡ (view db).hash
  unfolding popped
  popped-hash id =
      elim (Bool-cases (R.zcard_zero (call (zrem a.source_queue id) db) a.source_queue)) [
        | inl e ↦ rw (e, popped) (rw view-call (rw view-call refl))
        | inr e ↦ rw (e, popped) (rw view-call refl)
      ]

  module _ (id : Text) (score : ℤ) (placed : (view db).zset a.source_queue id ≡ some score) where
    abbrev done : R.Db
    done = calls R (fetch_commands a id) (popped R a id db)

    abbrev middle : Keyspace
    middle =
        apply (hset (message_key id) (status_fields a.new_status []))
          (apply (zadd a.destination_queue a.timeout_at id) (view (popped R a id db)))

    done-view : view done ≡ apply_all (claim_commands a.concurrency_set id) middle
    done-view = view-calls R (fetch_commands a id) (popped R a id db)

    done-zset :
        (view done).zset
        ≡ at_member
            (at_member (view db).zset a.source_queue id none)
            a.destination_queue
            id
            (some a.timeout_at)
    done-zset =
        ap (λ (s : Keyspace). s.zset) done-view
        ∙ (claim-zset a.concurrency_set id middle
            ∙ ap
                (λ (f : Text → Text → Option ℤ).
                  at_member f a.destination_queue id (some a.timeout_at))
                (popped-zset id))

    middle-own :
        (h : MessageHash)
        → (view db).hash (message_key id) ≡ some h
        → middle.hash (message_key id) ≡ some (merge (status_fields a.new_status []) h)
    middle-own h e =
        ground (arith, ap (λ (f : Text → Option MessageHash). f (message_key id)) (popped-hash id))

    done-hash :
        (h : MessageHash) (k : Text)
        → (view db).hash (message_key id) ≡ some h
        → (view done).hash k ≡ at (view db).hash (message_key id) (some (picked_hash a h)) k
    done-hash h k e =
        ap (λ (s : Keyspace). s.hash k) done-view
        ∙ (claim-hash a.concurrency_set id middle (merge (status_fields a.new_status []) h) k
              (middle-own h e)
            ∙ ground (arith, ap (λ (f : Text → Option MessageHash). f k) (popped-hash id)))

    done-own :
        (h : MessageHash)
        → (view db).hash (message_key id) ≡ some h
        → (view done).hash (message_key id) ≡ some (picked_hash a h)
    done-own h e = ground (arith, done-hash h (message_key id) e)

    fetch_if_exists-FetchOutcome :
        (o : Option MessageHash)
        → (view db).hash (message_key id) ≡ o
        → FetchOutcome a
            (view db)
            (view (fetch_if_exists R a id o (popped R a id db)).1)
            (fetch_if_exists R a id o (popped R a id db)).0
    unfolding fetch_if_exists
    fetch_if_exists-FetchOutcome none e =
        refused refl (popped-hash id)
          (λ q i s z. ground (arith, ap (λ (f : Text → Text → Option ℤ). f q i) (popped-zset id)))
    fetch_if_exists-FetchOutcome (some h) e =
        picked id score h placed e (ap (with_id id) (done-own h e)) done-zset (λ k. done-hash h k e)

  fetch_member-FetchOutcome :
      (o : Option Text)
      → R.first db a.source_queue ≡ o
      → FetchOutcome a (view db) (view (fetch_member R a o db).1) (fetch_member R a o db).0
  unfolding fetch_member
  fetch_member-FetchOutcome none e =
      refused refl (rw view-call refl)
        (λ q i s z. ap (λ (k : Keyspace). k.zset q i) (sym (view-call _ db)) ∙ z)
  fetch_member-FetchOutcome (some id) e =
      let found : IsFirst (view db) a.source_queue (some id) =
        subst (IsFirst (view db) a.source_queue) e (R.first-IsFirst db a.source_queue) in
      fetch_if_exists-FetchOutcome id found.0 found.1 _
        (ap (λ (f : Text → Option MessageHash). f (message_key id)) (sym (popped-hash id)))

  -- The script ends in one of the two ways.
  pub fetch-FetchOutcome :
      FetchOutcome a
        (view db)
        (view (fetch_next_message_in_queue_and_move R a db).1)
        (fetch_next_message_in_queue_and_move R a db).0
  unfolding fetch_next_message_in_queue_and_move
  fetch-FetchOutcome = elim (Bool-cases (at_cap R a db)) [
    | inl e ↦ rw (e, fetch_next_message_in_queue_and_move) (refused refl refl (λ q i s z. z))
    | inr e ↦
        rw (e, fetch_next_message_in_queue_and_move)
          (fetch_member-FetchOutcome (R.first db a.source_queue) refl)
  ]

abbrev adds : Text → Command → ℕ
adds k (sadd j m) = ite (text_discrete k j) 1 0
adds k (zadd _ _ _) = 0
adds k (zadd_xx _ _ _) = 0
adds k (zrem _ _) = 0
adds k (hset _ _) = 0
adds k (hdel _ _) = 0
adds k (expire _ _) = 0
adds k (srem _ _) = 0
adds k (set_ex _ _ _) = 0
adds k (set_px_nx _ _ _) = 0
adds k (del _) = 0

abbrev adds_all : Text → List Command → ℕ
adds_all k [] = 0
adds_all k (c ∷ cs) = adds k c + adds_all k cs

scard_after-le :
    (k : Text) (c : Command) (s : Keyspace) (n : ℕ) → scard_after k c s n ≤ n + adds k c
scard_after-le k (sadd j m) s n = ground arith
scard_after-le k (srem j m) s n = ground arith
scard_after-le k (del j) s n = ground arith
scard_after-le k (zadd _ _ _) s n = omega arith
scard_after-le k (zadd_xx _ _ _) s n = omega arith
scard_after-le k (zrem _ _) s n = omega arith
scard_after-le k (hset _ _) s n = omega arith
scard_after-le k (hdel _ _) s n = omega arith
scard_after-le k (expire _ _) s n = omega arith
scard_after-le k (set_ex _ _ _) s n = omega arith
scard_after-le k (set_px_nx _ _ _) s n = omega arith

claim-adds : (k key id : Text) → adds_all k (claim_commands key id) ≤ 1
claim-adds k [] id = omega arith
claim-adds k (x ∷ xs) id = ground arith

module _ (R : Redis) where
  open R use {scard, call, view}

  scard-call-le : (k : Text) (c : Command) (db : R.Db) → scard (call c db) k ≤ scard db k + adds k c
  scard-call-le k c db = rw (R.scard-call k c db) (scard_after-le k c (view db) (scard db k))

  scard-calls-le :
      (k : Text) (cs : List Command) (db : R.Db)
      → scard (calls R cs db) k ≤ scard db k + adds_all k cs
  unfolding calls
  scard-calls-le k [] db = omega arith
  scard-calls-le k (c ∷ cs) db =
      omega (arith, scard-calls-le k cs (call c db), scard-call-le k c db)

  module _ (a : FetchArgs) (db : R.Db) (k : Text) where
    popped-scard-le : (id : Text) → scard (popped R a id db) k ≤ scard db k
    unfolding popped
    popped-scard-le id =
        elim (Bool-cases (R.zcard_zero (call (zrem a.source_queue id) db) a.source_queue)) [
          | inl e ↦
              rw (e, popped)
                (omega (
                  arith,
                  scard-call-le k (srem a.queues_to_distribute_from a.source_queue)
                      (call (zrem a.source_queue id) db),
                  scard-call-le k (zrem a.source_queue id) db,
                ))
          | inr e ↦ rw (e, popped) (omega (arith, scard-call-le k (zrem a.source_queue id) db))
        ]

    fetch_if_exists-scard-le :
        (id : Text) (o : Option MessageHash)
        → scard (fetch_if_exists R a id o (popped R a id db)).1 k ≤ scard db k + 1
    unfolding fetch_if_exists
    fetch_if_exists-scard-le id none = omega (arith, popped-scard-le id)
    fetch_if_exists-scard-le id (some h) = omega (
      arith,
      popped-scard-le id,
      scard-calls-le k (fetch_commands a id) (popped R a id db),
      claim-adds k a.concurrency_set id,
    )

    fetch_member-scard-le : (o : Option Text) → scard (fetch_member R a o db).1 k ≤ scard db k + 1
    unfolding fetch_member
    fetch_member-scard-le none =
        omega (arith, scard-call-le k (srem a.queues_to_distribute_from a.source_queue) db)
    fetch_member-scard-le (some id) = fetch_if_exists-scard-le id _

  at_cap-lt :
      (a : FetchArgs) (x : ℕ) (xs : Text) (db : R.Db)
      → a.concurrency_set ≡ x ∷ xs
      → 0 < a.max_in_flight
      → at_cap R a db ≡ false
      → scard db a.concurrency_set < a.max_in_flight
  unfolding at_cap
  at_cap-lt a x xs db e pos open_ = ground arith

  -- With a concurrency set and a positive cap, a set that holds no more than the cap holds no more
  -- than the cap after the script: the check and the claim are one step.
  pub fetch_keeps_cap :
      (a : FetchArgs) (x : ℕ) (xs : Text) (db : R.Db)
      → a.concurrency_set ≡ x ∷ xs
      → 0 < a.max_in_flight
      → scard db a.concurrency_set ≤ a.max_in_flight
      → scard (fetch_next_message_in_queue_and_move R a db).1 a.concurrency_set ≤ a.max_in_flight
  unfolding fetch_next_message_in_queue_and_move
  fetch_keeps_cap a x xs db e pos h = elim (Bool-cases (at_cap R a db)) [
    | inl full ↦ rw (full, fetch_next_message_in_queue_and_move) h
    | inr free ↦
        rw (free, fetch_next_message_in_queue_and_move)
          (omega (
            arith,
            fetch_member-scard-le a db a.concurrency_set (R.first db a.source_queue),
            at_cap-lt a x xs db e pos free,
          ))
  ]
