-- ===== src/Redis.antt =====
-- Redis, as far as src/lib/redis-repository uses it. Redis is not part of the repository: it is a
-- parameter of the model, `Redis`, a database with commands and what the Redis documentation says
-- of their effect. The effect is stated on `Keyspace`, what a client can read of the database. A
-- message hash is a record of optional fields, each with the value that the code writes into it as
-- a text or as JSON, and reads back. Keys other than message hashes that hold a hash do not occur.
pub mod Keys
pub mod Memory
pub mod Commands
pub mod Scripts
pub mod MessageStore
pub mod StageStore
pub mod AdmissionStore
use nxt_device_messaging.Common.{
  ℕ, suc, ◌+◌, ◌-◌, ◌/◌, ◌≤◌, ◌≡◌, refl, ap, ◌∙◌, Text, text_discrete, ℤ, ◌≤ℤ◌, Bool, true, false,
  Option, none, some, List, [], ◌∷◌, All, length, ◌⊎◌, ite,
}
use nxt_device_messaging.Message.{
  CommandType, RequestData, Phase, Device, DeliveryStatus, FailureReason,
}

pub record MessageHash : Type 0 where
  pub command_type : Option CommandType
  pub priority : Option ℤ
  pub plugin_id : Option Text
  pub request_data : Option RequestData
  pub phase : Option Phase
  pub network_id : Option ℕ
  pub correlation_id : Option Text
  pub device : Option Device
  pub delivery_queue_id : Option Text
  pub delivery_status : Option DeliveryStatus
  pub retry_count : Option ℕ
  pub failure_history : Option (List FailureReason)
  pub concurrency_rate_limit_key : Option Text

abbrev pub no_fields : MessageHash
no_fields = record {
  command_type = none;
  priority = none;
  plugin_id = none;
  request_data = none;
  phase = none;
  network_id = none;
  correlation_id = none;
  device = none;
  delivery_queue_id = none;
  delivery_status = none;
  retry_count = none;
  failure_history = none;
  concurrency_rate_limit_key = none;
}

abbrev pub or_else {ℓ} : {A : Type ℓ} → Option A → Option A → Option A
or_else none old = old
or_else (some v) old = some v

-- The fields of `new`, and those of `old` that `new` leaves out.
abbrev pub merge : MessageHash → MessageHash → MessageHash
merge new old = record {
  command_type = or_else new.command_type old.command_type;
  priority = or_else new.priority old.priority;
  plugin_id = or_else new.plugin_id old.plugin_id;
  request_data = or_else new.request_data old.request_data;
  phase = or_else new.phase old.phase;
  network_id = or_else new.network_id old.network_id;
  correlation_id = or_else new.correlation_id old.correlation_id;
  device = or_else new.device old.device;
  delivery_queue_id = or_else new.delivery_queue_id old.delivery_queue_id;
  delivery_status = or_else new.delivery_status old.delivery_status;
  retry_count = or_else new.retry_count old.retry_count;
  failure_history = or_else new.failure_history old.failure_history;
  concurrency_rate_limit_key =
      or_else new.concurrency_rate_limit_key old.concurrency_rate_limit_key;
}

-- The fields that the code deletes.
pub data DeletedField : Type 0 where
  delivery_queue_id_field concurrency_rate_limit_key_field : DeletedField

abbrev pub without : DeletedField → MessageHash → MessageHash
without delivery_queue_id_field h = record h { delivery_queue_id = none }
without concurrency_rate_limit_key_field h = record h { concurrency_rate_limit_key = none }

pub record Keyspace : Type 0 where
  pub zset : Text → Text → Option ℤ
  pub hash : Text → Option MessageHash
  pub set : Text → Text → Bool
  pub string : Text → Option Text
  pub ttl : Text → Option ℕ

pub data Command : Type 0 where
  zadd zadd_xx : Text → ℤ → Text → Command
  zrem : Text → Text → Command
  hset : Text → MessageHash → Command
  hdel : Text → DeletedField → Command
  expire : Text → ℕ → Command
  sadd srem : Text → Text → Command
  set_ex set_px_nx : Text → Text → ℕ → Command
  del : Text → Command

-- A function changed at one key, or at one member of one key.
abbrev pub at {ℓ} : {A : Type ℓ} → (Text → A) → Text → A → Text → A
at f k v j = ite (text_discrete j k) v (f j)

abbrev pub at_member {ℓ} : {A : Type ℓ} → (Text → Text → A) → Text → Text → A → Text → Text → A
at_member f k m v j n = ite (text_discrete j k) (ite (text_discrete n m) v (f j n)) (f j n)

abbrev pub if_present {ℓ} : {A : Type ℓ} → Option A → A → Option A
if_present none v = none
if_present (some old) v = some v

abbrev pub merged : MessageHash → Option MessageHash → MessageHash
merged new none = new
merged new (some old) = merge new old

abbrev pub map_without : DeletedField → Option MessageHash → Option MessageHash
map_without f none = none
map_without f (some h) = some (without f h)

-- A key that is there keeps its time to live; a new one has `ms` milliseconds, as TTL rounds them.
abbrev pub kept_ttl : Option Text → Option ℕ → ℕ → Option ℕ
kept_ttl none old ms = some ((ms + 500) / 1000)
kept_ttl (some v) old ms = old

-- The documented effect of a command. A hash from which HDEL takes the last field is gone; the code
-- deletes a field only right after it has set others, so this is not distinguished here.
abbrev pub apply : Command → Keyspace → Keyspace
apply (zadd k score m) s = record s { zset = at_member s.zset k m (some score) }
apply (zadd_xx k score m) s = record s {
  zset = at_member s.zset k m (if_present (s.zset k m) score);
}
apply (zrem k m) s = record s { zset = at_member s.zset k m none }
apply (hset k fields) s = record s { hash = at s.hash k (some (merged fields (s.hash k))) }
apply (hdel k f) s = record s { hash = at s.hash k (map_without f (s.hash k)) }
apply (expire k seconds) s = record s { ttl = at s.ttl k (some seconds) }
apply (sadd k m) s = record s { set = at_member s.set k m true }
apply (srem k m) s = record s { set = at_member s.set k m false }
apply (set_ex k v seconds) s = record s {
  string = at s.string k (some v);
  ttl = at s.ttl k (some seconds);
}
apply (set_px_nx k v ms) s = record s {
  string = at s.string k (or_else (s.string k) (some v));
  ttl = at s.ttl k (kept_ttl (s.string k) (s.ttl k) ms);
}
apply (del k) s = record {
  zset = at s.zset k (λ _. none);
  hash = at s.hash k none;
  set = at s.set k (λ _. false);
  string = at s.string k none;
  ttl = at s.ttl k none;
}

abbrev pub apply_all : List Command → Keyspace → Keyspace
apply_all [] s = s
apply_all (c ∷ cs) s = apply_all cs (apply c s)

-- SCARD after a command, from SCARD before it.
abbrev pub scard_after : Text → Command → Keyspace → ℕ → ℕ
scard_after k (sadd j m) s n =
    ite (text_discrete k j) (elim (s.set j m) [ true ↦ n | false ↦ suc n ]) n
scard_after k (srem j m) s n =
    ite (text_discrete k j) (elim (s.set j m) [ true ↦ n - 1 | false ↦ n ]) n
scard_after k (del j) s n = ite (text_discrete k j) 0 n
scard_after k (zadd _ _ _) s n = n
scard_after k (zadd_xx _ _ _) s n = n
scard_after k (zrem _ _) s n = n
scard_after k (hset _ _) s n = n
scard_after k (hdel _ _) s n = n
scard_after k (expire _ _) s n = n
scard_after k (set_ex _ _ _) s n = n
scard_after k (set_px_nx _ _ _) s n = n

-- What ZPOPMIN finds: nothing in an empty set, and else a member with the lowest score.
abbrev pub IsFirst : Keyspace → Text → Option Text → Type 0
IsFirst s k none = (m : Text) → s.zset k m ≡ none
IsFirst s k (some m) =
    (score : ℤ) × (s.zset k m ≡ some score)
    × ((n : Text) (other : ℤ) → s.zset k n ≡ some other → score ≤ℤ other)

-- ZCARD key == 0.
abbrev pub IsEmpty : Keyspace → Text → Bool → Type 0
IsEmpty s k true = (m : Text) → s.zset k m ≡ none
IsEmpty s k false = (m : Text) × ((score : ℤ) × (s.zset k m ≡ some score))

abbrev pub Listed : Text → List Text → Type 0
Listed x [] = ⊥
Listed x (y ∷ ys) = (x ≡ y) ⊎ Listed x ys

-- SISMEMBER, and what SMEMBERS lists.
abbrev pub InSet : Keyspace → Text → Text → Type 0
InSet s k m = s.set k m ≡ true

-- ZRANGEBYSCORE key -inf cutoff LIMIT 0 limit.
abbrev pub IsDue : Keyspace → Text → ℕ → Text → Type 0
IsDue s k cutoff m = (score : ℤ) × (s.zset k m ≡ some score) × (score ≤ℤ ℤ.pos cutoff)

pub record Redis : Type 1 where
  pub Db : Type 0
  pub view : Db → Keyspace
  pub call : Command → Db → Db
  pub scard : Db → Text → ℕ
  pub first : Db → Text → Option Text
  pub zcard_zero : Db → Text → Bool
  pub smembers : Db → Text → List Text
  pub range_by_score : Db → Text → ℕ → ℕ → List Text
  pub view-call : (c : Command) (db : Db) → view (call c db) ≡ apply c (view db)
  pub scard-call :
      (k : Text) (c : Command) (db : Db)
      → scard (call c db) k ≡ scard_after k c (view db) (scard db k)
  pub first-IsFirst : (db : Db) (k : Text) → IsFirst (view db) k (first db k)
  pub zcard_zero-IsEmpty : (db : Db) (k : Text) → IsEmpty (view db) k (zcard_zero db k)
  pub smembers-InSet : (db : Db) (k : Text) → All (InSet (view db) k) (smembers db k)
  pub smembers-Listed : (db : Db) (k m : Text) → InSet (view db) k m → Listed m (smembers db k)
  pub range_by_score-IsDue :
      (db : Db) (k : Text) (cutoff limit : ℕ)
      → All (IsDue (view db) k cutoff) (range_by_score db k cutoff limit)
  pub length-range_by_score :
      (db : Db) (k : Text) (cutoff limit : ℕ) → length (range_by_score db k cutoff limit) ≤ limit

module _ (R : Redis) where
  open R use {Db, call}

  -- MULTI ... EXEC, and the calls of one script: the commands in order, with nothing between them.
  unfoldable pub calls : List Command → Db → Db
  calls [] db = db
  calls (c ∷ cs) db = calls cs (call c db)

  pub view-calls : (cs : List Command) (db : Db) → R.view (calls cs db) ≡ apply_all cs (R.view db)
  unfolding calls
  view-calls [] db = refl
  view-calls (c ∷ cs) db = view-calls cs (call c db) ∙ ap (apply_all cs) (R.view-call c db)
