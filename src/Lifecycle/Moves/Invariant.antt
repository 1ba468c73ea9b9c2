-- ===== src/Lifecycle/Moves/Invariant.antt =====
-- Every transition keeps every message at home.
use nxt_device_messaging.Common.{
  ℕ, Text, ℤ, ◌≡◌, ◌≢◌, refl, sym, ap, ◌∙◌, Bool, Option, none, some, Option-cases, inl, inr, [],
  ◌∷◌, arith,
}
use nxt_device_messaging.Plugin.{DeliveryPlugin}
use nxt_device_messaging.Redis.{MessageHash, Keyspace, apply_all, merge, merged, at_member, at}
use nxt_device_messaging.Redis.Keys.{message_key}
use nxt_device_messaging.Redis.Scripts.{MoveArgs, status_fields, index_commands}
use nxt_device_messaging.Redis.Scripts.Move.{MoveOutcome, missed, orphan, committed, dropped, moved}
use nxt_device_messaging.Lifecycle.Home.{Registry, owner, home, AtHome, Relocated, Relocated-AtHome}

-- Membership that only shrinks, or changes its score, keeps every message at home.
pub Shrunk-AtHome :
    (reg : Registry) (s s' : Keyspace)
    → ((id : Text) (h : MessageHash)
        → s'.hash (message_key id) ≡ some h
        → s.hash (message_key id) ≡ some h)
    → ((q id : Text) (score : ℤ) → s'.zset q id ≡ some score → s.zset q id ≢ none)
    → AtHome reg s
    → AtHome reg s'
Shrunk-AtHome reg s s' hashes shrunk a = record {
  member = λ id q h p score e own z. elim (Option-cases (s.zset q id)) [
    | inl absent ↦ absurd (shrunk q id score z absent)
    | inr (old, placed) ↦ a.member id q h p old (hashes id h e) own placed
  ];
}

index_commands-hash :
    (key value : Text) (ttl : ℕ) (s : Keyspace)
    → (apply_all (index_commands key value ttl) s).hash ≡ s.hash
index_commands-hash [] value ttl s = refl
index_commands-hash (x ∷ xs) value ttl s = refl

module _ (reg : Registry) (a : MoveArgs) (s : Keyspace) where
  dropped-AtHome : AtHome reg s → AtHome reg (dropped a s)
  dropped-AtHome h =
      Shrunk-AtHome reg s (dropped a s) (λ id h e. e) (λ q id score z. ground arith) h

  -- The index is no sorted set and no message hash.
  zset-moved :
      (moved a s).zset
      ≡ at_member
          (at_member s.zset a.source_queue a.message_id none)
          a.destination_queue
          a.message_id
          (some a.destination_score)
  zset-moved = ground arith

  hash-moved :
      (h : MessageHash)
      → s.hash a.message_key ≡ some h
      → (moved a s).hash
        ≡ at s.hash a.message_key
            (some (merge (status_fields a.delivery_status a.delivery_queue_id) h))
  hash-moved h e =
      index_commands-hash a.index_key a.message_key a.index_ttl_seconds _
      ∙ ap
          (λ (o : Option MessageHash).
            at s.hash a.message_key
              (some (merged (status_fields a.delivery_status a.delivery_queue_id) o)))
          e

  pub moved-Relocated :
      (h : MessageHash)
      → a.message_key ≡ message_key a.message_id
      → s.hash a.message_key ≡ some h
      → Relocated a.message_id a.source_queue a.destination_queue
          (merge (status_fields a.delivery_status a.delivery_queue_id) h)
          s
          (moved a s)
  moved-Relocated h k e = record {
    zsets = λ q i score z. ground (arith, ap (λ (f : Text → Text → Option ℤ). f q i) zset-moved);
    hashes = λ i.
        ap (λ (f : Text → Option MessageHash). f (message_key i)) (hash-moved h e)
        ∙ ap
            (λ (j : Text).
              at s.hash j (some (merge (status_fields a.delivery_status a.delivery_queue_id) h))
                (message_key i))
            k;
  }

  pub status_fields-plugin :
      (h : MessageHash)
      → (merge (status_fields a.delivery_status a.delivery_queue_id) h).plugin_id ≡ h.plugin_id
  status_fields-plugin h = ground arith

  -- The move keeps every message at home if its destination is the queue of the new status.
  pub MoveOutcome-AtHome :
      (s' : Keyspace) (answer : Bool)
      → a.message_key ≡ message_key a.message_id
      → ((h : MessageHash) (p : DeliveryPlugin)
          → s.hash (message_key a.message_id) ≡ some h
          → owner reg h ≡ some p
          → home p (merge (status_fields a.delivery_status a.delivery_queue_id) h)
            ≡ some a.destination_queue)
      → MoveOutcome a s s' answer
      → AtHome reg s
      → AtHome reg s'
  MoveOutcome-AtHome s' answer k new (missed e r v) h = rw v (dropped-AtHome h)
  MoveOutcome-AtHome s' answer k new (orphan score e f r v) h = rw v (dropped-AtHome h)
  MoveOutcome-AtHome s' answer k new (committed score hash e f r v) h = rw v (
      Relocated-AtHome (moved-Relocated hash k f) reg hash score (sym (ap s.hash k) ∙ f) e
        (status_fields-plugin hash) h (λ p. new hash p (sym (ap s.hash k) ∙ f)))
