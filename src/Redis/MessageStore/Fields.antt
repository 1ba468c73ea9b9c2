-- ===== src/Redis/MessageStore/Fields.antt =====
-- What a message says of the hash that it was read from.
use nxt_device_messaging.Common.{Option, none, Text, ◌≡◌, refl, some, arith}
use nxt_device_messaging.Message.{DeviceMessage}
use nxt_device_messaging.Redis.{MessageHash}
use nxt_device_messaging.Redis.MessageStore.{deserialize_message, found, lookup_of, lookup_hash}

pub record ReadFrom (id : Text) (h : MessageHash) (m : DeviceMessage) : Type 0 where
  pub id_eq : m.id ≡ id
  pub plugin : h.plugin_id ≡ some m.plugin_id
  pub network : h.network_id ≡ m.network_id
  pub device : h.device ≡ some m.device
  pub status : h.delivery_status ≡ some m.delivery_status

pub deserialize_message-ReadFrom :
    (id : Text) (h : MessageHash) (m : DeviceMessage)
    → deserialize_message id h ≡ some m
    → ReadFrom id h m
unfolding deserialize_message
deserialize_message-ReadFrom id h m e = ground arith

lookup_of-found :
    (o : Option DeviceMessage) (m : DeviceMessage) → lookup_of o ≡ found m → o ≡ some m
lookup_of-found none m e = cc
lookup_of-found (some x) m e = ground arith

-- A lookup that finds a message read it from its hash.
pub lookup_hash-found :
    (id : Text) (o : Option MessageHash) (m : DeviceMessage)
    → lookup_hash id o ≡ found m
    → (h : MessageHash) × (o ≡ some h) × ReadFrom id h m
lookup_hash-found id none m e = cc
lookup_hash-found id (some raw) m e = (
  raw,
  refl,
  deserialize_message-ReadFrom id raw m (lookup_of-found (deserialize_message id raw) m e),
)
