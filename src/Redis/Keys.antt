-- ===== src/Redis/Keys.antt =====
-- src/lib/redis-repository/keys.ts: the keys of the delivery pipeline.
use nxt_device_messaging.Common.{
  Text, txt, ◌++◌, ◌≡◌, ◌≢◌, ◌↔◌, refl, [], ◌∷◌, Option, none, some, arith, ◌==◌, if◌then◌else◌,
}
use nxt_device_messaging.Message.{Phase, phase_a, phase_b, phase_c}

unfoldable pub message_key_prefix : Text
message_key_prefix = txt "device_message:"

unfoldable pub message_key : Text → Text
unfolding message_key_prefix
message_key message_id = message_key_prefix ++ message_id

unfoldable pub list_of_initial_queues : Text
list_of_initial_queues = txt "queues_to_distribute_from"

unfoldable pub lock_for_queue : Text → Text
lock_for_queue to_lock = txt "lock_queue:" ++ to_lock

unfoldable pub queue_awaiting_task : Text → Text
queue_awaiting_task plugin_id = txt "queue_awaiting_task:" ++ plugin_id

abbrev pub phase_suffix : Option Phase → Text
phase_suffix none = txt ""
phase_suffix (some phase_a) = txt "_phA"
phase_suffix (some phase_b) = txt "_phB"
phase_suffix (some phase_c) = txt "_phC"

unfoldable pub index_correlation_id : Text → Option Phase → Text
index_correlation_id correlation_id phase =
    txt "idx:correlation_id:" ++ (correlation_id ++ phase_suffix phase)

unfoldable pub index_external_delivery_id : Text → Text
index_external_delivery_id external_delivery_id =
    txt "idx:external_delivery_id:" ++ external_delivery_id

-- `key.startsWith(prefix)` with `key.slice(prefix.length)`: what follows the prefix.
abbrev strip_prefix : Text → Text → Option Text
strip_prefix [] key = some key
strip_prefix (p ∷ ps) [] = none
strip_prefix (p ∷ ps) (k ∷ ks) = if p == k then strip_prefix ps ks else none

abbrev not_empty : Text → Option Text
not_empty [] = none
not_empty (k ∷ ks) = some (k ∷ ks)

-- A missing index value is `none`.
unfoldable pub message_id_from_key : Option Text → Option Text
unfolding message_key_prefix
message_id_from_key none = none
message_id_from_key (some key) = elim (strip_prefix message_key_prefix key) [
  | none ↦ none
  | some id ↦ not_empty id
]

strip_prefix-eq : (ps key id : Text) → strip_prefix ps key ≡ some id → key ≡ ps ++ id
strip_prefix-eq [] key id h = ground arith
strip_prefix-eq (p ∷ ps) [] id h = ground arith
strip_prefix-eq (p ∷ ps) (k ∷ ks) id h = ground (arith, strip_prefix-eq ps ks id)

-- A key yields an id exactly when it is the key of that id, and the id is not the empty text.
pub message_id_from_key_iff :
    (key id : Text)
    → (message_id_from_key (some key) ≡ some id) ↔ ((key ≡ message_key id) × (id ≢ []))
unfolding message_id_from_key message_key
message_id_from_key_iff key [] =
    ((λ h. ground (arith, strip_prefix-eq message_key_prefix key [])), (λ h. absurd (h.1 refl)))
message_id_from_key_iff key (x ∷ id) = (
  (λ h. ((ground (arith, strip_prefix-eq message_key_prefix key (x ∷ id))), (λ e. cc))),
  (λ h. rw (h.0) refl),
)

pub message_key-injective : (i j : Text) → message_key i ≡ message_key j → i ≡ j
unfolding message_key
message_key-injective i j h = cc
