-- ===== src/Chirpstack/Correlate/Order.antt =====
-- The correlator of correlate-request-response.ts does not depend on the order of the two halves, and
-- never joins without a device.
use nxt_device_messaging.Common.{
  ℕ, ◌-◌, ltb, Bool-cases, Text, text_discrete, ◌≡◌, ◌≢◌, refl, Option, none, some, inl, inr, List,
  [], ◌∷◌, All, arith,
}
use nxt_device_messaging.Message.{Device}
use nxt_device_messaging.Redis.{at}
use nxt_device_messaging.Redis.MessageStore.{truthy}
use nxt_device_messaging.Chirpstack.Readout.{ResponseData}
use nxt_device_messaging.Chirpstack.Decode.{DecodedEvent}
use nxt_device_messaging.Chirpstack.Correlate.{
  CorrelationEntry, PendingCorrelations, Correlated, nothing_yet, deviceless, combined,
  combined_event, on_ack_event, on_up_event, on_ack_half, on_up_half, run_garbage_collection,
  pending_decoded, pending_queue_item, age_kept, correlation_ttl_ms,
}

at_same : (p : PendingCorrelations) (k : Text) (v : Option CorrelationEntry) → at p k v k ≡ v
at_same p k v = ground arith

-- Putting an entry where there was none and taking it away again changes nothing.
at_back :
    (p : PendingCorrelations) (k j : Text) (v : Option CorrelationEntry)
    → p k ≡ none
    → at (at p k v) k none j ≡ p j
at_back p k j v e = ground arith

module _ (render : ResponseData → Text) (dedup queue_item_id : Text) (decoded : DecodedEvent)
    (device : Device) where
  abbrev ack_half : ℕ → CorrelationEntry
  ack_half now = record {
    queue_item_id = some queue_item_id;
    decoded = none;
    device = none;
    timestamp = now;
  }

  abbrev up_half : ℕ → CorrelationEntry
  up_half now = record {
    queue_item_id = none;
    decoded = some decoded;
    device = some device;
    timestamp = now;
  }

  first_ack :
      (now : ℕ) (p : PendingCorrelations)
      → p dedup ≡ none
      → on_ack_event render now dedup queue_item_id p
        ≡ (nothing_yet, at p dedup (some (ack_half now)))
  unfolding on_ack_event
  first_ack now p e = rw e refl

  first_up :
      (now : ℕ) (p : PendingCorrelations)
      → p dedup ≡ none
      → on_up_event render now dedup decoded device p
        ≡ (nothing_yet, at p dedup (some (up_half now)))
  unfolding on_up_event
  first_up now p e = rw e refl

  second_up :
      (now later : ℕ) (p : PendingCorrelations)
      → truthy (some queue_item_id) ≡ some queue_item_id
      → p dedup ≡ some (ack_half now)
      → on_up_event render later dedup decoded device p
        ≡ (combined (combined_event render queue_item_id decoded device), at p dedup none)
  unfolding on_up_event
  second_up now later p given e = rw (e, given) refl

  second_ack :
      (now later : ℕ) (p : PendingCorrelations)
      → p dedup ≡ some (up_half now)
      → on_ack_event render later dedup queue_item_id p
        ≡ (combined (combined_event render queue_item_id decoded device), at p dedup none)
  unfolding on_ack_event
  second_ack now later p e = rw e refl

  -- Without a pending half under the id, and with a queue item id that is not empty, an acknowledgement
  -- and then its uplink, and the uplink and then its acknowledgement, both give nothing first and then
  -- one and the same event, and leave the pending halves as they were, whatever the times.
  pub on_up_event-on_ack_event :
      (now later : ℕ) (p : PendingCorrelations) (j : Text)
      → p dedup ≡ none
      → truthy (some queue_item_id) ≡ some queue_item_id
      → ((on_ack_event render now dedup queue_item_id p).0 ≡ nothing_yet)
        × ((on_up_event render now dedup decoded device p).0 ≡ nothing_yet)
        × ((on_up_event render later dedup decoded device
              (on_ack_event render now dedup queue_item_id p).1).0
            ≡ combined (combined_event render queue_item_id decoded device))
        × ((on_ack_event render later dedup queue_item_id
              (on_up_event render now dedup decoded device p).1).0
            ≡ combined (combined_event render queue_item_id decoded device))
        × ((on_up_event render later dedup decoded device
                (on_ack_event render now dedup queue_item_id p).1).1
              j
            ≡ p j)
        × ((on_ack_event render later dedup queue_item_id
                (on_up_event render now dedup decoded device p).1).1
              j
            ≡ p j)
  on_up_event-on_ack_event now later p j e given =
      let up = second_up now later (at p dedup (some (ack_half now))) given (at_same p dedup _) in
      let ack = second_ack now later (at p dedup (some (up_half now))) (at_same p dedup _) in
      rw (first_ack now p e, first_up now p e, up, ack)
        (refl, refl, refl, refl, at_back p dedup j _ e, at_back p dedup j _ e)

-- What comes to the correlator.
pub data Arrival : Type 0 where
  acknowledged : ℕ → Text → Text → Arrival
  answered : ℕ → Text → DecodedEvent → Device → Arrival
  collected : ℕ → Arrival

-- An uplink that waits has its device.
abbrev HasDevice : Option (DecodedEvent × Option Device) → Type 0
HasDevice none = Unit {0}
HasDevice (some (decoded, device)) = device ≢ none

AllHaveDevices : PendingCorrelations → Type 0
AllHaveDevices p = (k : Text) → HasDevice (pending_decoded (p k))

module _ (render : ResponseData → Text) where
  abbrev pub arrive : Arrival → PendingCorrelations → Correlated × PendingCorrelations
  arrive (acknowledged now dedup queue_item_id) p = on_ack_event render now dedup queue_item_id p
  arrive (answered now dedup decoded device) p = on_up_event render now dedup decoded device p
  arrive (collected now) p = (nothing_yet, run_garbage_collection now p)

  -- The answers to a sequence of arrivals.
  unfoldable pub arrive_all : List Arrival → PendingCorrelations → List Correlated
  arrive_all [] p = []
  arrive_all (a ∷ rest) p = let (answer, after) = arrive a p in answer ∷ arrive_all rest after

  at-AllHaveDevices :
      (p : PendingCorrelations) (k : Text) (v : Option CorrelationEntry)
      → AllHaveDevices p
      → HasDevice (pending_decoded v)
      → AllHaveDevices (at p k v)
  unfolding AllHaveDevices
  at-AllHaveDevices p k v h own = λ j. elim (text_discrete j k) [
    | yes e ↦ rw (e, at_same p k v) own
    | no ne ↦ rw (other j ne) (h j)
  ]
    where
      other : (j : Text) → j ≢ k → at p k v j ≡ p j
      other j ne = ground arith

  age_kept-HasDevice :
      (now : ℕ) (o : Option CorrelationEntry)
      → HasDevice (pending_decoded o)
      → HasDevice (pending_decoded (age_kept now o))
  age_kept-HasDevice now none h = h
  age_kept-HasDevice now (some e) h =
      elim (Bool-cases (ltb correlation_ttl_ms (now - e.timestamp))) [
        | inl old ↦ rw old tt
        | inr young ↦ rw young h
      ]

  ack_half-kept :
      (now : ℕ) (dedup queue_item_id : Text) (p : PendingCorrelations)
      (o : Option (DecodedEvent × Option Device))
      → HasDevice o
      → AllHaveDevices p
      → ((on_ack_half render now dedup queue_item_id o p).0 ≢ deviceless)
        × AllHaveDevices (on_ack_half render now dedup queue_item_id o p).1
  ack_half-kept now dedup queue_item_id p none own h = ((λ e. cc), at-AllHaveDevices p dedup _ h tt)
  ack_half-kept now dedup queue_item_id p (some (decoded, none)) own h = absurd (own refl)
  ack_half-kept now dedup queue_item_id p (some (decoded, some device)) own h =
      ((λ e. cc), at-AllHaveDevices p dedup none h tt)

  up_half-kept :
      (now : ℕ) (dedup : Text) (decoded : DecodedEvent) (device : Device) (o : Option Text)
      (p : PendingCorrelations)
      → AllHaveDevices p
      → ((on_up_half render now dedup decoded device o p).0 ≢ deviceless)
        × AllHaveDevices (on_up_half render now dedup decoded device o p).1
  up_half-kept now dedup decoded device none p h =
      ((λ e. cc), at-AllHaveDevices p dedup _ h (λ e. cc))
  up_half-kept now dedup decoded device (some q) p h =
      ((λ e. cc), at-AllHaveDevices p dedup none h tt)

  arrive-kept :
      (a : Arrival) (p : PendingCorrelations)
      → AllHaveDevices p
      → ((arrive a p).0 ≢ deviceless) × AllHaveDevices (arrive a p).1
  unfolding AllHaveDevices on_ack_event on_up_event run_garbage_collection
  arrive-kept (acknowledged now dedup q) p h =
      ack_half-kept now dedup q p (pending_decoded (p dedup)) (h dedup) h
  arrive-kept (answered now dedup decoded device) p h =
      up_half-kept now dedup decoded device (pending_queue_item (p dedup)) p h
  arrive-kept (collected now) p h = ((λ e. cc), (λ k. age_kept-HasDevice now (p k) (h k)))

  arrive_all-kept :
      (arrivals : List Arrival) (p : PendingCorrelations)
      → AllHaveDevices p
      → All (λ (r : Correlated). r ≢ deviceless) (arrive_all arrivals p)
  unfolding arrive_all
  arrive_all-kept [] p h = tt
  arrive_all-kept (a ∷ rest) p h =
      let (answer, after) = arrive-kept a p h in (answer, arrive_all-kept rest (arrive a p).1 after)

  -- From no pending halves, whatever acknowledgements, uplinks and collections follow in whatever
  -- order, no event is joined without a device.
  pub arrive_all_deviced :
      (arrivals : List Arrival)
      → All (λ (r : Correlated). r ≢ deviceless) (arrive_all arrivals (λ k. none))
  unfolding AllHaveDevices
  arrive_all_deviced arrivals = arrive_all-kept arrivals (λ k. none) (λ k. tt)
