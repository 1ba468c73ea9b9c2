-- ===== src/Chirpstack/Outgoing/GivenUp.antt =====
-- Which sends of src/plugins/calin-chirpstack/outgoing.ts are never tried again.
use nxt_device_messaging.Common.{
  ℕ, Text, includes_text, ◌≡◌, ◌↔◌, ◌⊎◌, refl, ◌∙◌, ap, sym, subst, Bool, true, false, Bool-cases,
  inl, inr, Option, none, some, some_inj, List, arith,
}
use nxt_device_messaging.Message.{DeviceMessage, FailureContext}
use nxt_device_messaging.Engine.Outgoing
use nxt_device_messaging.Chirpstack.Encode.{encode_request_data}
use nxt_device_messaging.Chirpstack.Outgoing.{
  Enqueued, enqueued, enqueue_failed, grpc_error, request_of, device_eui, unregistered_device,
  parse_error, could_not_encode, downlink_of, send_encoded, send_one,
}

-- A send that was refused, and is to be skipped by the retries.
pub record GivenUp (s : Outgoing.Sent) : Type 0 where
  pub context : FailureContext
  pub refused_with : s ≡ Outgoing.refused context
  pub skips : context.skip_retry ≡ true

-- The network server refuses the frame since it does not know the device.
pub record Unregistered (o : Enqueued) : Type 0 where
  pub error_code : Option Text
  pub details : Text
  pub failed : o ≡ enqueue_failed error_code (some details)
  pub says : includes_text unregistered_device details ≡ true

-- Its frame is refused since the device is not registered.
pub record FrameUnregistered (enqueue : Text → List ℕ → Enqueued) (m : DeviceMessage)
    (o : Option (List ℕ)) : Type 0 where
  pub bytes : List ℕ
  pub encoded : o ≡ some bytes
  pub refused : Unregistered (enqueue (device_eui m) bytes)

abbrev skips_retry : Outgoing.Sent → Bool
skips_retry (Outgoing.accepted id) = false
skips_retry (Outgoing.refused context) = context.skip_retry

GivenUp-skips : (s : Outgoing.Sent) → GivenUp s → skips_retry s ≡ true
GivenUp-skips s g = ap skips_retry g.refused_with ∙ g.skips

grpc_error-GivenUp :
    (code : Option Text) (details : Text)
    → includes_text unregistered_device details ≡ true
    → GivenUp (downlink_of (enqueue_failed code (some details)))
unfolding parse_error
grpc_error-GivenUp code details says = rw says (record {
  context = parse_error (grpc_error code (some details));
  refused_with = ground arith;
  skips = ground arith;
})

downlink_of-Unregistered : (o : Enqueued) → skips_retry (downlink_of o) ≡ true → Unregistered o
unfolding parse_error
downlink_of-Unregistered (enqueued id) h = cc
downlink_of-Unregistered (enqueue_failed code none) h = cc
downlink_of-Unregistered (enqueue_failed code (some details)) h =
    elim (Bool-cases (includes_text unregistered_device details)) [
      | inl e ↦ record { error_code = code; details = details; failed = refl; says = e }
      | inr e ↦ absurd (ground arith)
    ]

Unregistered-GivenUp : (o : Enqueued) → Unregistered o → GivenUp (downlink_of o)
Unregistered-GivenUp o u =
    subst (λ (x : Enqueued). GivenUp (downlink_of x)) (sym u.failed)
      (grpc_error-GivenUp u.error_code u.details u.says)

encoded-GivenUp_iff :
    (enqueue : Text → List ℕ → Enqueued) (m : DeviceMessage) (o : Option (List ℕ))
    → GivenUp (send_encoded enqueue m o) ↔ ((o ≡ none) ⊎ FrameUnregistered enqueue m o)
unfolding parse_error
encoded-GivenUp_iff enqueue m none = (
  (λ g. inl refl),
  (λ c. record { context = parse_error could_not_encode; refused_with = refl; skips = refl }),
)
encoded-GivenUp_iff enqueue m (some bytes) = (to, from)
  where
    to :
        GivenUp (downlink_of (enqueue (device_eui m) bytes))
        → (some bytes ≡ none) ⊎ FrameUnregistered enqueue m (some bytes)
    to g = inr (record {
      bytes = bytes;
      encoded = refl;
      refused = downlink_of-Unregistered (enqueue (device_eui m) bytes) (GivenUp-skips _ g);
    })

    from :
        (some bytes ≡ none) ⊎ FrameUnregistered enqueue m (some bytes)
        → GivenUp (downlink_of (enqueue (device_eui m) bytes))
    from (inl e) = absurd (ground arith)
    from (inr f) =
        subst (λ (b : List ℕ). GivenUp (downlink_of (enqueue (device_eui m) b)))
          (some_inj (sym f.encoded)) (Unregistered-GivenUp _ f.refused)

-- A downlink is given up for good exactly when the command cannot be encoded, or the network server
-- refuses its frame with a text that names the missing registration of the device.
pub send_one-GivenUp_iff :
    (enqueue : Text → List ℕ → Enqueued) (m : DeviceMessage)
    → GivenUp (send_one enqueue m) ↔ (
        (encode_request_data (request_of m) ≡ none)
        ⊎ FrameUnregistered enqueue m (encode_request_data (request_of m)))
unfolding send_one
send_one-GivenUp_iff enqueue m = encoded-GivenUp_iff enqueue m (encode_request_data (request_of m))
