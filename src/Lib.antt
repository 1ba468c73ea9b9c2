-- ===== src/Lib.antt =====
-- The delivery core of nxt-device-messaging: messages for remote devices that wait in sorted sets of
-- Redis, one per stage of their delivery, and move from stage to stage until they have an outcome.
--
-- Parts and files:
--   Message        the message aggregate (src/lib/device-message)
--   Plugin         what the engine reads of a hardware plugin and of the configuration
--                  (src/plugins/plugin.interface.ts, src/config/schema.ts)
--   Redis          Redis as a parameter: a database with commands, each with its documented effect on
--                  what a client can read; Redis/Memory is one that meets it
--   Redis/Keys, Redis/MessageStore, Redis/StageStore, Redis/AdmissionStore, Redis/Scripts
--                  src/lib/redis-repository: keys.ts, message-store.ts with helpers.ts, stage-store.ts,
--                  admission-store.ts, and the two Lua scripts of lua/
--   Lifecycle/Stages
--                  the table of stages, their statuses, keys and waits
--                  (src/engine/lifecycle/stages.ts and types.ts, src/lib/retry-helpers.ts)
--   Lifecycle/Moves
--                  the transitions (src/engine/lifecycle/moves.ts)
--   Lifecycle/Home the queue in which a message belongs, by its hash
--   Lifecycle/Reach
--                  every order of transitions, enqueues and expiries
--   Lifecycle/Protocol
--                  what a message's moves promise with the queues forgotten, and that they keep it
--   Engine         failed attempts, final failures and their events (src/engine/base.ts)
--   Engine/Incoming
--                  an event from a vendor (src/engine/incoming.ts)
--   Engine/Outgoing
--                  enqueue, cancel by correlation id, and send of one message (src/engine/outgoing.ts)
--   Engine/Outgoing/Distribute
--                  admission and the distribution over the ready queues (the same file)
--   Engine/Actions, Engine/Runner
--                  what each stage does with a due member, the drain of a stage queue, and a tick
--                  (src/engine/lifecycle/actions.ts, src/engine/lifecycle/runner.ts)
--   Engine/InFlight
--                  the sends that the process still awaits (src/engine/in-flight-sends.ts)
--   Engine/System  everything the engine does, in any order
--   Webhook        the wait between deliveries of an event (src/engine/webhook/backoff.ts)
--   Webhook/Outbox the events that wait for the adopter, and their delivery
--                  (src/engine/webhook/service.ts and store.ts)
--   Plugin/QueueKey
--                  the keys of ready queues and of their slots
--                  (src/plugins/_shared/initial-queue-key.ts)
--   Plugin/Tuning  the tuning of a plugin (src/plugins/_shared/merge-plugin-tuning.ts)
--   Chirpstack/Encode, Chirpstack/Readout, Chirpstack/Decode
--                  the frames of the LoRaWAN meters (src/plugins/calin-chirpstack/lib/encode-request-data.ts
--                  and decode-response-data.ts)
--   Chirpstack/Outgoing
--                  a message as a downlink, and what its errors mean
--                  (src/plugins/calin-chirpstack/outgoing.ts)
--   Chirpstack/Incoming, Chirpstack/Correlate
--                  the events of that network server and the join of an acknowledgement with its
--                  uplink (src/plugins/calin-chirpstack/incoming.ts and lib/correlate-request-response.ts)
--   CalinApiV1     the poll of a task of a second vendor (src/plugins/calin-api-v1/incoming.ts)
--   CalinApiV1/Tasks, CalinApiV1/Client
--                  the tasks that it is sent, and its HTTP client (outgoing.ts and lib/repo.ts there)
--   CalinApiV2     a third vendor: the poll, the tasks, and the client with its cached login
--                  (src/plugins/calin-api-v2)
--   Plugin/Registry
--                  the registry of plugins (src/plugins/registry.ts)
--   Examples       the theorems at concrete inputs
--
-- State is passed explicitly: an operation takes the database and returns its answer with the new
-- one. A script and a MULTI run with nothing in between, as Redis runs them; `enterRetry` reads before
-- its MULTI, and the model takes the reads and the MULTI as one step. The clock and Math.random() are
-- arguments. Texts are lists of character codes; the retry multiplier and priorities are whole
-- numbers. A throw is `none`.
--
-- Only the decimal text of a number runs on fuel: one more than the number, which is above the count
-- of its digits. The rounds of an HTTP client are the source's own bounds; all else recurses on its
-- data, and a step relation has no bound on its length.
--
-- Not modelled: connections, logs and metrics, the HTTP routes, vendor calls (their
-- answers are arguments), the stages of a tick and the requests of a client side by side, the wait
-- for sends in flight at a shutdown, the building and the signature of an event, token generation and provisioning, and what the plugins
-- other than the three vendors above do.
mod Common
pub mod Message
pub mod Plugin
pub mod Redis
pub mod Lifecycle
pub mod Engine
pub mod Webhook
pub mod Chirpstack
pub mod CalinApiV1
pub mod CalinApiV2
mod Examples
