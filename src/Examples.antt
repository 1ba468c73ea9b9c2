-- ===== src/Examples.antt =====
-- The theorems at concrete inputs, over the Redis of Redis/Memory.
mod Fixtures
mod OfStages
mod OfRedis
mod OfMoves
mod OfProtocol
mod OfEngine
mod OfKnobs
mod OfChirpstack
mod OfDistribution
mod OfIncoming
mod OfRegistry
mod OfCalinApiV1
mod OfCalinApiV2
mod OfOutbox
mod OfInFlight
mod OfSystem
