-- ===== src/Lifecycle.antt =====
-- src/engine/lifecycle: the stages that a message waits in, and what moves it between them.
pub mod Stages
pub mod Home
pub mod Moves
pub mod Reach
pub mod Protocol
