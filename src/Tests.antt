-- ===== src/Tests.antt =====
-- Runs of the models at concrete inputs, and the theorems at inputs that meet their hypotheses.
pub mod Fixture
mod Session
mod Storage
mod Messages
mod Timers
mod Parser
mod Load
mod System
mod Framing
mod Reader
