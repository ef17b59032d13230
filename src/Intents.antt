-- ===== src/Intents.antt =====
-- internal/infrastructure/live-store/redis: the queue of the intents that wait for a batch.
pub mod Owner
pub mod Redis
pub mod Tables
pub mod Queue
pub mod Popped
pub mod Claims
pub mod Taken
pub mod Release
pub mod Runs
pub mod Accepts
pub mod Effects
pub mod Examples
