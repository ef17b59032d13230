-- ===== src/Domain.antt =====
-- internal/core/domain: the aggregates of the server, each with its events.
pub mod Types
pub mod Intent
pub mod Event
pub mod Round
pub mod OffchainTx
pub mod OnchainTx
