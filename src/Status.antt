-- ===== src/Status.antt =====
-- internal/status: where the work on an entry stands, by joining the ledger with kazi's answers.
pub mod Kazi
pub mod Join
mod Tests
