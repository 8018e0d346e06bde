-- ===== src/Enforcer.antt =====
-- internal/enforcer: `dira check`, which decides whether a plan contradicts what the ledger settled.
pub mod Words
pub mod Text
pub mod Target
pub mod Float
pub mod Match
pub mod Score
pub mod Verdict
mod Tests
