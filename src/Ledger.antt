-- ===== src/Ledger.antt =====
-- ledger/: the entry vocabulary, its validation, the store and the writes that go through it.
pub mod Entry
pub mod Ident
pub mod Validate
pub mod Store
pub mod Write
