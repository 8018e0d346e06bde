-- ===== src/Distill.antt =====
-- internal/distill: the queue of staged captures, and what a human's keystrokes do to it.
pub mod Dispose
pub mod Queue
pub mod Loop
pub mod Edit
pub mod Session
mod Tests
