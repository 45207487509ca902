-- ===== src/Deviate.antt =====
-- deviate.c: the differences between two samples.
pub mod Count
pub mod Calc
pub mod Tasks
mod Tests
