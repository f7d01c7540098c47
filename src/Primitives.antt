-- ===== src/Primitives.antt =====
-- mwait_barrier/test_primitives.c: one thread notifies the other as it works.
pub mod Signal
pub mod Builds
pub mod Rows
pub mod Counts
pub mod Lost
pub mod Main
