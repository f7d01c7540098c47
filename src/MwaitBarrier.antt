-- ===== src/MwaitBarrier.antt =====
-- The barriers of mwait_barrier/mwait_barrier.c, for the two threads of one package each.
pub mod Defs
pub mod Invariant
pub mod Safety
pub mod Packages
