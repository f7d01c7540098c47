-- ===== src/SenseBarrier.antt =====
-- The sense-reversing barrier of mwait_barrier/synch.h: what n threads that pass through it do,
-- that it never lets a thread through early, and a race by which it can stop for ever.
pub mod Defs
pub mod Invariant
pub mod Safety
pub mod Race
pub mod Halting
pub mod Halted
pub mod Buffers
pub mod Ahead
pub mod Buffered
pub mod Counts
