-- ===== src/Barrier.antt =====
-- What a barrier promises, and that the barriers with a local sense and `mwait_barrier` keep it.
pub mod Spec
pub mod Sense
pub mod Locked
pub mod Mwait
pub mod Buffered
pub mod Delayed
