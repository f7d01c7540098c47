-- ===== src/LockedBarrier.antt =====
-- The barrier with a local sense of kernel_monitor_user_notification_with_mmap/{spin.c,spin.h},
-- which counts the arrivals under its lock.
pub mod Defs
pub mod Invariant
pub mod Safety
pub mod Progress
pub mod Buffers
pub mod Counts
pub mod Path
pub mod Buffered
