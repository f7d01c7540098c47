-- ===== src/Demo.antt =====
-- The programs that try the sleeping system calls: one thread sleeps, another notifies it.
pub mod Threads
pub mod Placement
pub mod Device
pub mod KmonKnot
pub mod UmonUnot
pub mod KmonUnot
pub mod TwoRegions
pub mod Programs
pub mod Invariant
pub mod Progress
pub mod Laws
pub mod Regions
pub mod Counting
pub mod Counted
pub mod CountingProgress
