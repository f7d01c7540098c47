-- ===== src/Trials.antt =====
-- The programs of mwait_barrier/ that try the barriers and the notifications in loops of work.
pub mod Interface
pub mod Pair
pub mod Lockstep
pub mod Mwait
pub mod Sense
pub mod Halting
pub mod SpinHalt
pub mod Main
pub mod TwoPackages
