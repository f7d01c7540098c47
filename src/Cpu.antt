-- ===== src/Cpu.antt =====
-- mwait_barrier/cpu.h and cpu.c: the machines' packages and the sets of processors.
pub mod Machines
pub mod Packages
pub mod Affinity
pub mod Older
