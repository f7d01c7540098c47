-- ===== src/Monitor.antt =====
-- MONITOR/MWAIT: the sleeping system calls of the kernel patch and the stores that wake them.
pub mod Defs
pub mod Laws
pub mod Counter
pub mod Kernel
