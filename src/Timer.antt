-- ===== src/Timer.antt =====
-- The cycle timers of mwait_barrier/btimer_rdtsc64.h and btimer_rdtsc32.h.
pub mod Wide
pub mod Narrow
pub mod Laws
pub mod Doubles
pub mod Reports
pub mod Hz
