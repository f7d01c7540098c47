-- ===== src/PlainBarrier.antt =====
-- `spin_barrier` of synch.h and of spin.c, the barrier without a sense.
pub mod Defs
pub mod Race
