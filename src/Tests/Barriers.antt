-- ===== src/Tests/Barriers.antt =====
-- Threads that run through the barriers in a given order.
mod Sense
mod Mwait
mod Locked
mod Plain
mod Halting
mod Buffers
mod Delayed
