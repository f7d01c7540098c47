-- ===== src/Tests.antt =====
-- Runs on concrete inputs of the code that the other modules are about.
mod Locks
mod Loops
mod Barriers
mod Sleeping
mod Timers
mod Stubs
mod Processors
mod Driver
mod Demos
mod Trials
mod Counting
mod Buffers
