-- ===== src/SpinLock.antt =====
-- The spin locks: their code, n threads that contend for one, and what each lock guarantees.
pub mod Code
pub mod System
pub mod Interface
pub mod Invariant
mod Decrement
mod Plain
mod VersionTwo
mod Fast
mod Exchange
pub mod Safety
pub mod Progress
pub mod Buffers
pub mod Lag
pub mod Serial
pub mod Buffered
pub mod Owner
