-- ===== src/SpinLoop.antt =====
-- The loops that wait until a shared variable meets a condition.
pub mod Code
pub mod Run
pub mod Rounds
pub mod Laws
