-- ===== src/Syscall.antt =====
-- mwait_barrier/syscall_macros.h and cpu_control_syscalls.c: the stubs of the system calls.
pub mod Long
pub mod Int80
pub mod Numbers
pub mod Laws
pub mod Halt
