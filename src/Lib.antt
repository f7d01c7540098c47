-- ===== src/Lib.antt =====
-- htsynch: synchronisation of two threads on the contexts of one hyper-threaded processor, by spin
-- locks, spin barriers and the MONITOR and MWAIT instructions.
--
-- The program's parts. mwait_barrier/synch.h holds spin locks in inline assembly, loops that wait
-- for a variable, and a sense-reversing barrier; kernel_monitor_user_notification_with_mmap/spin.c
-- and spin.h are an older set of the same. The kernel patches (mwmon-2.6.13.1-twopackages.patch and
-- its two siblings) add system calls that sleep in MWAIT until a watched byte is set to a notified
-- value. mwait_barrier/mwait_barrier.c builds a barrier of a lock, a count and such a call.
-- mwait_barrier/btimer_rdtsc32.h and btimer_rdtsc64.h time programs by the cycle counter. In the
-- three directories named for it, programs try the system calls: one thread sleeps, and another
-- notifies it, over memory of the kernel, of the process, or of the driver in kmem_mapper_module.
--
-- Which file models which part:
-- - Asm: the instructions of the inline assembly, one step each, on one memory operand, the
--   registers and the flags that matter. A label of the assembly is the index of an instruction.
-- - Atomic: `atomic_inc` and `atomic_dec_and_test` of synch.h.
-- - SpinLock/Code: `spin_lock`, `spin_lock_fast` and `spin_lock_cas` of synch.h, and of spin.c
--   `spin_lock` (here `spin_lock_xchg`, with `spin_unlock_xchg`) and `spin_lock_v2`, and SPIN_LOCK of spin.h.
--   SpinLock/System runs any number of threads that take, hold and give back one lock, an
--   instruction at a time in any order. SpinLock/Interface says what a lock has to show of one
--   instruction, SpinLock/Invariant what follows, and SpinLock/{Plain,Fast,VersionTwo,Exchange}
--   show it of each lock. SpinLock/Safety and SpinLock/Progress gather the six, and
--   SpinLock/Owner says what they are as one abstract lock. SpinLock/Buffers adds store buffers,
--   SpinLock/{Lag,Serial} relate its runs to those without, and SpinLock/Buffered is about the locks.
-- - SpinLoop/Code: the loops `spin_on_condition...` of synch.h and the macros SPIN_ON_CONDITION...
--   of spin.h (here `macro_on_condition...`), run in SpinLoop/Run against a variable that others
--   change: a function gives what each read finds.
-- - SenseBarrier: `spin_barrier_t`, `spin_barrier_init` and `spin_barrier_lsense` of synch.h with
--   any number of threads; SenseBarrier/Halting its two variants that halt the processor, with
--   interrupts and `sys_cpu_halt`. What the `ioctl` of the second interrupts is a parameter.
--   SenseBarrier/Buffers has the barrier with store buffers, SenseBarrier/{Ahead,Buffered} relate it
--   to the one without.
-- - Monitor: kernel/cpu_controls.c in mwmon-2.6.13.1-twopackages.patch. Monitor/Defs has the loop
--   that `sys_mwmon_mmap_sleep`, `sys_mwmon_mmap_sleep2`, `sys_mwmon_user_sleep` and
--   `sys_mwmon_kernel_sleep` share, Monitor/Counter `sys_mwmon_mmap_spin_while_greater`, and
--   Monitor/Kernel the memory of the kernel calls. What `kmalloc` returns is a parameter.
-- - MwaitBarrier: `mwait_barrier` of mwait_barrier.c with the two threads that the source assumes,
--   the lock, the system call and interrupts included, and their processors' armed monitors; in
--   MwaitBarrier/Packages also `mwait_barrier2`, for the second package, beside it.
-- - Timer: Timer/Narrow the timer of btimer_rdtsc32.h, on pairs of words, Timer/Wide that of
--   btimer_rdtsc64.h; Timer/Reports has the totals and averages of both, with the operations of
--   the type `double` as a parameter, Timer/Doubles; Timer/Hz is `read_hz`, over
--   what the C library returns.
-- - Syscall: the stubs of mwait_barrier/syscall_macros.h, in Syscall/Long for 64 bits and in
--   Syscall/Int80 for 32, and in Syscall/Numbers the numbers and stubs of cpu_control_syscalls.c
--   and the kernels' tables. What the kernel does with the registers is a parameter.
-- - Cpu: mwait_barrier/cpu.c and cpu.h, the machines and `get_pkid` in Cpu/Machines, the sets of
--   processors and the affinity calls in Cpu/Affinity; Cpu/Older is cpu.c of the other directories.
-- - KmemMapper: kmem_mapper_module/kmem_mapper.c, the driver that shares the page. What the
--   kernel's allocation and registration return is a parameter. KmemMapper/Pages is
--   `virt_to_kseg`, over what the page tables hold. KmemMapper/Check is kmem_mapper_test.c, and Syscall/Halt test_hlt.c.
-- - LockedBarrier: `spin_barrier_lsense` of spin.c and the macros SPIN_BARRIER_LSENSE... of spin.h,
--   with any number of threads, each call of a thread being of any of them. What the driver does with
--   the `ioctl` of the halting macros is not in the source: a step is its return, and none need come.
--   LockedBarrier/Buffers has the barrier with store buffers, LockedBarrier/{Path,Buffered} relate it
--   to the one without.
-- - PlainBarrier: `spin_barrier` of synch.h and spin.c, without a sense, with two threads.
-- - Barrier: Barrier/Spec is an abstract barrier, which only counts arrivals and departures, and
--   Barrier/Sense, Barrier/Locked, Barrier/Mwait and, with store buffers, Barrier/Buffered and
--   Barrier/Delayed relate the barriers to it.
-- - Demo: the programs thread_test_umon_unot.c, thread_test_kmon_knot.c, thread_test_kmon_unot.c and
--   thread_test_kmon_unot_2regions.c and notify_memory.c. Demo/Threads has the steps that their
--   threads share, Demo/{KmonKnot,UmonUnot,KmonUnot,TwoRegions,Device} each program's own, with
--   `main`, and Demo/Programs runs their pairs of threads; Demo/Regions runs the four threads of the
--   last program, with the barrier at which they meet. Demo/Counting has the loops behind the
--   barrier, in which the notifier counts in the shared page.
-- - Trials: test_barriers.c and test_barriers_2packages.c of mwait_barrier. Trials/Pair has the loops
--   of `heavy` and `light` over the interface of Trials/Interface, which Trials/Mwait fills with
--   `mwait_barrier`, Trials/Sense with `spin_barrier_lsense` and Trials/SpinHalt with
--   `spin_barrier_lsense_cpuhalt_sendIPI`; Trials/TwoPackages has the four
--   threads of the second program and Trials/Main both `main`s.
-- - Primitives: mwait_barrier/test_primitives.c. Primitives/Rows has the loops of `heavy` and `light`
--   over the interface of Primitives/Signal, which Primitives/Builds fills for the builds SPINPAUSE,
--   SPINHALT and MWMON; Primitives/Main has `main`.
-- - Base: shared names, Boolean tests, words of 32 bits, bits, and families indexed by numbers;
--   Base/Moved has what the three proofs on store buffers share.
-- - Tests: runs on concrete inputs.
--
-- How the model stands to the code. A step of a thread makes at most one access to shared memory,
-- and the steps of the threads interleave in any order. Memory is sequentially consistent, but in
-- SpinLock/Buffers, SenseBarrier/Buffers and LockedBarrier/Buffers, where each processor has a store
-- buffer as on x86. Words wrap at 2 ^ 32 (2 ^ 64 where the code
-- compares quadwords). What a system call inside a waiting loop does is a parameter, `kernel`. In
-- MwaitBarrier `++barrier->gathered`, which the code does without a lock prefix, is one step;
-- `exclusive` is why this loses nothing. The counts `arrived` and `left` of a thread are not
-- in the code, and nothing depends on them.
--
-- Bounds and fuel. The locks that count with `decl` have fewer than 2 ^ 31 threads, as the count of
-- failed attempts has to fit in 31 bits; so has the barrier, whose count is an `int`. A waiting
-- loop runs on fuel, a unit an instruction: six a read are enough, as no round has more.
--
-- Not modelled: of the programs in Trials and Primitives the products of matrices, the timers and the
-- messages; of the programs in Demo all printing; test_mwait.c, which does nothing after its one MWAIT;
-- results and scripts; of the timers the printing and `read_nr_cpus` and
-- `read_nr_siblings`, which run commands and parse what the kernel prints; the build files of the
-- patches. The copies of a file in several directories have one model.
pub mod Base
pub mod Asm
pub mod Atomic
pub mod SpinLock
pub mod SpinLoop
pub mod SenseBarrier
pub mod Monitor
pub mod MwaitBarrier
pub mod LockedBarrier
pub mod PlainBarrier
pub mod Barrier
pub mod Timer
pub mod Syscall
pub mod Cpu
pub mod KmemMapper
pub mod Demo
pub mod Trials
pub mod Primitives
pub mod Tests
