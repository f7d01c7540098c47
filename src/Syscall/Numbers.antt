-- ===== src/Syscall/Numbers.antt =====
-- The numbers of the system calls: those of mwait_barrier/cpu_control_syscalls.c, and those of
-- include/asm-x86_64/unistd.h in the three kernel patches.
use htsynch.Base.{ℕ, ◌≡◌, ◌==◌, if◌then◌else◌, Option, none, some, List, [], ◌∷◌, ◌++◌, arith}

pub data Syscall : Type 0 where
  cpu_halt kernel_init kernel_sleep kernel_notify kernel_finalize user_sleep mmap_sleep mmap_sleep2
        mmap_spin_while_greater :
      Syscall

-- KERNEL_2_6_13_1
unfoldable pub number_2_6_13_1 : Syscall → Option ℕ
number_2_6_13_1 cpu_halt = some 256
number_2_6_13_1 kernel_init = some 257
number_2_6_13_1 kernel_sleep = some 258
number_2_6_13_1 kernel_notify = some 259
number_2_6_13_1 kernel_finalize = some 260
number_2_6_13_1 user_sleep = some 261
number_2_6_13_1 mmap_sleep = some 262
number_2_6_13_1 mmap_sleep2 = none
number_2_6_13_1 mmap_spin_while_greater = some 263

-- KERNEL_2_6_24_2
unfoldable pub number_2_6_24_2 : Syscall → Option ℕ
number_2_6_24_2 cpu_halt = some 286
number_2_6_24_2 mmap_sleep = some 287
number_2_6_24_2 mmap_sleep2 = some 288
number_2_6_24_2 _ = none

-- What a kernel runs for a number, by its table; `none` for the calls that the patch does not add.
abbrev pub entry_of : ℕ → List (ℕ × Syscall) → Option Syscall
entry_of n [] = none
entry_of n ((k, c) ∷ l) = if n == k then some c else entry_of n l

abbrev both_packages : List (ℕ × Syscall)
both_packages =
    (256, cpu_halt)
    ∷ (257, kernel_init)
    ∷ (258, kernel_sleep)
    ∷ (259, kernel_notify)
    ∷ (260, kernel_finalize)
    ∷ (261, user_sleep)
    ∷ (262, mmap_sleep)
    ∷ []

-- mwmon-2.6.13.1-onepackageonly.patch
abbrev pub table_one_package : List (ℕ × Syscall)
table_one_package = both_packages ++ (263, mmap_spin_while_greater) ∷ []

-- mwmon-2.6.13.1-twopackages.patch
abbrev pub table_two_packages : List (ℕ × Syscall)
table_two_packages = both_packages ++ (263, mmap_sleep2) ∷ (264, mmap_spin_while_greater) ∷ []

-- mwmon-2.6.24.2-twopackages.patch
abbrev pub table_2_6_24_2 : List (ℕ × Syscall)
table_2_6_24_2 = (286, cpu_halt) ∷ (287, mmap_sleep) ∷ (288, mmap_sleep2) ∷ []

-- The programs and the kernels that they are built for.
pub data Build : Type 0 where
  one_package two_packages : Build

abbrev pub number : Build → Syscall → Option ℕ
number one_package = number_2_6_13_1
number two_packages = number_2_6_24_2

abbrev pub table : Build → List (ℕ × Syscall)
table one_package = table_one_package
table two_packages = table_2_6_24_2

-- A stub's number is that of its call in the kernel it is built for: the 2.6.13.1 kernel for one
-- package with KERNEL_2_6_13_1, the 2.6.24.2 kernel with KERNEL_2_6_24_2.
pub entry_of-number :
    (b : Build) (c : Syscall) (n : ℕ) → number b c ≡ some n → entry_of n (table b) ≡ some c
unfolding number_2_6_13_1 number_2_6_24_2
entry_of-number one_package c n e = ground arith
entry_of-number two_packages c n e = ground arith

-- What a call of a program built with KERNEL_2_6_13_1 runs in the 2.6.13.1 kernel for two packages.
abbrev pub reached : Syscall → Syscall
reached mmap_spin_while_greater = mmap_sleep2
reached c = c

-- In the 2.6.13.1 kernel for two packages the numbers of KERNEL_2_6_13_1 reach their calls, but for
-- that of `mwmon_mmap_spin_while_greater`, which reaches `mwmon_mmap_sleep2`.
pub entry_of-reached :
    (c : Syscall) (n : ℕ)
    → number_2_6_13_1 c ≡ some n
    → entry_of n table_two_packages ≡ some (reached c)
unfolding number_2_6_13_1
entry_of-reached c n e = ground arith

-- The stubs that cpu_control_syscalls.c makes, with the number of their arguments.
unfoldable pub stub_arity : Build → Syscall → Option ℕ
stub_arity two_packages cpu_halt = some 0
stub_arity two_packages mmap_sleep = some 0
stub_arity two_packages mmap_sleep2 = some 0
stub_arity one_package cpu_halt = some 0
stub_arity one_package mmap_sleep = some 0
stub_arity one_package kernel_init = some 0
stub_arity one_package kernel_sleep = some 0
stub_arity one_package kernel_notify = some 0
stub_arity one_package kernel_finalize = some 0
stub_arity one_package user_sleep = some 1
stub_arity one_package mmap_spin_while_greater = some 1
stub_arity _ _ = none

-- The fast stubs.
unfoldable pub fast_stub_arity : Build → Syscall → Option ℕ
fast_stub_arity two_packages cpu_halt = some 0
fast_stub_arity two_packages mmap_sleep = some 0
fast_stub_arity two_packages mmap_sleep2 = some 0
fast_stub_arity one_package cpu_halt = some 0
fast_stub_arity one_package mmap_sleep = some 0
fast_stub_arity one_package kernel_init = some 0
fast_stub_arity one_package kernel_sleep = some 0
fast_stub_arity one_package kernel_notify = some 0
fast_stub_arity one_package kernel_finalize = some 0
fast_stub_arity one_package user_sleep = some 1
fast_stub_arity one_package mmap_spin_while_greater = some 1
fast_stub_arity _ _ = none

-- The parameters that the kernel's functions take.
abbrev pub sys_arity : Syscall → ℕ
sys_arity user_sleep = 1
sys_arity mmap_spin_while_greater = 1
sys_arity _ = 0

-- Each call with a number has a stub and a fast stub, which pass as many arguments as the kernel's
-- function takes.
pub stub_arity-number :
    (b : Build) (c : Syscall) (n : ℕ)
    → number b c ≡ some n
    → (stub_arity b c ≡ some (sys_arity c)) × (fast_stub_arity b c ≡ some (sys_arity c))
unfolding number_2_6_13_1 number_2_6_24_2 stub_arity fast_stub_arity
stub_arity-number one_package c n e = ground arith
stub_arity-number two_packages c n e = ground arith
