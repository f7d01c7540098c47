-- ===== src/Cpu/Older.antt =====
-- cpu.h and cpu.c of kernel_monitor_kernel_notification, which user_monitor_user_notification and
-- kernel_monitor_user_notification_with_mmap have copies of: older than those of mwait_barrier, with
-- no id in a package and with affinity calls that return on an error.
use Prim.Native.Nat.{bit_and, bit_or}
use htsynch.Base.{
  ℕ, ◌%◌, ◌^◌, ◌≡◌, ltb, ◌==◌, not, Bool, true, false, if◌then◌else◌, List, [], ◌∷◌, Option, none,
  some, get_elem?, arith,
}
use htsynch.Syscall.Long
use htsynch.Cpu.Machines.{Machine, xeon, core, coresingle, amd, p6}

-- `package_t`: the members of `sib` and their number.
pub record Package : Type 0 where
  pub sib : List ℕ
  pub nsiblings : ℕ

-- `cpus_t`
pub record Cpus : Type 0 where
  pub pk : List Package
  pub npackages : ℕ

-- What an initialiser does not name is zero.
abbrev no_package : Package
no_package = record { nsiblings = 0; sib = 0 ∷ 0 ∷ [] }

abbrev pub cpus_xeon : Cpus
cpus_xeon = record {
  npackages = 2;
  pk = record { nsiblings = 2; sib = 0 ∷ 2 ∷ [] } ∷ record { nsiblings = 2; sib = 1 ∷ 3 ∷ [] } ∷ [];
}

abbrev pub cpus_core : Cpus
cpus_core = record {
  npackages = 2;
  pk = record { nsiblings = 2; sib = 0 ∷ 1 ∷ [] } ∷ record { nsiblings = 2; sib = 2 ∷ 3 ∷ [] } ∷ [];
}

abbrev pub cpus_core_single : Cpus
cpus_core_single = record {
  npackages = 1;
  pk = record { nsiblings = 2; sib = 0 ∷ 1 ∷ [] } ∷ no_package ∷ [];
}

abbrev pub cpus_amd : Cpus
cpus_amd = record {
  npackages = 2;
  pk = record { nsiblings = 2; sib = 0 ∷ 1 ∷ [] } ∷ record { nsiblings = 2; sib = 2 ∷ 3 ∷ [] } ∷ [];
}

abbrev pub cpus_p6 : Cpus
cpus_p6 = record {
  npackages = 2;
  pk = record { nsiblings = 1; sib = 0 ∷ 0 ∷ [] } ∷ record { nsiblings = 1; sib = 1 ∷ 0 ∷ [] } ∷ [];
}

abbrev pub cpus : Machine → Cpus
cpus xeon = cpus_xeon
cpus core = cpus_core
cpus coresingle = cpus_core_single
cpus amd = cpus_amd
cpus p6 = cpus_p6

-- `cpus.pk[i].sib[j].cpu_number`, `none` past the members.
abbrev pub cpu_number : Cpus → ℕ → ℕ → Option ℕ
cpu_number c i j = elim (get_elem? c.pk i) [ none ↦ none | some p ↦ get_elem? p.sib j ]

abbrev pub my_cpu_zero : ℕ
my_cpu_zero = 0

-- `1<<cpu_no` is an `int`; `none` where C does not define it.
abbrev pub my_cpu_set : ℕ → ℕ → Option ℕ
my_cpu_set cpu_no cpuset = if ltb cpu_no 31 then some (bit_or cpuset (2 ^ cpu_no)) else none

-- The shift is that of an `unsigned long`, of which the value keeps the low 32 bits, an `int`.
abbrev pub my_cpu_isset : ℕ → ℕ → Option ℕ
my_cpu_isset cpu_no cpuset =
    if ltb cpu_no 64 then some (bit_and (2 ^ cpu_no) cpuset % 2 ^ 32) else none

-- `number` is that of the call, `cpuset` an address.
module _ (kernel : Long.Regs → ℕ) (before : Long.Regs) (errno number : ℕ) where
  abbrev pub my_sched_setaffinity : ℕ → ℕ → ℕ → Long.Result
  my_sched_setaffinity pid cpuset_size cpuset =
      Long.syscall3 kernel before errno number pid (cpuset_size % 2 ^ 32) cpuset

  abbrev pub my_sched_getaffinity : ℕ → ℕ → ℕ → Long.Result
  my_sched_getaffinity pid cpuset_size cpuset =
      Long.syscall3 kernel before errno number pid (cpuset_size % 2 ^ 32) cpuset

-- Two optional numbers are both given, and differ.
abbrev pub differ : Option ℕ → Option ℕ → Bool
differ (some a) (some b) = not (a == b)
differ _ _ = false

abbrev is_p6 : Machine → Bool
is_p6 p6 = true
is_p6 _ = false

-- The threads of a program with one pair get processors of their own on every machine but that of
-- CPU_P6, whose packages list one.
pub pair-differ :
    (m : Machine) → differ (cpu_number (cpus m) 0 0) (cpu_number (cpus m) 0 1) ≡ not (is_p6 m)
pair-differ m = ground arith
