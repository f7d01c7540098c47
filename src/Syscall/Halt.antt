-- ===== src/Syscall/Halt.antt =====
-- kmem_mapper_module/test_hlt.c: one call of `cpu_halt`, of which the result is printed.
use htsynch.Base.{ℕ, ◌≡◌, refl, some}
use htsynch.Syscall.Long
use htsynch.Syscall.Numbers.{Build, one_package, two_packages, cpu_halt, table, entry_of}

-- __NR_cpu_halt
abbrev pub number_cpu_halt : Build → ℕ
number_cpu_halt one_package = 256
number_cpu_halt two_packages = 286

abbrev pub test_hlt : (Long.Regs → ℕ) → Long.Regs → ℕ → Build → Long.Result
test_hlt kernel before errno b = Long.syscall0 kernel before errno (number_cpu_halt b)

-- The number reaches `cpu_halt` in the kernel that it is for.
pub entry_of-number_cpu_halt : (b : Build) → entry_of (number_cpu_halt b) (table b) ≡ some cpu_halt
entry_of-number_cpu_halt one_package = refl
entry_of-number_cpu_halt two_packages = refl
