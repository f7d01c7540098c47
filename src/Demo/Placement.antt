-- ===== src/Demo/Placement.antt =====
-- What the thread functions do before their loops: each puts one processor into its set.
use htsynch.Base.{ℕ, Option, none, some}
use htsynch.Cpu.Older.{Cpus, cpu_number, my_cpu_zero, my_cpu_set}

-- MY_CPU_ZERO and MY_CPU_SET with `cpus.pk[i].sib[j].cpu_number`.
abbrev pub cpuset : Cpus → ℕ → ℕ → Option ℕ
cpuset c i j = elim (cpu_number c i j) [ none ↦ none | some cpu_no ↦ my_cpu_set cpu_no my_cpu_zero ]
