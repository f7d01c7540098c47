-- ===== src/Primitives/Main.antt =====
-- `main` of mwait_barrier/test_primitives.c up to the start of the threads, after the argument has
-- been read. Messages, timers and the contents of the matrices are left out.
use htsynch.Base.{ℕ, Bool, if◌then◌else◌, Option, none, some}
use htsynch.Cpu.Machines.{Cpus}
use htsynch.Cpu.Affinity.{my_cpu_set, my_cpu_zero}
use htsynch.Trials.Main.{
  Build, spinpause, spinhalt, Opened, exited, cpuctrl, cpu_number, open_devices,
}
use htsynch.Primitives.Builds.{original_value}

-- `spin_var` is set in the builds that have it; `cpu_to_wakeup` is what the `ioctl` is given.
pub record Setup : Type 0 where
  pub cpuset0 : Option ℕ
  pub cpuset1 : Option ℕ
  pub devices : Opened
  pub cpu_to_wakeup : Option ℕ
  pub spin_var : Option ℕ

abbrev set_spin_var : Build → Option ℕ
set_spin_var spinpause = some original_value
set_spin_var spinhalt = some original_value
set_spin_var _ = none

abbrev told : Opened → ℕ → Option ℕ
told (cpuctrl fd) cpu = some cpu
told _ cpu = none

-- The process exits where the `ioctl` fails.
abbrev checked : Bool → Opened → Opened
checked ok (cpuctrl fd) = if ok then cpuctrl fd else exited
checked ok d = d

-- `ioctl_ok` says whether the `ioctl` succeeds; the other parameters are as for test_barriers.c.
abbrev pub main : Build → Cpus → Option ℕ → Bool → Option ℕ → (ℕ → ℕ → ℕ → Option ℕ) → ℕ → Setup
main build cpus opened_cpuctrl ioctl_ok opened mmap page =
    let devices = open_devices build opened_cpuctrl opened mmap page in
    record {
      cpuset0 = my_cpu_set (cpu_number cpus 0 0) my_cpu_zero;
      cpuset1 = my_cpu_set (cpu_number cpus 0 1) my_cpu_zero;
      devices = checked ioctl_ok devices;
      cpu_to_wakeup = told devices (cpu_number cpus 0 1);
      spin_var = set_spin_var build;
    }
