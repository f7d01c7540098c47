-- ===== src/Trials/Main.antt =====
-- `main` of mwait_barrier/test_barriers.c and test_barriers_2packages.c up to the start of the
-- threads, after the arguments have been read. Messages and timers are left out.
use htsynch.Base.{ℕ, ◌+◌, get_elem?, Option, none, some}
use htsynch.Cpu.Machines.{Cpus}
use htsynch.Cpu.Affinity.{my_cpu_set, my_cpu_zero}
use htsynch.Demo.Device.{map_device}

-- SPINPAUSE, SPINHALT, MWMON and PTHREAD
pub data Build : Type 0 where
  spinpause spinhalt mwmon pthread : Build

-- `cpus.pk[i].sib[j].cpu_number`; what an initialiser does not name is zero.
abbrev pub cpu_number : Cpus → ℕ → ℕ → ℕ
cpu_number c i j = elim (get_elem? c.pk i) [
  | none ↦ 0
  | some p ↦ elim (get_elem? p.sib j) [ none ↦ 0 | some k ↦ k ]
]

abbrev cpuset : Cpus → ℕ → ℕ → Option ℕ
cpuset c i j = my_cpu_set (cpu_number c i j) my_cpu_zero

-- What the build opens: with SPINHALT the file /dev/cpuctrl, with MWMON the device, of which the
-- address is kept. The process exits if that fails.
pub data Opened : Type 0 where
  nothing exited : Opened
  cpuctrl : ℕ → Opened
  area : ℕ → Opened

-- `opened_cpuctrl` and `opened` are what the calls of `open` return, `none` for a negative result;
-- `mmap` and `page` are as for the other programs with the device.
abbrev pub open_devices : Build → Option ℕ → Option ℕ → (ℕ → ℕ → ℕ → Option ℕ) → ℕ → Opened
open_devices spinhalt opened_cpuctrl opened mmap page = elim opened_cpuctrl [
  | none ↦ exited
  | some fd ↦ cpuctrl fd
]
open_devices mwmon opened_cpuctrl opened mmap page = elim (map_device opened mmap page) [
  | none ↦ exited
  | some a ↦ area a
]
open_devices _ opened_cpuctrl opened mmap page = nothing

-- What the threads of test_barriers.c are given.
pub record Setup : Type 0 where
  pub cpuset0 : Option ℕ
  pub cpuset1 : Option ℕ
  pub devices : Opened

abbrev pub main : Build → Cpus → Option ℕ → Option ℕ → (ℕ → ℕ → ℕ → Option ℕ) → ℕ → Setup
main build cpus opened_cpuctrl opened mmap page = record {
  cpuset0 = cpuset cpus 0 0;
  cpuset1 = cpuset cpus 0 1;
  devices = open_devices build opened_cpuctrl opened mmap page;
}

abbrev pub monitored_regions_distance : ℕ
monitored_regions_distance = 512

-- And those of test_barriers_2packages.c; `area2` is `mmapped_device_memory2`.
pub record SetupPackages : Type 0 where
  pub cpuset0 : Option ℕ
  pub cpuset1 : Option ℕ
  pub cpuset2 : Option ℕ
  pub cpuset3 : Option ℕ
  pub devices : Opened
  pub area2 : Option ℕ

abbrev second_area : Opened → Option ℕ
second_area (area a) = some (a + monitored_regions_distance)
second_area _ = none

abbrev pub main_packages :
    Build → Cpus → Option ℕ → Option ℕ → (ℕ → ℕ → ℕ → Option ℕ) → ℕ → SetupPackages
main_packages build cpus opened_cpuctrl opened mmap page =
    let devices = open_devices build opened_cpuctrl opened mmap page in
    record {
      cpuset0 = cpuset cpus 0 0;
      cpuset1 = cpuset cpus 0 1;
      cpuset2 = cpuset cpus 1 0;
      cpuset3 = cpuset cpus 1 1;
      devices = devices;
      area2 = second_area devices;
    }
