-- ===== src/Tests/Processors.antt =====
-- The packages of one machine, and sets of processors.
use htsynch.Base.{ℕ, zero, suc, ◌≡◌, ◌≤◌, refl, some, get_elem?, length, arith}
use htsynch.Cpu.Machines.{Package, cpus_xeon, sibling_loop, package_loop}
use htsynch.Cpu.Packages.{Lists, get_pkid-Answers}
use htsynch.Cpu.Affinity.{my_cpu_set, my_cpu_isset, my_cpu_isset-my_cpu_set, my_cpu_isset_high}

xeon-Counted :
    (m : ℕ) (p : Package) → get_elem? cpus_xeon.pk m ≡ some p → p.nsiblings ≤ length p.sib
xeon-Counted zero p e = ground arith
xeon-Counted (suc zero) p e = ground arith
xeon-Counted (suc (suc m)) p e = cc

get_pkid-Answers_example : Lists 3 cpus_xeon.pk 0 2 1
unfolding sibling_loop package_loop
get_pkid-Answers_example = get_pkid-Answers 3 cpus_xeon xeon-Counted

my_cpu_isset-my_cpu_set_example : my_cpu_isset 3 13 ≡ some 8
unfolding my_cpu_set
my_cpu_isset-my_cpu_set_example = my_cpu_isset-my_cpu_set 3 3 5 13 refl (omega arith)

my_cpu_isset_high_example : my_cpu_isset 32 4294967296 ≡ some 0
my_cpu_isset_high_example = my_cpu_isset_high 32 4294967296 (omega arith) (omega arith)
