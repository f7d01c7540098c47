-- ===== src/Cpu/Machines.antt =====
-- `cpus_t` of mwait_barrier/cpu.h, the machines that cpu.c knows, and `get_pkid`.
use htsynch.Base.{ℕ, zero, suc, ◌==◌, if◌then◌else◌, List, [], ◌∷◌, get_elem?, none, some}

-- `package_t`; `sib` has the members that the machine's configuration gives. `memnode_number` is
-- set where NUMA is defined, and not used.
pub record Package : Type 0 where
  pub sib : List ℕ
  pub nsiblings : ℕ
  pub id : ℕ

-- `cpus_t`
pub record Cpus : Type 0 where
  pub pk : List Package
  pub npackages : ℕ

pub data Machine : Type 0 where
  xeon core coresingle amd p6 : Machine

-- NUM_CPUS
unfoldable pub num_cpus : Machine → ℕ
num_cpus xeon = 4
num_cpus core = 4
num_cpus coresingle = 2
num_cpus amd = 4
num_cpus p6 = 2

abbrev pub cpus_xeon : Cpus
cpus_xeon = record {
  npackages = 2;
  pk =
      record { nsiblings = 2; id = 0; sib = 0 ∷ 2 ∷ [] }
      ∷ record { nsiblings = 2; id = 1; sib = 1 ∷ 3 ∷ [] }
      ∷ [];
}

abbrev pub cpus_core : Cpus
cpus_core = record {
  npackages = 2;
  pk =
      record { nsiblings = 2; id = 0; sib = 0 ∷ 1 ∷ [] }
      ∷ record { nsiblings = 2; id = 1; sib = 2 ∷ 3 ∷ [] }
      ∷ [];
}

abbrev pub cpus_coresingle : Cpus
cpus_coresingle = record {
  npackages = 1;
  pk = record { nsiblings = 2; id = 0; sib = 0 ∷ 1 ∷ [] } ∷ [];
}

abbrev pub cpus_amd : Cpus
cpus_amd = record {
  npackages = 2;
  pk =
      record { nsiblings = 2; id = 0; sib = 0 ∷ 1 ∷ [] }
      ∷ record { nsiblings = 2; id = 1; sib = 2 ∷ 3 ∷ [] }
      ∷ [];
}

abbrev pub cpus_p6 : Cpus
cpus_p6 = record {
  npackages = 2;
  pk =
      record { nsiblings = 1; id = 0; sib = 0 ∷ [] }
      ∷ record { nsiblings = 1; id = 1; sib = 1 ∷ [] }
      ∷ [];
}

abbrev pub cpus : Machine → Cpus
cpus xeon = cpus_xeon
cpus core = cpus_core
cpus coresingle = cpus_coresingle
cpus amd = cpus_amd
cpus p6 = cpus_p6

pub data Search : Type 0 where
  found absent beyond : Search

-- What `get_pkid` returns; `overrun` is a read past the members that are given.
pub data Pkid : Type 0 where
  pkid : ℕ → Pkid
  minus_one overrun : Pkid

-- The inner loop from index `j`, with so many siblings left.
unfoldable pub sibling_loop : ℕ → List ℕ → ℕ → ℕ → Search
sibling_loop cpu sib j zero = absent
sibling_loop cpu sib j (suc left) =
    let rest = sibling_loop cpu sib (suc j) left in
    elim (get_elem? sib j) [ none ↦ beyond | some k ↦ if cpu == k then found else rest ]

-- The outer loop from index `i`.
unfoldable pub package_loop : ℕ → List Package → ℕ → ℕ → Pkid
package_loop cpu pk i zero = minus_one
package_loop cpu pk i (suc left) =
    let rest = package_loop cpu pk (suc i) left in
    elim (get_elem? pk i) [
      | none ↦ overrun
      | some p ↦ elim (sibling_loop cpu p.sib 0 p.nsiblings) [
        | found ↦ pkid p.id
        | absent ↦ rest
        | beyond ↦ overrun
      ]
    ]

abbrev pub get_pkid : ℕ → Cpus → Pkid
get_pkid cpu c = package_loop cpu c.pk 0 c.npackages
