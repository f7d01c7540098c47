-- ===== src/MwaitBarrier/Packages.antt =====
-- `mwait_barrier` and `mwait_barrier2` of mwait_barrier/mwait_barrier.c side by side: two threads
-- on each of two packages, over two barriers, two bytes and two lines of memory.
use htsynch.Base.{◌+◌, ◌≤◌}
use htsynch.MwaitBarrier.Defs.{
  act_at, System, init, mwait_barrier, interrupt, swap, Reach, start, step, interrupted, swapped,
}
use htsynch.MwaitBarrier.Safety.{Blocked, separate, never_both-Blocked}

-- One step of `mwait_barrier2` by the thread `me` of the second package; its byte is the one that
-- `mmapped_device_memory2` points to, which `sys_mwmon_mmap_sleep2` watches.
unfoldable pub mwait_barrier2 : System → System
mwait_barrier2 s = act_at s.me.pc s.barrier s.byte s.me s.other

-- The two packages. A store to one byte lies on another line than the other byte, so it leaves the
-- processors of the other package armed.
pub record Packages : Type 0 where
  pub first : System
  pub second : System

-- What the four threads can do from the initial state, in any order.
pub data ReachPackages : Packages → Type 0 where
  begin : ReachPackages (record { first = init; second = init })
  step_first :
      {p : Packages} → ReachPackages p → ReachPackages (record p { first = mwait_barrier p.first })
  step_second :
      {p : Packages}
      → ReachPackages p
      → ReachPackages (record p { second = mwait_barrier2 p.second })
  interrupt_first :
      {p : Packages} → ReachPackages p → ReachPackages (record p { first = interrupt p.first })
  interrupt_second :
      {p : Packages} → ReachPackages p → ReachPackages (record p { second = interrupt p.second })
  swap_first : {p : Packages} → ReachPackages p → ReachPackages (record p { first = swap p.first })
  swap_second :
      {p : Packages} → ReachPackages p → ReachPackages (record p { second = swap p.second })

-- `mwait_barrier2` makes the steps of `mwait_barrier`.
step2 : {s : System} → Reach s → Reach (mwait_barrier2 s)
unfolding mwait_barrier2
step2 r = unfold mwait_barrier in step r

ReachPackages-Reach : {p : Packages} → ReachPackages p → Reach p.first × Reach p.second
ReachPackages-Reach begin = (start, start)
ReachPackages-Reach (step_first r) = let (a, b) = ReachPackages-Reach r in (step a, b)
ReachPackages-Reach (step_second r) = let (a, b) = ReachPackages-Reach r in (a, step2 b)
ReachPackages-Reach (interrupt_first r) = let (a, b) = ReachPackages-Reach r in (interrupted a, b)
ReachPackages-Reach (interrupt_second r) = let (a, b) = ReachPackages-Reach r in (a, interrupted b)
ReachPackages-Reach (swap_first r) = let (a, b) = ReachPackages-Reach r in (swapped a, b)
ReachPackages-Reach (swap_second r) = let (a, b) = ReachPackages-Reach r in (a, swapped b)

abbrev pub Separate : System → Type 0
Separate s =
    (s.me.left ≤ s.other.arrived)
    × (s.other.left ≤ s.me.arrived)
    × (s.me.arrived ≤ s.other.arrived + 1)

-- Whatever the interleaving of four threads, two in `mwait_barrier` and two in `mwait_barrier2`,
-- on neither package has a thread returned from more calls than its partner has arrived at, nor is
-- it more than one arrival ahead, nor are both threads of the package blocked.
pub packages-Separate :
    (p : Packages)
    → ReachPackages p
    → Separate p.first
      × Separate p.second
      × ¬ (Blocked p.first.barrier p.first.me × Blocked p.first.barrier p.first.other)
      × ¬ (Blocked p.second.barrier p.second.me × Blocked p.second.barrier p.second.other)
packages-Separate p r =
    let (a, b) = ReachPackages-Reach r in
    (
      separate p.first a,
      separate p.second b,
      λ (x, y). never_both-Blocked p.first a x y,
      λ (x, y). never_both-Blocked p.second b x y,
    )
