-- ===== src/SenseBarrier/Halting.antt =====
-- `spin_barrier_lsense_cpuhalt` and `spin_barrier_lsense_cpuhalt_sendIPI` (here `..._send_ipi`) of
-- synch.h: between two reads of the flag a waiting thread halts its processor with `sys_cpu_halt` of
-- the kernel patch, until an interrupt comes, and the second sends interrupts when it has released
-- the others. The driver behind the `ioctl` is a parameter: `wakes i j` says whether the call of
-- thread `i` interrupts the processor of thread `j`.
use htsynch.Base.{ℕ, ◌+◌, ◌<◌, ◌==◌, if◌then◌else◌, Bool, true, false, update, inc32}
use htsynch.SenseBarrier.Defs
use htsynch.SenseBarrier.Defs.{Pc, SpinBarrier, spin_barrier_init, flip}

-- Whether a thread runs, is in the system call before the instruction `hlt`, is halted, or is before
-- the `ioctl`.
pub data Mode : Type 0 where
  running halting halted sending : Mode

-- `core` is the thread as `spin_barrier_lsense` has it; with `sending` its return, which `core`
-- counts, is still to come.
pub record Thread : Type 0 where
  pub core : Defs.Thread
  pub mode : Mode

pub record System : Type 0 where
  pub barrier : SpinBarrier
  pub threads : ℕ → Thread

abbrev pub init : ℕ → System
init n = record {
  barrier = spin_barrier_init n;
  threads = λ i. record { core = (Defs.init n).threads i; mode = running };
}

-- `core` after its return.
abbrev leave : Defs.Thread → Defs.Thread
leave c = record c { pc = Pc.outside; left = c.left + 1 }

-- A step of the system code by a thread, from `outside` the start of the next call, and what it
-- leaves of the barrier and the thread: both functions, `ipi` for the second of them. The rounds of
-- `spin_on_condition_cpuhalt` have the system call before the test.
abbrev pub act_at : Bool → Mode → Pc → SpinBarrier → Defs.Thread → SpinBarrier × Thread
act_at ipi running Pc.outside sb c =
    (sb, record { core = record c { pc = Pc.flipped; lsense = flip c.lsense }; mode = running })
act_at ipi running Pc.flipped sb c = (
  record sb { current_count = inc32 sb.current_count },
  record { core = record c { pc = Pc.counted; arrived = c.arrived + 1 }; mode = running },
)
act_at ipi running Pc.counted sb c = (
  sb,
  record {
    core = record c { pc = if sb.current_count == sb.nthreads then Pc.last else Pc.waiting };
    mode = running;
  },
)
act_at ipi running Pc.last sb c = (
  record sb { current_count = 0 },
  record { core = record c { pc = Pc.publish }; mode = running },
)
act_at ipi running Pc.publish sb c = (
  record sb { release_flag = c.lsense },
  record { core = leave c; mode = if ipi then sending else running },
)
act_at ipi running Pc.waiting sb c = (
  sb,
  if sb.release_flag == c.lsense
      then record { core = leave c; mode = running }
      else record { core = c; mode = halting },
)
act_at ipi halting p sb c = (sb, record { core = c; mode = halted })
act_at ipi halted p sb c = (sb, record { core = c; mode = halted })
act_at ipi sending p sb c = (sb, record { core = c; mode = running })

-- An interrupt ends a halt, and nothing else.
abbrev pub woken : Bool → Mode → Mode
woken true halted = running
woken b m = m

abbrev pub waken : Bool → Thread → Thread
waken b t = record t { mode = woken b t.mode }

-- Which threads a step interrupts: those that the `ioctl` does.
abbrev pub interrupts : (ℕ → ℕ → Bool) → Mode → ℕ → ℕ → Bool
interrupts wakes sending i j = wakes i j
interrupts wakes m i j = false

abbrev pub turn_at : (ℕ → ℕ → Bool) → Bool → Mode → System → ℕ → System
turn_at wakes ipi m s i =
    let c = (s.threads i).core in
    let r = act_at ipi m c.pc s.barrier c in
    record {
      barrier = r.0;
      threads = λ j. waken (interrupts wakes m i j) (update s.threads i r.1 j);
    }

abbrev pub spin_barrier_lsense_cpuhalt : (ℕ → ℕ → Bool) → System → ℕ → System
spin_barrier_lsense_cpuhalt wakes s i = turn_at wakes false (s.threads i).mode s i

abbrev pub spin_barrier_lsense_cpuhalt_send_ipi : (ℕ → ℕ → Bool) → System → ℕ → System
spin_barrier_lsense_cpuhalt_send_ipi wakes s i = turn_at wakes true (s.threads i).mode s i

abbrev pub turn : (ℕ → ℕ → Bool) → Bool → System → ℕ → System
turn wakes false s i = spin_barrier_lsense_cpuhalt wakes s i
turn wakes true s i = spin_barrier_lsense_cpuhalt_send_ipi wakes s i

-- An interrupt of the processor of thread `i`.
abbrev pub interrupt : System → ℕ → System
interrupt s i = record s { threads = update s.threads i (waken true (s.threads i)) }

-- What the interleavings of `n` threads and interrupts lead to, each step being of either function.
pub data Reach (wakes : ℕ → ℕ → Bool) (n : ℕ) : System → Type 0 where
  start : Reach wakes n (init n)
  later :
      {s : System}
      → Reach wakes n s
      → (ipi : Bool) (i : ℕ) → i < n
      → Reach wakes n (turn wakes ipi s i)
  interrupted : {s : System} → Reach wakes n s → (i : ℕ) → i < n → Reach wakes n (interrupt s i)
