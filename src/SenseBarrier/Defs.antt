-- ===== src/SenseBarrier/Defs.antt =====
-- `spin_barrier_t`, `spin_barrier_init` and `spin_barrier_lsense` of mwait_barrier/synch.h. A
-- thread makes one access to the shared fields a step. The two variants with a halt differ only
-- in what the processor does between two reads of `release_flag`, and run through the same steps.
use htsynch.Base.{ℕ, ◌+◌, ◌<◌, ◌==◌, inc32, if◌then◌else◌, update}

pub record SpinBarrier : Type 0 where
  pub release_flag : ℕ
  pub current_count : ℕ
  pub nthreads : ℕ

-- The lock is initialised with the rest, and `spin_barrier_lsense` does not use it.
abbrev pub spin_barrier_init : ℕ → SpinBarrier
spin_barrier_init n = record { release_flag = 1; current_count = 0; nthreads = n }

abbrev pub spin_barrier_init_lsense : ℕ
spin_barrier_init_lsense = 1

-- Where a thread stands: `flipped` is before the increment, `counted` before the comparison of the
-- count, `last` before the reset of the count, `publish` before the store to `release_flag`, and
-- `waiting` in `spin_on_condition`.
pub data Pc : Type 0 where
  outside flipped counted last publish waiting : Pc

-- `arrived` and `left` count the thread's increments and its returns from the barrier. They are
-- not in the source and nothing depends on them.
pub record Thread : Type 0 where
  pub pc : Pc
  pub lsense : ℕ
  pub arrived : ℕ
  pub left : ℕ

-- `!x`
abbrev pub flip : ℕ → ℕ
flip x = if x == 0 then 1 else 0

abbrev leave : Thread → Thread
leave t = record t { pc = Pc.outside; left = t.left + 1 }

-- One step of `spin_barrier_lsense`, from `outside` the start of the next call.
abbrev act_at : Pc → SpinBarrier → Thread → SpinBarrier × Thread
act_at Pc.outside sb t = (sb, record t { pc = Pc.flipped; lsense = flip t.lsense })
act_at Pc.flipped sb t = (
  record sb { current_count = inc32 sb.current_count },
  record t { pc = Pc.counted; arrived = t.arrived + 1 },
)
act_at Pc.counted sb t =
    (sb, record t { pc = if sb.current_count == sb.nthreads then Pc.last else Pc.waiting })
act_at Pc.last sb t = (record sb { current_count = 0 }, record t { pc = Pc.publish })
act_at Pc.publish sb t = (record sb { release_flag = t.lsense }, leave t)
act_at Pc.waiting sb t = (sb, if sb.release_flag == t.lsense then leave t else t)

unfoldable pub spin_barrier_lsense : SpinBarrier → Thread → SpinBarrier × Thread
spin_barrier_lsense sb t = act_at t.pc sb t

-- The barrier and its threads; an index from `n` on names no thread.
pub record System : Type 0 where
  pub barrier : SpinBarrier
  pub threads : ℕ → Thread

abbrev pub init : ℕ → System
init n = record {
  barrier = spin_barrier_init n;
  threads =
      λ _. record { pc = Pc.outside; lsense = spin_barrier_init_lsense; arrived = 0; left = 0 };
}

abbrev pub turn : System → ℕ → System
turn s i =
    let r = spin_barrier_lsense s.barrier (s.threads i) in
    record { barrier = r.0; threads = update s.threads i r.1 }

-- The states that the interleavings of `n` threads lead to from `s`.
pub data Reach (n : ℕ) (s : System) : System → Type 0 where
  start : Reach n s s
  later : {t : System} → Reach n s t → (i : ℕ) → i < n → Reach n s (turn t i)
