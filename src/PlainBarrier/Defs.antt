-- ===== src/PlainBarrier/Defs.antt =====
-- `spin_barrier` of mwait_barrier/synch.h and of
-- kernel_monitor_user_notification_with_mmap/spin.c, which differ in their locks only. A thread makes
-- one access to the shared fields a step; the increment is one step, though another thread's reset,
-- which is made without the lock, could come between its read and its store.
use htsynch.Base.{ℕ, ◌+◌, ◌==◌, if◌then◌else◌, inc32, Bool, true, false, List, [], ◌∷◌}

-- `lock` is 1 while it is taken, whichever lock it is. `nthreads` is `total` in spin.c.
pub record SpinBarrier : Type 0 where
  pub lock : ℕ
  pub release_flag : ℕ
  pub current_count : ℕ
  pub nthreads : ℕ

-- Where a thread stands: `try` is in the loop of the lock, `first_test` before the test for zero,
-- `clear` before the store of 0 to the flag, `count` before the increment, `unlock` before the
-- lock is given back, `compare` before the second test, `reset` and `publish` before the two stores
-- of the last thread, and `waiting` in `spin_on_condition`.
pub data Pc : Type 0 where
  outside try first_test clear count unlock compare reset publish waiting : Pc

-- `arrived` and `left` count the thread's increments and its returns from the barrier. They are
-- not in the source and nothing depends on them.
pub record Thread : Type 0 where
  pub pc : Pc
  pub arrived : ℕ
  pub left : ℕ

abbrev goto : Pc → Thread → Thread
goto p t = record t { pc = p }

abbrev leave : Thread → Thread
leave t = record t { pc = Pc.outside; left = t.left + 1 }

abbrev pub act_at : Pc → SpinBarrier → Thread → SpinBarrier × Thread
act_at Pc.outside sb t = (sb, goto Pc.try t)
act_at Pc.try sb t =
    if sb.lock == 0 then (record sb { lock = 1 }, goto Pc.first_test t) else (sb, t)
act_at Pc.first_test sb t = (sb, goto (if sb.current_count == 0 then Pc.clear else Pc.count) t)
act_at Pc.clear sb t = (record sb { release_flag = 0 }, goto Pc.count t)
act_at Pc.count sb t = (
  record sb { current_count = inc32 sb.current_count },
  record t { pc = Pc.unlock; arrived = t.arrived + 1 },
)
act_at Pc.unlock sb t = (record sb { lock = 0 }, goto Pc.compare t)
act_at Pc.compare sb t =
    (sb, goto (if sb.current_count == sb.nthreads then Pc.reset else Pc.waiting) t)
act_at Pc.reset sb t = (record sb { current_count = 0 }, goto Pc.publish t)
act_at Pc.publish sb t = (record sb { release_flag = 1 }, leave t)
act_at Pc.waiting sb t = (sb, if sb.release_flag == 1 then leave t else t)

-- One step, from `outside` the start of the next call.
unfoldable pub spin_barrier : SpinBarrier → Thread → SpinBarrier × Thread
spin_barrier sb t = act_at t.pc sb t

-- Two threads that share a barrier.
pub record Two : Type 0 where
  pub barrier : SpinBarrier
  pub first : Thread
  pub second : Thread

-- One step of the first thread (`true`) or of the second.
abbrev pub act : Two → Bool → Two
act v true =
    let r = spin_barrier v.barrier v.first in
    record { barrier = r.0; first = r.1; second = v.second }
act v false =
    let r = spin_barrier v.barrier v.second in
    record { barrier = r.0; first = v.first; second = r.1 }

-- The state after some steps, the first one first.
abbrev pub play : List Bool → Two → Two
play [] v = v
play (b ∷ l) v = play l (act v b)

-- Between two rounds, after `k` of them: `flag` is the release flag, at first that of the
-- initialisation, 1 in synch.h and 0 in spin.c.
abbrev pub rest : ℕ → ℕ → Two
rest flag k =
    let t : Thread = record { pc = Pc.outside; arrived = k; left = k } in
    record {
      barrier = record { lock = 0; release_flag = flag; current_count = 0; nthreads = 2 };
      first = t;
      second = t;
    }
