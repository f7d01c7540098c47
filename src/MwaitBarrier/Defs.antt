-- ===== src/MwaitBarrier/Defs.antt =====
-- `mwait_barrier_t`, `mwait_barrier_init` and `mwait_barrier` of mwait_barrier/mwait_barrier.c, over
-- `spin_lock_fast` and `atomic_dec_and_test` of synch.h and the sleeping system call of the kernel
-- patch. A thread makes one access to shared memory a step. `mwait_barrier2` is the same code on
-- the second region and the other system call; MwaitBarrier/Packages has both.
use htsynch.Atomic.{atomic_dec_and_test}
use htsynch.Base.{ℕ, ◌+◌, ◌^◌, ◌==◌, Bool, true, false, if◌then◌else◌, inc32, dec32, signed_lt}
use htsynch.Monitor.Defs.{original_val, notified_val}

-- The fields `left` and `curr_event` are nowhere read.
pub record MwaitBarrier : Type 0 where
  pub lock : ℕ
  pub gathered : ℕ
  pub init_count : ℕ

abbrev pub mwait_barrier_init : ℕ → MwaitBarrier
mwait_barrier_init n = record { lock = 1; gathered = 0; init_count = n }

-- Where a thread stands. `try` and `spin` are in `spin_lock_fast`; `arrive` is before the increment
-- of `gathered`, `compare` before the test; `notify` before the store of the notified value;
-- `let_in` before the unlock of a thread that is not the last; `arm` to `reset` are in the system
-- call; `depart` is before `atomic_dec_and_test`, and `unlock` before the last unlock.
pub data Pc : Type 0 where
  outside try spin arrive compare notify let_in arm check halt recheck reset depart unlock : Pc

-- `armed` is the state of the thread's processor. `arrived` and `left` count the increments of
-- `gathered` and the returns; nothing depends on them.
pub record Thread : Type 0 where
  pub pc : Pc
  pub armed : Bool
  pub arrived : ℕ
  pub left : ℕ

abbrev goto : Pc → Thread → Thread
goto p t = record t { pc = p }

abbrev leave : Thread → Thread
leave t = record t { pc = Pc.outside; left = t.left + 1 }

-- The two threads on the contexts of one processor, and what they share: the barrier, and the byte
-- that `mmapped_device_memory` points to.
pub record System : Type 0 where
  pub barrier : MwaitBarrier
  pub byte : ℕ
  pub me : Thread
  pub other : Thread

abbrev pub act_at : Pc → MwaitBarrier → ℕ → Thread → Thread → System
act_at Pc.outside b w t u = record { barrier = b; byte = w; me = goto Pc.try t; other = u }
act_at Pc.try b w t u = record {
  barrier = record b { lock = dec32 b.lock };
  byte = w;
  me = goto (if dec32 b.lock == 0 then Pc.arrive else Pc.spin) t;
  other = u;
}
act_at Pc.spin b w t u = record {
  barrier = b;
  byte = w;
  me = goto (if signed_lt (2 ^ 31) 0 b.lock then Pc.try else Pc.spin) t;
  other = u;
}
act_at Pc.arrive b w t u = record {
  barrier = record b { gathered = inc32 b.gathered };
  byte = w;
  me = record t { pc = Pc.compare; arrived = t.arrived + 1 };
  other = u;
}
act_at Pc.compare b w t u = record {
  barrier = b;
  byte = w;
  me = goto (if b.gathered == b.init_count then Pc.notify else Pc.let_in) t;
  other = u;
}
act_at Pc.notify b w t u = record {
  barrier = b;
  byte = notified_val;
  me = goto Pc.depart t;
  other = record u { armed = false };
}
act_at Pc.let_in b w t u = record {
  barrier = record b { lock = 1 };
  byte = w;
  me = goto Pc.arm t;
  other = u;
}
act_at Pc.arm b w t u = record {
  barrier = b;
  byte = w;
  me = record t { pc = Pc.check; armed = true };
  other = u;
}
act_at Pc.check b w t u = record {
  barrier = b;
  byte = w;
  me = goto (if w == notified_val then Pc.reset else Pc.halt) t;
  other = u;
}
act_at Pc.halt b w t u = record {
  barrier = b;
  byte = w;
  me = if t.armed then t else goto Pc.recheck t;
  other = u;
}
act_at Pc.recheck b w t u = record {
  barrier = b;
  byte = w;
  me = goto (if w == notified_val then Pc.reset else Pc.arm) t;
  other = u;
}
act_at Pc.reset b w t u = record {
  barrier = b;
  byte = original_val;
  me = record t { pc = Pc.depart; armed = false };
  other = record u { armed = false };
}
act_at Pc.depart b w t u = record {
  barrier = record b { gathered = (atomic_dec_and_test b.gathered).0 };
  byte = w;
  me = if (atomic_dec_and_test b.gathered).1 == 0 then leave t else goto Pc.unlock t;
  other = u;
}
act_at Pc.unlock b w t u = record {
  barrier = record b { lock = 1 };
  byte = w;
  me = leave t;
  other = u;
}

-- One step of `mwait_barrier` by the thread `me`, from `outside` the start of the next call.
unfoldable pub mwait_barrier : System → System
mwait_barrier s = act_at s.me.pc s.barrier s.byte s.me s.other

-- An interrupt of the processor of `me`.
unfoldable pub interrupt : System → System
interrupt s = record s { me = record s.me { armed = false } }

-- The two threads change parts.
unfoldable pub swap : System → System
swap s = record s { me = s.other; other = s.me }

abbrev newcomer : Thread
newcomer = record { pc = Pc.outside; armed = false; arrived = 0; left = 0 }

-- After `mwait_barrier_init`, with the byte as opening the device leaves it.
abbrev pub init : System
init = record {
  barrier = mwait_barrier_init 2;
  byte = original_val;
  me = newcomer;
  other = newcomer;
}

-- What the two threads can do from the initial state, in any order.
pub data Reach : System → Type 0 where
  start : Reach init
  step : {s : System} → Reach s → Reach (mwait_barrier s)
  interrupted : {s : System} → Reach s → Reach (interrupt s)
  swapped : {s : System} → Reach s → Reach (swap s)
