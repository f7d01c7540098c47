-- ===== src/LockedBarrier/Buffers.antt =====
-- The barrier of kernel_monitor_user_notification_with_mmap/spin.c and spin.h on processors with store
-- buffers, as in SenseBarrier/Buffers: only the exchange of `spin_lock` is locked, and the stores of
-- the count, the flag and the lock wait in the buffer of their thread.
use htsynch.Base.{
  ℕ, ◌<◌, ◌≡◌, Bool, true, false, List, [], ◌∷◌, ◌++◌, Option, none, some, update, inc32,
}
use htsynch.LockedBarrier.Defs
use htsynch.LockedBarrier.Defs.{
  SpinBarrier, Pc, outside, try, spin, count, compare, reset, publish, unlock, waiting, calling,
  looping, spin_barrier_init, sign_extend, Variant, code,
}

pub data Store : Type 0 where
  to_count to_flag to_lock : ℕ → Store

abbrev pub apply : Store → SpinBarrier → SpinBarrier
apply (to_count v) b = record b { current_count = v }
apply (to_flag v) b = record b { release_flag = v }
apply (to_lock v) b = record b { lock = v }

-- The oldest store is the first.
abbrev pub view : SpinBarrier → List Store → SpinBarrier
view b [] = b
view b (s ∷ ss) = view (apply s b) ss

pub record Thread : Type 0 where
  pub core : Defs.Thread
  pub buffer : List Store

pub record Machine : Type 0 where
  pub memory : SpinBarrier
  pub threads : ℕ → Thread

abbrev pub init : ℕ → Machine
init n = record {
  memory = spin_barrier_init n;
  threads = λ i. record { core = (Defs.init n).threads i; buffer = [] };
}

-- The next access of a thread: none or a read, a store, or the locked exchange.
abbrev pub is_plain : Pc → Bool
is_plain outside = true
is_plain spin = true
is_plain compare = true
is_plain waiting = true
is_plain calling = true
is_plain looping = true
is_plain _ = false

abbrev pub stored : Pc → SpinBarrier → Defs.Thread → Option Store
stored count b t = some (to_count (inc32 b.current_count))
stored reset b t = some (to_count 0)
stored publish b t = some (to_flag (sign_extend t.lsense))
stored unlock b t = some (to_lock 0)
stored _ b t = none

abbrev pub core_after : Variant → SpinBarrier → Thread → Defs.Thread
core_after v b t = (code v (view b t.buffer) t.core).1

abbrev pub put : ℕ → Thread → SpinBarrier → Machine → Machine
put i t b m = record { memory = b; threads = update m.threads i t }

-- A step of thread `i` of the variant `v`, which it calls.
pub data Step (n : ℕ) (m : Machine) : Machine → Type 0 where
  plain :
      (v : Variant) (i : ℕ)
      → i < n
      → is_plain (m.threads i).core.pc ≡ true
      → Step n m
          (put i (record (m.threads i) { core = core_after v m.memory (m.threads i) }) m.memory m)
  store :
      (v : Variant) (i : ℕ) (s : Store)
      → i < n
      → stored (m.threads i).core.pc (view m.memory (m.threads i).buffer) (m.threads i).core
        ≡ some s
      → Step n m (
          put i
            (record {
              core = core_after v m.memory (m.threads i);
              buffer = (m.threads i).buffer ++ s ∷ [];
            })
            m.memory
            m)
  locked :
      (v : Variant) (i : ℕ)
      → i < n
      → (m.threads i).core.pc ≡ try
      → (m.threads i).buffer ≡ []
      → Step n m (
          put i
            (record (m.threads i) { core = core_after v m.memory (m.threads i) })
            (code v m.memory (m.threads i).core).0
            m)
  drain :
      (i : ℕ) (s : Store) (ss : List Store)
      → i < n
      → (m.threads i).buffer ≡ s ∷ ss
      → Step n m (put i (record (m.threads i) { buffer = ss }) (apply s m.memory) m)

pub data Reach (n : ℕ) : Machine → Type 0 where
  start : Reach n (init n)
  later : {m m' : Machine} → Reach n m → Step n m m' → Reach n m'
