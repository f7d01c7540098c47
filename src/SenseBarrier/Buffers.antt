-- ===== src/SenseBarrier/Buffers.antt =====
-- `spin_barrier_lsense` of mwait_barrier/synch.h on processors with store buffers: the stores of
-- `current_count` and `release_flag` wait in the buffer of their thread and reach memory in order, a
-- thread reads its own stores before, and the locked increment runs with an empty buffer.
use htsynch.Base.{ℕ, ◌<◌, ◌≡◌, Bool, true, false, List, [], ◌∷◌, ◌++◌, Option, none, some, update}
use htsynch.SenseBarrier.Defs
use htsynch.SenseBarrier.Defs.{
  SpinBarrier, Pc, outside, flipped, counted, last, publish, waiting, spin_barrier_init,
  spin_barrier_lsense,
}

pub data Store : Type 0 where
  to_count to_flag : ℕ → Store

abbrev pub apply : Store → SpinBarrier → SpinBarrier
apply (to_count v) b = record b { current_count = v }
apply (to_flag v) b = record b { release_flag = v }

-- The oldest store is the first.
abbrev pub view : SpinBarrier → List Store → SpinBarrier
view b [] = b
view b (s ∷ ss) = view (apply s b) ss

pub record Thread : Type 0 where
  pub core : Defs.Thread
  pub buffer : List Store

pub record Machine : Type 0 where
  pub memory : SpinBarrier
  pub threads : ℕ → Thread

abbrev pub init : ℕ → Machine
init n = record {
  memory = spin_barrier_init n;
  threads = λ i. record { core = (Defs.init n).threads i; buffer = [] };
}

-- The next access of a thread: none or a read, a store, or the locked increment.
abbrev pub is_plain : Pc → Bool
is_plain outside = true
is_plain counted = true
is_plain waiting = true
is_plain _ = false

abbrev pub stored : Pc → ℕ → Option Store
stored last lsense = some (to_count 0)
stored publish lsense = some (to_flag lsense)
stored _ lsense = none

abbrev pub core_after : SpinBarrier → Thread → Defs.Thread
core_after b t = (spin_barrier_lsense (view b t.buffer) t.core).1

abbrev pub put : ℕ → Thread → SpinBarrier → Machine → Machine
put i t b m = record { memory = b; threads = update m.threads i t }

pub data Step (n : ℕ) (m : Machine) : Machine → Type 0 where
  plain :
      (i : ℕ)
      → i < n
      → is_plain (m.threads i).core.pc ≡ true
      → Step n m
          (put i (record (m.threads i) { core = core_after m.memory (m.threads i) }) m.memory m)
  store :
      (i : ℕ) (s : Store)
      → i < n
      → stored (m.threads i).core.pc (m.threads i).core.lsense ≡ some s
      → Step n m (
          put i
            (record {
              core = core_after m.memory (m.threads i);
              buffer = (m.threads i).buffer ++ s ∷ [];
            })
            m.memory
            m)
  locked :
      (i : ℕ)
      → i < n
      → (m.threads i).core.pc ≡ flipped
      → (m.threads i).buffer ≡ []
      → Step n m (
          put i
            (record (m.threads i) { core = core_after m.memory (m.threads i) })
            (spin_barrier_lsense m.memory (m.threads i).core).0
            m)
  drain :
      (i : ℕ) (s : Store) (ss : List Store)
      → i < n
      → (m.threads i).buffer ≡ s ∷ ss
      → Step n m (put i (record (m.threads i) { buffer = ss }) (apply s m.memory) m)

pub data Reach (n : ℕ) : Machine → Type 0 where
  start : Reach n (init n)
  later : {m m' : Machine} → Reach n m → Step n m m' → Reach n m'
