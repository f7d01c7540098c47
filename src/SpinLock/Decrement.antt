-- ===== src/SpinLock/Decrement.antt =====
-- The spin variable of the decrementing locks: 1 while the lock is free, and while it is held 0
-- less the number of failed attempts, of which each waiting thread has made one.
use htsynch.Base.{ℕ, ◌+◌, ◌-◌, ◌^◌, ◌≤◌, ◌<◌, ◌≡◌, ◌⊎◌, arith}

pub record Word (o k w : ℕ) : Type 0 where
  pub few : o ≤ 1
  pub open_word : o ≡ 0 → w ≡ 1
  pub held_word : o ≡ 1 → (w ≡ 0) ⊎ (2 ^ 32 ≤ w + k)
  pub range : w < 2 ^ 32

-- The sign bit tells a held lock only below this many waiting threads.
abbrev pub max_waiting : ℕ
max_waiting = 2 ^ 31 - 1

pub free-Word : (k : ℕ) → Word 0 k 1
free-Word k = ground arith

pub Word-le : (o k w : ℕ) → Word o k w → o ≤ 1
Word-le o k w h = h.few
