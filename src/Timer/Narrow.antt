-- ===== src/Timer/Narrow.antt =====
-- mwait_barrier/btimer_rdtsc32.h: the timer with pairs of 32-bit words, index 0 the low one.
use htsynch.Base.{ℕ, ◌+◌, ◌-◌, ◌*◌, ◌/◌, ◌%◌, ◌^◌, ltb, leb, if◌then◌else◌}

-- `unsigned long [2]`
pub record Pair : Type 0 where
  pub low : ℕ
  pub high : ℕ

-- `mytimer_t`
pub record Timer : Type 0 where
  pub start : Pair
  pub stop : Pair
  pub total : Pair
  pub loops : ℕ

unfoldable pub rdtsc : ℕ → Pair
rdtsc tsc = record { low = tsc % 2 ^ 32; high = tsc / 2 ^ 32 % 2 ^ 32 }

-- `subl`, `sbbl`: the borrow of the low words goes into the high ones.
unfoldable pub sub_pair : Pair → Pair → Pair
sub_pair a b = record {
  low = (a.low + 2 ^ 32 - b.low) % 2 ^ 32;
  high = (a.high + 2 * 2 ^ 32 - b.high - (if ltb a.low b.low then 1 else 0)) % 2 ^ 32;
}

-- `addl`, `adcl`
unfoldable pub add_pair : Pair → Pair → Pair
add_pair a b = record {
  low = (a.low + b.low) % 2 ^ 32;
  high = (a.high + b.high + (if leb (2 ^ 32) (a.low + b.low) then 1 else 0)) % 2 ^ 32;
}

unfoldable pub timer_clear : Timer → Timer
timer_clear t = record t { loops = 0; total = record { low = 0; high = 0 } }

unfoldable pub timer_start : ℕ → Timer → Timer
timer_start tsc t = record t { start = rdtsc tsc }

unfoldable pub timer_stop : ℕ → Timer → Timer
timer_stop tsc t = record t {
  stop = rdtsc tsc;
  total = add_pair t.total (sub_pair (rdtsc tsc) t.start);
  loops = (t.loops + 1) % 2 ^ 32;
}
