-- ===== src/Timer/Wide.antt =====
-- mwait_barrier/btimer_rdtsc64.h: the timer with 64-bit words. The cycle counter is an argument;
-- `rdtsc` leaves its low half in %rax and its high half in %rdx.
use Prim.Native.Nat.{bit_or}
use htsynch.Base.{ℕ, ◌+◌, ◌-◌, ◌*◌, ◌/◌, ◌%◌, ◌^◌}

-- `mytimer_t`
pub record Timer : Type 0 where
  pub start : ℕ
  pub stop : ℕ
  pub total : ℕ
  pub loops : ℕ

-- `(x) |= (_hi << 32)`
unfoldable pub rdtsc : ℕ → ℕ
rdtsc tsc = bit_or (tsc % 2 ^ 32) (tsc / 2 ^ 32 % 2 ^ 32 * 2 ^ 32 % 2 ^ 64)

unfoldable pub timer_clear : Timer → Timer
timer_clear t = record t { loops = 0; total = 0 }

unfoldable pub timer_start : ℕ → Timer → Timer
timer_start tsc t = record t { start = rdtsc tsc }

unfoldable pub timer_stop : ℕ → Timer → Timer
timer_stop tsc t = record t {
  stop = rdtsc tsc;
  total = (t.total + (rdtsc tsc + 2 ^ 64 - t.start) % 2 ^ 64) % 2 ^ 64;
  loops = (t.loops + 1) % 2 ^ 64;
}
