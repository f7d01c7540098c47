-- ===== src/Monitor/Counter.antt =====
-- `sys_mwmon_mmap_spin_while_greater` of the kernel patch: it tests a counter in the shared page
-- before it arms, and the counter lies outside the monitored line.
use htsynch.Base.{
  ℕ, ◌+◌, ◌/◌, ◌^◌, ◌≡◌, Bool, true, false, List, [], ◌∷◌, arith, signed_lt, if◌then◌else◌, ◌==◌,
}
use htsynch.Monitor.Defs.{original_val, monitored_mem_bytes}

-- Offset of the counter, a `long int`, in the shared page.
abbrev pub lint_var_offset : ℕ
lint_var_offset = 128

pub data Pc : Type 0 where
  test arm halt reset done : Pc

-- `area` is the address of the monitored byte; `counter` is the 64-bit word at
-- `area + lint_var_offset`.
pub record Waiter : Type 0 where
  pub pc : Pc
  pub armed : Bool
  pub area : ℕ
  pub byte : ℕ
  pub counter : ℕ

abbrev spin_at : Pc → ℕ → Waiter → Waiter
spin_at Pc.test limit s = record s {
  pc = if signed_lt (2 ^ 63) s.counter limit then Pc.arm else Pc.reset;
}
spin_at Pc.arm limit s = record s { pc = Pc.halt; armed = true }
spin_at Pc.halt limit s = if s.armed then s else record s { pc = Pc.test }
spin_at Pc.reset limit s = record s { pc = Pc.done; armed = false; byte = original_val }
spin_at Pc.done limit s = s

unfoldable pub sys_mwmon_mmap_spin_while_greater : ℕ → Waiter → Waiter
sys_mwmon_mmap_spin_while_greater limit s = spin_at s.pc limit s

-- The line of memory that an address lies in.
abbrev line : ℕ → ℕ
line a = a / monitored_mem_bytes

-- A store of the counter; it disarms the processor if it hits the monitored line.
unfoldable pub store_counter : ℕ → Waiter → Waiter
store_counter v s = record s {
  counter = v;
  armed = if line (s.area + lint_var_offset) == line s.area then false else s.armed;
}

unfoldable pub interrupt : Waiter → Waiter
interrupt s = record s { armed = false }

pub data Event : Type 0 where
  run : Event
  counted : ℕ → Event

abbrev happens : ℕ → Event → Waiter → Waiter
happens limit Event.run s = sys_mwmon_mmap_spin_while_greater limit s
happens limit (Event.counted v) s = store_counter v s

abbrev pub after : ℕ → List Event → Waiter → Waiter
after limit [] s = s
after limit (e ∷ es) s = after limit es (happens limit e s)

-- A waiting call that has armed the processor is not woken by the counter: whatever values are
-- stored to it, the limit and above included, the call stays in MWAIT.
pub counter_does_not_wake :
    (limit : ℕ) (es : List Event) (s : Waiter)
    → s.pc ≡ Pc.halt
    → s.armed ≡ true
    → ((after limit es s).pc ≡ Pc.halt) × ((after limit es s).armed ≡ true)
counter_does_not_wake limit [] s h a = (h, a)
counter_does_not_wake limit (Event.run ∷ es) s h a =
    counter_does_not_wake limit es (sys_mwmon_mmap_spin_while_greater limit s)
      (unfold sys_mwmon_mmap_spin_while_greater in ground arith)
      (unfold sys_mwmon_mmap_spin_while_greater in ground arith)
counter_does_not_wake limit (Event.counted v ∷ es) s h a =
    counter_does_not_wake limit es (store_counter v s) (unfold store_counter in h)
      (unfold store_counter in ground arith)

-- If the counter has reached the limit, a call in MWAIT returns within three steps of an interrupt,
-- and leaves the original value in the monitored byte.
pub interrupt_wakes :
    (limit : ℕ) (s : Waiter)
    → s.pc ≡ Pc.halt
    → signed_lt (2 ^ 63) s.counter limit ≡ false
    → let t = after limit (Event.run ∷ Event.run ∷ Event.run ∷ []) (interrupt s) in
      (t.pc ≡ Pc.done) × (t.byte ≡ original_val)
unfolding sys_mwmon_mmap_spin_while_greater interrupt
interrupt_wakes limit s h reached = ground arith
