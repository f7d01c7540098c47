-- ===== src/Trials/Interface.antt =====
-- What the loops of mwait_barrier/test_barriers.c and test_barriers_2packages.c ask of a barrier for
-- two threads, `true` the heavy and `false` the light one.
use htsynch.Base.{ℕ, ◌+◌, ◌≤◌, ◌≡◌, Bool, true, false, not, ◌&&◌, if◌then◌else◌}

-- `step b` is one step of thread `b` in a call, from outside the start of the next one; `disturb` is
-- what else may happen, such as an interrupt. `arrived` and `left` count a thread's arrivals and
-- returns.
pub record RoundBarrier : Type 1 where
  pub State : Type 0
  pub Noise : Type 0
  pub begin : State
  pub step : Bool → State → State
  pub disturb : Noise → State → State
  pub out : Bool → State → Bool
  pub arrived : Bool → State → ℕ
  pub left : Bool → State → ℕ
  pub IsReached : State → Type 0
  pub begin-IsReached : IsReached begin
  pub step-IsReached : (b : Bool) (s : State) → IsReached s → IsReached (step b s)
  pub disturb-IsReached : (e : Noise) (s : State) → IsReached s → IsReached (disturb e s)
  pub out-begin : (b : Bool) → out b begin ≡ true
  pub left-begin : (b : Bool) → left b begin ≡ 0
  -- A call does not return with its first step, and its return counts.
  pub out-step : (b : Bool) (s : State) → IsReached s → out b s ≡ true → out b (step b s) ≡ false
  pub left-step :
      (b : Bool) (s : State)
      → IsReached s
      → left b (step b s) ≡ left b s + (if not (out b s) && out b (step b s) then 1 else 0)
  -- The other thread stays where it is.
  pub out-step_other : (b : Bool) (s : State) → out (not b) (step b s) ≡ out (not b) s
  pub left-step_other : (b : Bool) (s : State) → left (not b) (step b s) ≡ left (not b) s
  pub out-disturb : (b : Bool) (e : Noise) (s : State) → out b (disturb e s) ≡ out b s
  pub left-disturb : (b : Bool) (e : Noise) (s : State) → left b (disturb e s) ≡ left b s
  -- A thread arrives at most once a call, and not outside.
  pub within :
      (b : Bool) (s : State) → IsReached s → arrived b s ≤ left b s + (if out b s then 0 else 1)
  pub own : (b : Bool) (s : State) → IsReached s → left b s ≤ arrived b s
  -- No thread returns from more calls than the other has arrived at.
  pub apart : (b : Bool) (s : State) → IsReached s → left b s ≤ arrived (not b) s

-- A barrier in which threads do not block each other for ever.
pub record Lively (R : RoundBarrier) : Type 1 where
  pub Blocked : Bool → R.State → Type 0
  pub out-Blocked : (b : Bool) (s : R.State) → Blocked b s → R.out b s ≡ false
  pub one-Blocked : (s : R.State) → R.IsReached s → Blocked true s → Blocked false s → ⊥
  pub waits :
      (b : Bool) (s : R.State)
      → R.IsReached s
      → Blocked b s
      → R.out (not b) s ≡ true
      → R.arrived b s ≡ R.arrived (not b) s + 1
