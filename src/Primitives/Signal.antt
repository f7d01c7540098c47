-- ===== src/Primitives/Signal.antt =====
-- What the loops of test_primitives.c ask of the means by which one thread wakes the other.
use htsynch.Base.{ℕ, ◌+◌, ◌≤◌, ◌≡◌, Bool, true, false, if◌then◌else◌}

-- `enter` begins a wait, `step` is one step of it, `done` says whether no wait is under way;
-- `disturb` is an interrupt of the waiting processor. `pending` is how many waits the notifications
-- made so far can still end.
pub record Signal : Type 1 where
  pub State : Type 0
  pub begin : State
  pub notify : State → State
  pub enter : State → State
  pub step : State → State
  pub disturb : State → State
  pub done : State → Bool
  pub pending : State → ℕ
  pub done-begin : done begin ≡ true
  pub pending-begin : pending begin ≡ 0
  -- Notifications do not add up.
  pub pending-le : (s : State) → pending s ≤ 1
  pub done-notify : (s : State) → done (notify s) ≡ done s
  pub enter-pending :
      (s : State) → done s ≡ true → (pending (enter s) ≤ pending s) × (done (enter s) ≡ false)
  -- A wait ends only by using up a notification.
  pub step-pending :
      (s : State) → done s ≡ false → pending (step s) + (if done (step s) then 1 else 0) ≤ pending s
  pub disturb-pending :
      (s : State) → (pending (disturb s) ≡ pending s) × (done (disturb s) ≡ done s)
