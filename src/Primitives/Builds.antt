-- ===== src/Primitives/Builds.antt =====
-- The three builds of test_primitives.c that do not use the thread library: what `heavy` does to
-- notify and `light` to sleep. In the build SPINHALT the `ioctl` of `heavy` is one of the interrupts.
use htsynch.Base.{ℕ, ◌+◌, ◌≤◌, ◌≡◌, ◌==◌, refl, arith, Bool, true, false, if◌then◌else◌}
use htsynch.Monitor.Defs
use htsynch.Monitor.Defs.{Sleeper, sys_mwmon_sleep, notify, interrupt, original_val, notified_val}
use htsynch.Primitives.Signal.{Signal}

-- ORIGINAL_VALUE and NOTIFIED_VALUE
abbrev pub original_value : ℕ
original_value = 0

abbrev pub notified_value : ℕ
notified_value = 1

-- Where the waiting thread stands: before a read of `spin_var`, in the system call before `hlt`,
-- halted, before the store of the original value, and not in a wait.
pub data Pc : Type 0 where
  reading halting halted resetting over : Pc

pub record Spinner : Type 0 where
  pub pc : Pc
  pub spin_var : ℕ

-- A read of `spin_on_condition`, which goes to `next` if it is not satisfied.
abbrev read : Pc → Spinner → Spinner
read next s = record s { pc = if s.spin_var == notified_value then Pc.resetting else next }

abbrev spinpause_at : Pc → Spinner → Spinner
spinpause_at Pc.reading s = read Pc.reading s
spinpause_at Pc.resetting s = record { pc = Pc.over; spin_var = original_value }
spinpause_at _ s = s

abbrev spinhalt_at : Pc → Spinner → Spinner
spinhalt_at Pc.reading s = read Pc.halting s
spinhalt_at Pc.halting s = record s { pc = Pc.halted }
spinhalt_at Pc.halted s = s
spinhalt_at Pc.resetting s = record { pc = Pc.over; spin_var = original_value }
spinhalt_at Pc.over s = s

-- `spin_on_condition` or `spin_on_condition_cpuhalt`, and the store of the original value.
unfoldable pub spinpause : Spinner → Spinner
spinpause s = spinpause_at s.pc s

unfoldable pub spinhalt : Spinner → Spinner
spinhalt s = spinhalt_at s.pc s

unfoldable pub set_notified : Spinner → Spinner
set_notified s = record s { spin_var = notified_value }

abbrev woken : Pc → Pc
woken Pc.halted = Pc.reading
woken p = p

unfoldable pub wake : Spinner → Spinner
wake s = record s { pc = woken s.pc }

abbrev is_over : Pc → Bool
is_over Pc.over = true
is_over _ = false

abbrev pending_at : Pc → ℕ → ℕ
pending_at Pc.resetting v = 1
pending_at _ v = if v == notified_value then 1 else 0

pub pending_at-le : (p : Pc) (v : ℕ) → pending_at p v ≤ 1
pending_at-le p v = ground arith

pub enter-pending_at :
    (p : Pc) (v : ℕ) → is_over p ≡ true → pending_at Pc.reading v ≤ pending_at p v
enter-pending_at p v e = ground arith

abbrev Uses : (Spinner → Spinner) → Spinner → Type 0
Uses f s =
    pending_at (f s).pc (f s).spin_var + (if is_over (f s).pc then 1 else 0)
    ≤ pending_at s.pc s.spin_var

pub spinpause-Uses_at :
    (p : Pc) (v : ℕ) → is_over p ≡ false → Uses spinpause (record { pc = p; spin_var = v })
unfolding spinpause
spinpause-Uses_at p v e = ground arith

pub spinhalt-Uses_at :
    (p : Pc) (v : ℕ) → is_over p ≡ false → Uses spinhalt (record { pc = p; spin_var = v })
unfolding spinhalt
spinhalt-Uses_at p v e = ground arith

pub wake-pending_at :
    (p : Pc) (v : ℕ) → (pending_at (woken p) v ≡ pending_at p v) × (is_over (woken p) ≡ is_over p)
wake-pending_at p v = ground arith

abbrev begin_read : Spinner → Spinner
begin_read s = record s { pc = Pc.reading }

abbrev spin_done : Spinner → Bool
spin_done s = is_over s.pc

abbrev spin_pending : Spinner → ℕ
spin_pending s = pending_at s.pc s.spin_var

pub done-set_notified : (s : Spinner) → spin_done (set_notified s) ≡ spin_done s
unfolding set_notified
done-set_notified s = refl

pub wake-pending :
    (s : Spinner) → (spin_pending (wake s) ≡ spin_pending s) × (spin_done (wake s) ≡ spin_done s)
unfolding wake
wake-pending s = wake-pending_at s.pc s.spin_var

abbrev unset : Spinner
unset = record { pc = Pc.over; spin_var = original_value }

-- With SPINPAUSE an interrupt changes nothing.
abbrev pub spinpause_signal : Signal
spinpause_signal = record {
  State = Spinner;
  begin = unset;
  notify = set_notified;
  enter = begin_read;
  step = spinpause;
  disturb = λ s. s;
  done = spin_done;
  pending = spin_pending;
  done-begin = refl;
  pending-begin = refl;
  pending-le = λ s. pending_at-le s.pc s.spin_var;
  done-notify = done-set_notified;
  enter-pending = λ s e. (enter-pending_at s.pc s.spin_var e, refl);
  step-pending = λ s e. spinpause-Uses_at s.pc s.spin_var e;
  disturb-pending = λ s. (refl, refl);
}

abbrev pub spinhalt_signal : Signal
spinhalt_signal = record {
  State = Spinner;
  begin = unset;
  notify = set_notified;
  enter = begin_read;
  step = spinhalt;
  disturb = wake;
  done = spin_done;
  pending = spin_pending;
  done-begin = refl;
  pending-begin = refl;
  pending-le = λ s. pending_at-le s.pc s.spin_var;
  done-notify = done-set_notified;
  enter-pending = λ s e. (enter-pending_at s.pc s.spin_var e, refl);
  step-pending = λ s e. spinhalt-Uses_at s.pc s.spin_var e;
  disturb-pending = wake-pending;
}

abbrev call_done : Sleeper → Bool
call_done s = elim s.pc [ Defs.Pc.done ↦ true | _ ↦ false ]

abbrev call_pending : Sleeper → ℕ
call_pending s = elim s.pc [ Defs.Pc.reset ↦ 1 | _ ↦ if s.byte == notified_val then 1 else 0 ]

abbrev call_again : Sleeper → Sleeper
call_again s = record s { pc = Defs.Pc.arm }

pub call_pending-le : (s : Sleeper) → call_pending s ≤ 1
call_pending-le s = ground arith

pub call_done-notify : (s : Sleeper) → call_done (notify s) ≡ call_done s
unfolding notify
call_done-notify s = refl

pub call_again-pending :
    (s : Sleeper)
    → call_done s ≡ true
    → (call_pending (call_again s) ≤ call_pending s) × (call_done (call_again s) ≡ false)
call_again-pending s e = ground arith

call-pending_at :
    (p : Defs.Pc) (armed : Bool) (byte : ℕ)
    → let s : Sleeper = record { pc = p; armed = armed; byte = byte } in
      call_done s ≡ false
      → call_pending (sys_mwmon_sleep s) + (if call_done (sys_mwmon_sleep s) then 1 else 0)
        ≤ call_pending s
unfolding sys_mwmon_sleep
call-pending_at p armed byte e = ground arith

pub call-pending :
    (s : Sleeper)
    → call_done s ≡ false
    → call_pending (sys_mwmon_sleep s) + (if call_done (sys_mwmon_sleep s) then 1 else 0)
      ≤ call_pending s
call-pending s e = call-pending_at s.pc s.armed s.byte e

pub interrupt-pending :
    (s : Sleeper)
    → (call_pending (interrupt s) ≡ call_pending s) × (call_done (interrupt s) ≡ call_done s)
unfolding interrupt
interrupt-pending s = (refl, refl)

-- The device's page holds the original value when it has been opened.
abbrev idle : Sleeper
idle = record { pc = Defs.Pc.done; armed = false; byte = original_val }

abbrev pub mwmon_signal : Signal
mwmon_signal = record {
  State = Sleeper;
  begin = idle;
  notify = notify;
  enter = call_again;
  step = sys_mwmon_sleep;
  disturb = interrupt;
  done = call_done;
  pending = call_pending;
  done-begin = refl;
  pending-begin = refl;
  pending-le = call_pending-le;
  done-notify = call_done-notify;
  enter-pending = call_again-pending;
  step-pending = call-pending;
  disturb-pending = interrupt-pending;
}
