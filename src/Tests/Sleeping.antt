-- ===== src/Tests/Sleeping.antt =====
-- A sleeping system call with a store and interrupts at given places.
use htsynch.Base.{ℕ, ◌≡◌, refl, true, false, List, [], ◌∷◌}
use htsynch.Monitor.Defs.{
  Pc, sys_mwmon_sleep, notify, Event, run, stored, after, begin, original_val,
}
use htsynch.Monitor.Laws.{no_lost_wake_up, notified-returns}
use htsynch.Monitor.Counter
use htsynch.Monitor.Counter.{counter_does_not_wake, interrupt_wakes}

-- The store falls between the failed test and MWAIT.
abbrev late_store : List Event
late_store = run ∷ run ∷ stored ∷ []

no_lost_wake_up_example : (after late_store (begin original_val)).armed ≡ false
unfolding sys_mwmon_sleep notify
no_lost_wake_up_example = no_lost_wake_up original_val late_store refl refl

notified-returns_example :
    let t = after (run ∷ run ∷ run ∷ run ∷ run ∷ []) (after late_store (begin original_val)) in
    (t.pc ≡ Pc.done) × (t.byte ≡ original_val)
unfolding sys_mwmon_sleep notify
notified-returns_example = notified-returns original_val late_store refl (λ e. cc)

-- A call in MWAIT for a limit of 10, at page 16.
abbrev halted : ℕ → Counter.Waiter
halted c = record { pc = Counter.Pc.halt; armed = true; area = 65536; byte = 97; counter = c }

counter_does_not_wake_example :
    let t = Counter.after 10 (Counter.Event.counted 11 ∷ Counter.Event.run ∷ []) (halted 9) in
    (t.pc ≡ Counter.Pc.halt) × (t.armed ≡ true)
counter_does_not_wake_example =
    counter_does_not_wake 10 (Counter.Event.counted 11 ∷ Counter.Event.run ∷ []) (halted 9) refl
      refl
