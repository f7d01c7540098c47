-- ===== src/Monitor/Laws.antt =====
-- No wake-up is lost: the sleeper re-arms before it tests, so a store is seen by the test or by
-- MWAIT.
use htsynch.Base.{ℕ, ◌≡◌, ◌≢◌, refl, Bool, true, false, List, [], ◌∷◌, arith}
use htsynch.Monitor.Defs.{
  Pc, arm, halt, reset, done, Sleeper, sys_mwmon_sleep, notify, interrupt, Event, run, stored,
  interrupted, happens, after, begin, original_val, notified_val,
}

-- The watched byte holds the notified value wherever the call is past a successful test, and does
-- not where the processor is armed at MWAIT.
abbrev SoundAt : Pc → Sleeper → Type 0
SoundAt halt s = s.armed ≡ true → s.byte ≢ notified_val
SoundAt reset s = s.byte ≡ notified_val
SoundAt done s = s.armed ≡ false
SoundAt _ s = Unit

abbrev Sound : Sleeper → Type 0
Sound s = SoundAt s.pc s

happens-SoundAt :
    (e : Event) (p : Pc) (armed : Bool) (byte : ℕ)
    → SoundAt p (record { pc = p; armed = armed; byte = byte })
    → Sound (happens e (record { pc = p; armed = armed; byte = byte }))
unfolding sys_mwmon_sleep notify interrupt
happens-SoundAt run arm armed byte h = ground arith
happens-SoundAt e p armed byte h = ground arith

after-Sound : (es : List Event) (s : Sleeper) → Sound s → Sound (after es s)
after-Sound [] s h = h
after-Sound (e ∷ es) s h = after-Sound es (happens e s) (happens-SoundAt e s.pc s.armed s.byte h)

begin-Sound : (b : ℕ) (es : List Event) → Sound (after es (begin b))
begin-Sound b es = after-Sound es (begin b) tt

Sound-halt : (s : Sleeper) → Sound s → s.pc ≡ halt → s.byte ≡ notified_val → s.armed ≡ false
Sound-halt s h at_halt notified = ground arith

-- Whatever stores and interrupts come between the steps of a sleeping call, it is never blocked in
-- MWAIT while the byte it watches holds the notified value.
pub no_lost_wake_up :
    (b : ℕ) (es : List Event)
    → (after es (begin b)).pc ≡ halt
    → (after es (begin b)).byte ≡ notified_val
    → (after es (begin b)).armed ≡ false
no_lost_wake_up b es = Sound-halt (after es (begin b)) (begin-Sound b es)

abbrev five_runs : List Event
five_runs = run ∷ run ∷ run ∷ run ∷ run ∷ []

finish_at :
    (p : Pc) (armed : Bool) (byte : ℕ)
    → (p ≡ halt → armed ≡ false)
    → p ≢ done
    → byte ≡ notified_val
    → let t = after five_runs (record { pc = p; armed = armed; byte = byte }) in
      (t.pc ≡ done) × (t.byte ≡ original_val)
unfolding sys_mwmon_sleep
finish_at arm armed byte h q e = ground arith
finish_at p armed byte h q e = ground arith

-- Once the watched byte holds the notified value, wherever the call stands and however it came
-- there, it returns within five of its own steps if nothing is stored meanwhile, and leaves the
-- original value behind.
pub notified-returns :
    (b : ℕ) (es : List Event)
    → (after es (begin b)).byte ≡ notified_val
    → (after es (begin b)).pc ≢ done
    → let t = after five_runs (after es (begin b)) in (t.pc ≡ done) × (t.byte ≡ original_val)
notified-returns b es notified going =
    let s = after es (begin b) in
    finish_at s.pc s.armed s.byte (λ h. no_lost_wake_up b es h notified) going notified

-- No store of the notified value among the events.
abbrev pub is_quiet : List Event → Bool
is_quiet [] = true
is_quiet (stored ∷ es) = false
is_quiet (run ∷ es) = is_quiet es
is_quiet (interrupted ∷ es) = is_quiet es

-- Still waiting, with the byte as it was.
abbrev Waits : ℕ → Sleeper → Type 0
Waits b s = (s.byte ≡ b) × (s.pc ≢ reset) × (s.pc ≢ done)

run-Waits_at :
    (b byte : ℕ) (p : Pc) (armed : Bool)
    → b ≢ notified_val
    → byte ≡ b
    → p ≢ reset
    → p ≢ done
    → Waits b (sys_mwmon_sleep (record { pc = p; armed = armed; byte = byte }))
unfolding sys_mwmon_sleep
run-Waits_at b byte arm armed ne e q r = ground arith
run-Waits_at b byte p armed ne e q r = ground arith

run-Waits : (b : ℕ) (s : Sleeper) → b ≢ notified_val → Waits b s → Waits b (sys_mwmon_sleep s)
run-Waits b s ne (e, q, r) = run-Waits_at b s.byte s.pc s.armed ne e q r

after-Waits :
    (b : ℕ) (es : List Event) (s : Sleeper)
    → b ≢ notified_val
    → is_quiet es ≡ true
    → Waits b s
    → Waits b (after es s)
after-Waits b [] s ne quiet h = h
after-Waits b (run ∷ es) s ne quiet h =
    after-Waits b es (sys_mwmon_sleep s) ne quiet (run-Waits b s ne h)
after-Waits b (interrupted ∷ es) s ne quiet h =
    after-Waits b es (interrupt s) ne quiet (unfold interrupt in h)
after-Waits b (stored ∷ es) s ne quiet h = cc

-- Interrupts alone do not end the call: unless the watched byte held the notified value at the
-- start or it is stored, the call does not return, and the byte stays as it was.
pub quiet-waits :
    (b : ℕ) (es : List Event)
    → b ≢ notified_val
    → is_quiet es ≡ true
    → ((after es (begin b)).pc ≢ done) × ((after es (begin b)).byte ≡ b)
quiet-waits b es ne quiet =
    let w = after-Waits b es (begin b) ne quiet (refl, (λ q. cc), (λ q. cc)) in (w.2, w.0)
