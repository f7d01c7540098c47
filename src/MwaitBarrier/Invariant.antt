-- ===== src/MwaitBarrier/Invariant.antt =====
-- The two modes of a round, and that every step keeps the invariant.
use htsynch.Base.{
  ℕ, ◌+◌, ◌^◌, ◌≤◌, ◌<◌, ◌≡◌, ◌⊎◌, Bool, true, false, ◌||◌, ◌&&◌, arith, if◌then◌else◌,
}
use htsynch.Monitor.Defs.{original_val, notified_val}
use htsynch.MwaitBarrier.Defs.{
  MwaitBarrier, Pc, outside, try, spin, arrive, compare, notify, let_in, arm, check, halt, recheck,
  reset, depart, unlock, Thread, System, mwait_barrier, interrupt, swap, init, Reach, start, step,
  interrupted, swapped,
}

-- Has the thread arrived and not departed?
abbrev pub inside : Pc → ℕ
inside outside = 0
inside try = 0
inside spin = 0
inside arrive = 0
inside unlock = 0
inside _ = 1

abbrev pub is_out : Pc → Bool
is_out outside = true
is_out try = true
is_out spin = true
is_out _ = false

-- Between the start of the system call and its last test.
abbrev pub sleeps : Pc → Bool
sleeps arm = true
sleeps check = true
sleeps halt = true
sleeps recheck = true
sleeps _ = false

abbrev spins : Pc → ℕ
spins spin = 1
spins _ = 0

-- While a round is open a thread holds the lock from its attempt to its unlock.
abbrev solo : Pc → Bool
solo arrive = true
solo compare = true
solo let_in = true
solo _ = false

abbrev is_arrive : Pc → Bool
is_arrive arrive = true
is_arrive _ = false

abbrev is_depart : Pc → Bool
is_depart depart = true
is_depart _ = false

abbrev is_last : Pc → Bool
is_last compare = true
is_last notify = true
is_last _ = false

abbrev waits : Pc → Bool
waits reset = true
waits p = sleeps p

-- Where the two threads may be while a round is open.
abbrev open_pair : Pc → Pc → Bool
open_pair p q =
    (is_out p && (is_out q || solo q || sleeps q))
    || (solo p && is_out q)
    || (sleeps p && (is_out q || is_arrive q))
    || (is_arrive p && sleeps q)

-- And once both have arrived: before the notification, while the waiter has yet to take it, and
-- after that.
abbrev before_pair : Pc → Pc → Bool
before_pair p q = (is_last p && sleeps q) || (sleeps p && is_last q)

abbrev taking_pair : Pc → Pc → Bool
taking_pair p q = (waits p && (is_depart q || is_out q)) || ((is_depart p || is_out p) && waits q)

abbrev is_unlock : Pc → Bool
is_unlock unlock = true
is_unlock _ = false

abbrev taken_pair : Pc → Pc → Bool
taken_pair p q =
    (is_depart p && (is_depart q || is_out q))
    || (is_depart q && is_out p)
    || (is_unlock p && is_out q)
    || (is_unlock q && is_out p)

-- Of a closing round.
abbrev close_pair : Pc → Pc → Bool
close_pair p q = before_pair p q || taking_pair p q || taken_pair p q

abbrev held : Bool → Pc → Pc → Bool
held closing p q = closing || solo p || solo q

-- A thread of round `r`, counted from 0, that is open or closing.
abbrev pub InRound : Bool → ℕ → Thread → Type 0
InRound false r t = (t.arrived ≡ r + inside t.pc) × (t.left ≡ r)
InRound true r t = (t.arrived ≡ r + 1) × (t.left ≡ (if is_out t.pc then r + 1 else r))

abbrev Byte : Bool → Pc → Pc → ℕ → Type 0
Byte closing p q byte = byte ≡ (if closing && taking_pair p q then notified_val else original_val)

-- Armed at MWAIT, the thread has not been notified.
abbrev pub Wakes : ℕ → Thread → Type 0
Wakes byte t = t.pc ≡ halt → byte ≡ notified_val → t.armed ≡ false

pub record Inv (closing : Bool) (r : ℕ) (s : System) : Type 0 where
  pub size : s.barrier.init_count ≡ 2
  pub pair :
      (if closing then close_pair s.me.pc s.other.pc else open_pair s.me.pc s.other.pc) ≡ true
  pub count : s.barrier.gathered ≡ inside s.me.pc + inside s.other.pc
  pub lock_free : held closing s.me.pc s.other.pc ≡ false → s.barrier.lock ≡ 1
  pub lock_held :
      held closing s.me.pc s.other.pc ≡ true
      → (s.barrier.lock ≡ 0) ⊎ (2 ^ 32 ≤ s.barrier.lock + spins s.me.pc + spins s.other.pc)
  pub lock_range : s.barrier.lock < 2 ^ 32
  pub byte : Byte closing s.me.pc s.other.pc s.byte
  pub me_round : InRound closing r s.me
  pub other_round : InRound closing r s.other
  pub me_wakes : Wakes s.byte s.me
  pub other_wakes : Wakes s.byte s.other

-- A round closes when the second thread arrives, and the next one opens with the last unlock.
abbrev closes : Bool → Pc → Pc → Bool
closes closing arrive q = sleeps q
closes closing unlock q = false
closes closing p q = closing

abbrev next_round : Pc → ℕ → ℕ
next_round unlock r = r + 1
next_round _ r = r

step-Inv_at :
    (p : Pc) (closing : Bool) (r : ℕ) (b : MwaitBarrier) (w : ℕ) (armed : Bool) (arrived left : ℕ)
    (u : Thread)
    → let s : System = record {
      barrier = b;
      byte = w;
      me = record { pc = p; armed = armed; arrived = arrived; left = left };
      other = u;
    } in
      Inv closing r s → Inv (closes closing p u.pc) (next_round p r) (mwait_barrier s)
unfolding mwait_barrier
step-Inv_at outside closing r b w armed arrived left u h = ground arith
step-Inv_at p closing r b w armed arrived left u h = ground arith

init-Inv : Inv false 0 init
init-Inv = ground arith

swap-Inv : (closing : Bool) (r : ℕ) (s : System) → Inv closing r s → Inv closing r (swap s)
unfolding swap
swap-Inv closing r s h = ground arith

interrupt-Inv :
    (closing : Bool) (r : ℕ) (s : System) → Inv closing r s → Inv closing r (interrupt s)
unfolding interrupt
interrupt-Inv closing r s h = ground arith

pub record Found (s : System) : Type 0 where
  pub closing : Bool
  pub round : ℕ
  pub inv : Inv closing round s

pub Reach-Found : {s : System} → Reach s → Found s
Reach-Found start = record { closing = false; round = 0; inv = init-Inv }
Reach-Found (step {s} r) =
    let f = Reach-Found r in
    record {
      closing = closes f.closing s.me.pc s.other.pc;
      round = next_round s.me.pc f.round;
      inv =
          step-Inv_at s.me.pc f.closing f.round s.barrier s.byte s.me.armed s.me.arrived s.me.left
            s.other f.inv;
    }
Reach-Found (interrupted {s} r) =
    let f = Reach-Found r in
    record { closing = f.closing; round = f.round; inv = interrupt-Inv f.closing f.round s f.inv }
Reach-Found (swapped {s} r) =
    let f = Reach-Found r in
    record { closing = f.closing; round = f.round; inv = swap-Inv f.closing f.round s f.inv }
