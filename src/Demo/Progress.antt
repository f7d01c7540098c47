-- ===== src/Demo/Progress.antt =====
-- The events of a pair of threads keep `Good`, and how far the sleeper is from its end.
use htsynch.Base.{
  ℕ, ◌+◌, ◌-◌, ◌≤◌, ◌<◌, ◌≡◌, ◌≢◌, arith, leb, ◌⊎◌, inl, inr, if◌then◌else◌, Bool, Option, List, [],
  ◌∷◌,
}
use htsynch.Monitor.Defs.{
  Pc, arm, check, recheck, reset, done, sys_mwmon_sleep, notified_val, interrupt, notify,
}
use htsynch.Demo.Threads.{
  Program, Report, Stage, placing, looping, calling, reporting, finished, Demo, Event, sleeper_runs,
  notifier_runs, interrupted, sleeper_at, begin, happens,
}
use htsynch.Demo.Invariant.{Good, sleeper-Good, notifier-Good, interrupt-Good}

-- The state after some events, the first one first.
abbrev pub after : Program → List Event → Demo → Demo
after p [] d = d
after p (e ∷ es) d = after p es (happens p e d)

module _ (p : Program) (b : ℕ) (usual : b ≢ notified_val) (s-lt : p.sleep_time < p.end_time)
    (m-lt : p.notify_time < p.end_time) where
  begin-Good : Good p b (begin b)
  begin-Good = ground arith

  happens-Good : (e : Event) (d : Demo) → Good p b d → Good p b (happens p e d)
  unfolding happens
  happens-Good sleeper_runs d g =
      sleeper-Good p b usual s-lt m-lt d.sleeper.i d.notifier.i d.call.byte d.call.armed
        d.sleeper.report d.notifier.report d.sleeper.stage d.call.pc d.notifier.stage g
  happens-Good notifier_runs d g =
      notifier-Good p b usual s-lt m-lt d.sleeper.i d.notifier.i d.call.byte d.call.armed
        d.sleeper.report d.notifier.report d.sleeper.stage d.call.pc d.notifier.stage g
  happens-Good interrupted d g =
      interrupt-Good p b usual s-lt m-lt d.sleeper.i d.notifier.i d.call.byte d.call.armed
        d.sleeper.report d.notifier.report d.sleeper.stage d.call.pc d.notifier.stage g

  after-Good : (es : List Event) (d : Demo) → Good p b d → Good p b (after p es d)
  after-Good [] d g = g
  after-Good (e ∷ es) d g = after-Good es (happens p e d) (happens-Good e d g)

  pub run-Good : (es : List Event) → Good p b (after p es (begin b))
  run-Good es = after-Good es (begin b) begin-Good

-- The steps that the sleeper has left once it has been notified, at most.
abbrev call_rank : Pc → ℕ
call_rank done = 1
call_rank reset = 2
call_rank check = 3
call_rank recheck = 3
call_rank _ = 4

abbrev rank_at : Program → Stage → Demo → ℕ
rank_at p placing d = p.end_time + 9
rank_at p looping d = (p.end_time - d.sleeper.i) + (if leb d.sleeper.i p.sleep_time then 8 else 2)
rank_at p calling d = (p.end_time - d.sleeper.i) + 2 + call_rank d.call.pc
rank_at p reporting d = 1
rank_at p finished d = 0

abbrev pub rank : Program → Demo → ℕ
rank p d = rank_at p d.sleeper.stage d

module _ (p : Program) (b : ℕ) (usual : b ≢ notified_val) (s-lt : p.sleep_time < p.end_time)
    (m-lt : p.notify_time < p.end_time) (i j byte : ℕ) (armed : Bool)
    (report seen : Option Report) where
  abbrev at : Stage → Pc → Stage → Demo
  at st pc nt = record {
    sleeper = record { stage = st; i = i; report = report };
    call = record { pc = pc; armed = armed; byte = byte };
    notifier = record { stage = nt; i = j; report = seen };
  }

  rank-happens_at :
      (st : Stage) (pc : Pc) (nt : Stage)
      → Good p b (at st pc nt)
      → p.notify_time < j
      → rank p (sleeper_at p st (at st pc nt)) + 1 ≤ rank p (at st pc nt) ⊎ (st ≡ finished)
  unfolding sys_mwmon_sleep
  rank-happens_at calling arm nt g past = ground arith
  rank-happens_at calling pc nt g past = ground arith
  rank-happens_at st pc nt g past = ground arith

-- How many of the events are steps of the sleeper.
abbrev own : Event → ℕ
own sleeper_runs = 1
own e = 0

abbrev pub sleeper_steps : List Event → ℕ
sleeper_steps [] = 0
sleeper_steps (e ∷ es) = own e + sleeper_steps es

module _ (p : Program) (b : ℕ) (usual : b ≢ notified_val) (s-lt : p.sleep_time < p.end_time)
    (m-lt : p.notify_time < p.end_time) where
  rank-happens :
      (e : Event) (d : Demo)
      → Good p b d
      → p.notify_time < d.notifier.i
      → rank p (happens p e d) ≤ rank p d - own e
  unfolding happens interrupt notify
  rank-happens sleeper_runs d g past =
      let fewer =
        rank-happens_at p b usual s-lt m-lt d.sleeper.i d.notifier.i d.call.byte d.call.armed
          d.sleeper.report d.notifier.report d.sleeper.stage d.call.pc d.notifier.stage g past in
      elim fewer [ inl less ↦ omega arith | inr e ↦ ground arith ]
  rank-happens notifier_runs d g past = ground arith
  rank-happens interrupted d g past = ground arith

  past-happens : (e : Event) (d : Demo) → d.notifier.i ≤ (happens p e d).notifier.i
  unfolding happens
  past-happens e d = ground arith

  rank_zero : (d : Demo) → rank p d ≡ 0 → d.sleeper.stage ≡ finished
  rank_zero d e = ground arith

  -- With that many steps of the sleeper among the events it has finished.
  pub rank-after :
      (es : List Event) (d : Demo)
      → Good p b d
      → p.notify_time < d.notifier.i
      → rank p d ≤ sleeper_steps es
      → (after p es d).sleeper.stage ≡ finished
  rank-after [] d g past le = rank_zero d (omega arith)
  rank-after (e ∷ es) d g past le =
      rank-after es (happens p e d) (happens-Good p b usual s-lt m-lt e d g)
        (omega (arith, past-happens e d)) (omega (arith, rank-happens e d g past))

  pub rank-le : (d : Demo) → rank p d ≤ p.end_time + 9
  rank-le d = ground arith
