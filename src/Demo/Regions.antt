-- ===== src/Demo/Regions.antt =====
-- The four threads of thread_test_kmon_unot_2regions.c begin their loops together.
use htsynch.Base.{
  ℕ, ◌≤◌, ◌<◌, ◌≡◌, ◌≢◌, ◌⊎◌, inl, inr, refl, ap, sym, ◌∙◌, arith, List, [], ◌∷◌, ◌++◌, Option,
  none, some, ℕ_discrete, ◌==◌, if◌then◌else◌, Bool, true, false,
}
use mathlib.Core.Logic.{ite}
use mathlib.Core.Path.{subst}
use htsynch.Monitor.Defs
use htsynch.Monitor.Defs.{original_val}
use htsynch.LockedBarrier.Defs as Meeting
use htsynch.LockedBarrier.Defs.{System, macro, code}
use htsynch.LockedBarrier.Counts.{left-le}
use htsynch.LockedBarrier.Safety.{Reach-Inv}
use htsynch.Barrier.Locked.{Inv-Apart}
use htsynch.Demo.Programs
use htsynch.Demo.Programs.{Pair, pack0, pack1, run}
use htsynch.Demo.Threads.{
  Event, sleeper_runs, notifier_runs, interrupted, begin, Program, Stage, placing, looping, Side,
  Demo, sleeper_at, notifier_at,
}
use htsynch.Demo.TwoRegions
use htsynch.Demo.TwoRegions.{Regions, begin_regions, meets}

-- A step of one of the threads, or an interrupt of the processor of `ta0` or of that of `ta2`.
pub data Turn : Type 0 where
  thread0 thread1 thread2 thread3 interrupted0 interrupted2 : Turn

abbrev pub turn : Turn → Regions → Option Regions
turn thread0 r = TwoRegions.sleeper TwoRegions.ta0 r
turn thread1 r = TwoRegions.notifier TwoRegions.ta1 r
turn thread2 r = TwoRegions.sleeper TwoRegions.ta2 r
turn thread3 r = TwoRegions.notifier TwoRegions.ta3 r
turn interrupted0 r =
    some (record r { first = record r.first { call = Defs.interrupt r.first.call } })
turn interrupted2 r =
    some (record r { second = record r.second { call = Defs.interrupt r.second.call } })

abbrev pub run_all : List Turn → Regions → Option Regions
run_all [] r = some r
run_all (t ∷ ts) r = elim (turn t r) [ none ↦ none | some r' ↦ run_all ts r' ]

-- A thread that has made no test of its loop.
abbrev pub Before : Side → Type 0
Before t = ((t.stage ≡ placing) ⊎ (t.stage ≡ looping)) × (t.i ≡ 0) × (t.report ≡ none)

-- A pair whose threads have made none, and its byte.
abbrev pub Unbegun : Demo → Type 0
Unbegun d = Before d.sleeper × Before d.notifier × (d.call.byte ≡ original_val)

-- What holds of a pair if its threads have left the barrier so often.
record Held (sleeps notifies : ℕ) (d : Demo) : Type 0 where
  sleeper_held : sleeps ≡ 0 → Before d.sleeper
  notifier_held : notifies ≡ 0 → Before d.notifier
  byte_held : sleeps ≡ 0 → notifies ≡ 0 → d.call.byte ≡ original_val

module _ (a b : ℕ) where
  Held-sleeper_at :
      (p : Program) (st : Stage) (d : Demo)
      → d.sleeper.stage ≡ st
      → (st ≡ placing) ⊎ (a ≢ 0)
      → Held a b d
      → Held a b (sleeper_at p st d)
  Held-sleeper_at p placing d e may h = ground arith
  Held-sleeper_at p st d e may h = ground arith

  Held-notifier_at :
      (p : Program) (st : Stage) (d : Demo)
      → d.notifier.stage ≡ st
      → (st ≡ placing) ⊎ (b ≢ 0)
      → Held a b d
      → Held a b (notifier_at p st d)
  Held-notifier_at p placing d e may h = ground arith
  Held-notifier_at p st d e may h = ground arith

  Held-interrupt : (d : Demo) → Held a b d → Held a b (record d { call = Defs.interrupt d.call })
  unfolding Defs.interrupt
  Held-interrupt d h = record {
    sleeper_held = h.sleeper_held;
    notifier_held = h.notifier_held;
    byte_held = h.byte_held;
  }

abbrev left_of : Regions → ℕ → ℕ
left_of r i = (r.barrier.threads i).left

Held-le : (a b a' b' : ℕ) (d : Demo) → a ≤ a' → b ≤ b' → Held a b d → Held a' b' d
Held-le a b a' b' d p q h = record {
  sleeper_held = λ e. h.sleeper_held (omega arith);
  notifier_held = λ e. h.notifier_held (omega arith);
  byte_held = λ e f. h.byte_held (omega arith) (omega arith);
}

left-turn : (s : System) (i j : ℕ) → (s.threads j).left ≤ ((Meeting.turn macro s i).threads j).left
left-turn s i j =
    let t = (code macro s.barrier (s.threads i)).1 in
    elim (ℕ_discrete i j) as (λ d. (s.threads j).left ≤ (ite d t (s.threads j)).left) [
      | yes same ↦
          subst (λ (k : ℕ). (s.threads k).left ≤ t.left) same
            (left-le macro s.barrier (s.threads i))
      | no ne ↦ omega arith
    ]

-- What some run of a pair alone leads to.
abbrev pub IsRun : Pair → Demo → Type 0
IsRun k d = (es : List Event) × (d ≡ run k es (begin original_val))

run-append :
    (k : Pair) (es : List Event) (e : Event) (d : Demo)
    → run k (es ++ e ∷ []) d ≡ Programs.turn k e (run k es d)
run-append k [] e d = refl
run-append k (e' ∷ es) e d = run-append k es e (Programs.turn k e' d)

IsRun-turn : (k : Pair) (e : Event) (d : Demo) → IsRun k d → IsRun k (Programs.turn k e d)
IsRun-turn k e d (es, h) =
    (es ++ e ∷ [], ap (Programs.turn k e) h ∙ sym (run-append k es e (begin original_val)))

record Good (r : Regions) : Type 0 where
  reached : Meeting.Reach 4 r.barrier
  first_run : IsRun pack0 r.first
  second_run : IsRun pack1 r.second
  first_held : Held (left_of r 0) (left_of r 1) r.first
  second_held : Held (left_of r 2) (left_of r 3) r.second

meet-Good :
    (i : ℕ) (r : Regions)
    → i < 4
    → Good r
    → Good (record r { barrier = Meeting.turn macro r.barrier i })
meet-Good i r lt g = record {
  reached = Meeting.later g.reached macro i lt;
  first_run = g.first_run;
  second_run = g.second_run;
  first_held =
      Held-le _ _ _ _ r.first (left-turn r.barrier i 0) (left-turn r.barrier i 1) g.first_held;
  second_held =
      Held-le _ _ _ _ r.second (left-turn r.barrier i 2) (left-turn r.barrier i 3) g.second_held;
}

if-Good : (b : Bool) (x y : Regions) → Good x → (b ≡ false → Good y) → Good (if b then x else y)
if-Good true x y g h = g
if-Good false x y g h = h refl

module _ (i : ℕ) (on r : Regions) (lt : i < 4) where
  meets-Good :
      (st : Stage)
      → ((st ≡ placing) ⊎ (left_of r i ≢ 0) → Good on)
      → Good r
      → Good (meets i st on r)
  meets-Good placing go g = go (inl refl)
  meets-Good st go g =
      if-Good (left_of r i == 0) (record r { barrier = Meeting.turn macro r.barrier i }) on
        (meet-Good i r lt g) (λ e. go (inr (λ z. absurd (ground arith))))

-- A step of the first region, and of the second.
with_first :
    (r : Regions) (e : Event)
    → Good r
    → Held (left_of r 0) (left_of r 1) (Programs.turn pack0 e r.first)
    → Good (record r { first = Programs.turn pack0 e r.first })
with_first r e g h = record {
  reached = g.reached;
  first_run = IsRun-turn pack0 e r.first g.first_run;
  second_run = g.second_run;
  first_held = h;
  second_held = g.second_held;
}

with_second :
    (r : Regions) (e : Event)
    → Good r
    → Held (left_of r 2) (left_of r 3) (Programs.turn pack1 e r.second)
    → Good (record r { second = Programs.turn pack1 e r.second })
with_second r e g h = record {
  reached = g.reached;
  first_run = g.first_run;
  second_run = IsRun-turn pack1 e r.second g.second_run;
  first_held = g.first_held;
  second_held = h;
}

abbrev Goes : Turn → Regions → Type 0
Goes t r = (r' : Regions) × (turn t r ≡ some r') × Good r'

turn-Good : (t : Turn) (r : Regions) → Good r → Goes t r
turn-Good thread0 r g =
    let st = r.first.sleeper.stage in
    (
      _,
      refl,
      meets-Good 0 _ r (omega arith) st
          (λ may. with_first r sleeper_runs g (
            Held-sleeper_at _ _ (TwoRegions.times TwoRegions.ta0) st r.first refl may g.first_held))
          g,
    )
turn-Good thread1 r g =
    let st = r.first.notifier.stage in
    (
      _,
      refl,
      meets-Good 1 _ r (omega arith) st
          (λ may. with_first r notifier_runs g (
            Held-notifier_at _ _ (TwoRegions.times TwoRegions.ta1) st r.first refl may
              g.first_held))
          g,
    )
turn-Good thread2 r g =
    let st = r.second.sleeper.stage in
    (
      _,
      refl,
      meets-Good 2 _ r (omega arith) st
          (λ may. with_second r sleeper_runs g (
            Held-sleeper_at _ _ (TwoRegions.times TwoRegions.ta2) st r.second refl may
              g.second_held))
          g,
    )
turn-Good thread3 r g =
    let st = r.second.notifier.stage in
    (
      _,
      refl,
      meets-Good 3 _ r (omega arith) st
          (λ may. with_second r notifier_runs g (
            Held-notifier_at _ _ (TwoRegions.times TwoRegions.ta3) st r.second refl may
              g.second_held))
          g,
    )
turn-Good interrupted0 r g =
    (_, refl, with_first r interrupted g (Held-interrupt _ _ r.first g.first_held))
turn-Good interrupted2 r g =
    (_, refl, with_second r interrupted g (Held-interrupt _ _ r.second g.second_held))

run_all-Good :
    (ts : List Turn) (r : Regions) → Good r → (r' : Regions) × (run_all ts r ≡ some r') × Good r'
run_all-Good [] r g = (r, refl, g)
run_all-Good (t ∷ ts) r g =
    let (r', e, g') = turn-Good t r g in
    let (r'', f, h) = run_all-Good ts r' g' in
    (r'', ap (λ o. elim o [ none ↦ none | some x ↦ run_all ts x ]) e ∙ f, h)

begin-Good : Good begin_regions
begin-Good = record {
  reached = Meeting.start;
  first_run = ([], refl);
  second_run = ([], refl);
  first_held = ground arith;
  second_held = ground arith;
}

ran-Good : (ts : List Turn) (r : Regions) → run_all ts begin_regions ≡ some r → Good r
ran-Good ts r ran =
    let (r', e, g) = run_all-Good ts begin_regions begin-Good in
    let same : r' ≡ r = cc in subst Good same g

-- To each region a run of the four threads is a run of its pair alone, with the sleeping time of its
-- sleeper and the notifying time of its notifier.
pub run_all-IsRun :
    (ts : List Turn) (r : Regions)
    → run_all ts begin_regions ≡ some r
    → IsRun pack0 r.first × IsRun pack1 r.second
run_all-IsRun ts r ran = let g = ran-Good ts r ran in (g.first_run, g.second_run)

-- In every run of the four threads, as long as one of them has not arrived at their barrier, no
-- thread of either pair has made a test of its loop, and both bytes hold the original value.
pub begin_together :
    (ts : List Turn) (r : Regions) (k : ℕ)
    → run_all ts begin_regions ≡ some r
    → k < 4
    → (r.barrier.threads k).arrived ≡ 0
    → Unbegun r.first × Unbegun r.second
begin_together ts r k ran lt absent =
    let g = ran-Good ts r ran in
    let apart = Inv-Apart 4 r.barrier (Reach-Inv (omega arith) (omega arith) g.reached) in
    let none_left : (i : ℕ) → i < 4 → left_of r i ≡ 0 = λ i p. omega (arith, apart i p k lt) in
    let f = g.first_held in
    let s = g.second_held in
    let zero0 = none_left 0 (omega arith) in
    let zero1 = none_left 1 (omega arith) in
    let zero2 = none_left 2 (omega arith) in
    let zero3 = none_left 3 (omega arith) in
    (
      (f.sleeper_held zero0, f.notifier_held zero1, f.byte_held zero0 zero1),
      (s.sleeper_held zero2, s.notifier_held zero3, s.byte_held zero2 zero3),
    )
