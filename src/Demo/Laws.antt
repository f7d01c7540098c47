-- ===== src/Demo/Laws.antt =====
-- What every run of a program ends in.
use htsynch.Base.{
  ℕ, ◌+◌, ◌<◌, ◌≤◌, ◌≡◌, ◌≢◌, refl, ap, ◌∙◌, arith, if◌then◌else◌, none, some, List, [], ◌∷◌,
}
use htsynch.Monitor.Defs.{original_val, notified_val}
use htsynch.Demo.Threads.{Program, at_original, finished, Demo, Event, begin, happens}
use htsynch.Demo.Programs.{
  Pair, program, run, turn-happens, first_byte, program_times, first_byte-ne,
}
use htsynch.Demo.Invariant.{Good}
use htsynch.Demo.Progress.{after, run-Good, sleeper_steps, rank-after, rank-le}

Good-finished :
    (p : Program) (b : ℕ) (d : Demo)
    → Good p b d
    → d.sleeper.stage ≡ finished
    → (p.notify_time < d.notifier.i)
      × (d.call.byte ≡ original_val)
      × (d.sleeper.report ≡ (if p.reports then some at_original else none))
Good-finished p b d g e = ground arith

-- The programs' own steps are those above with the times of the program.
run-after : (k : Pair) (es : List Event) (d : Demo) → run k es d ≡ after (program k) es d
run-after k [] d = refl
run-after k (e ∷ es) d =
    ap (run k es) (turn-happens k e d) ∙ run-after k es (happens (program k) e d)

pub run-begin-Good :
    (k : Pair) (b : ℕ) (es : List Event)
    → b ≢ notified_val
    → Good (program k) (first_byte k b) (run k es (begin (first_byte k b)))
run-begin-Good k b es ne =
    let p = program k in
    let b0 = first_byte k b in
    rw (run-after k es (begin b0))
      (run-Good p b0 (first_byte-ne k b ne) (program_times k).0 (program_times k).1 es)

-- Whatever the interleaving of the threads and whatever interrupts come, in each of the programs
-- the sleeper has finished only after the notifier's store; then the byte holds the original value,
-- which is what the sleeper reports, if the program reports at all. In thread_test_umon_unot.c the
-- memory must not hold the notified value at the start.
pub sleeper_finished :
    (k : Pair) (b : ℕ) (es : List Event)
    → b ≢ notified_val
    → (run k es (begin (first_byte k b))).sleeper.stage ≡ finished
    → let d = run k es (begin (first_byte k b)) in
      ((program k).notify_time < d.notifier.i)
      × (d.call.byte ≡ original_val)
      × (d.sleeper.report ≡ (if (program k).reports then some at_original else none))
sleeper_finished k b es ne e =
    Good-finished (program k) (first_byte k b) (run k es (begin (first_byte k b)))
      (run-begin-Good k b es ne) e

-- Once the notifier has made its store, in any further run in which the sleeper makes nine more
-- steps of its own than the loop has rounds, wherever it stands, it finishes: no notification is
-- lost. In thread_test_umon_unot.c the memory must not hold the notified value at the start.
pub sleeper_finishes :
    (k : Pair) (b : ℕ) (es more : List Event)
    → b ≢ notified_val
    → (program k).notify_time < (run k es (begin (first_byte k b))).notifier.i
    → (program k).end_time + 9 ≤ sleeper_steps more
    → (run k more (run k es (begin (first_byte k b)))).sleeper.stage ≡ finished
sleeper_finishes k b es more ne past enough =
    let p = program k in
    let b0 = first_byte k b in
    let d = run k es (begin b0) in
    let times = program_times k in
    let ne0 = first_byte-ne k b ne in
    ap (λ (x : Demo). x.sleeper.stage) (run-after k more d)
    ∙ rank-after p b0 ne0 times.0 times.1 more d (run-begin-Good k b es ne) past
        (omega (arith, rank-le p b0 ne0 times.0 times.1 d))
