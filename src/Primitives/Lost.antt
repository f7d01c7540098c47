-- ===== src/Primitives/Lost.antt =====
-- Each sleep takes a notification, and notifications that nobody has taken do not add up.
use htsynch.Base.{ℕ, ◌+◌, ◌≤◌, ◌≡◌, ◌≢◌, ap, arith, List, [], ◌∷◌}
use htsynch.Primitives.Signal.{Signal}
use htsynch.Primitives.Rows.{
  rows, Stage, looping, syncing, finished, Worker, Trial, Event, heavy_runs, light_runs,
  interrupted, heavy_at, light_at, begin, turn, run, syncing_rows,
}
use htsynch.Primitives.Counts.{
  is_syncing, Counted, Uses, Good, test-Counted, Uses-test, Uses-step, Uses-disturb,
  synced_if-Counted, begin-Good, run-Good,
}

module _ (G : Signal) (p : ℕ) where
  -- The heavy thread has ended, and the light one can end no more than `budget` sleeps in all.
  pub record Quiet (budget : ℕ) (t : Trial G.State) : Type 0 where
    pub over : t.heavy.stage ≡ finished
    pub rows_left : Counted p t.light
    pub within : Uses G p budget t.light.syncs (is_syncing t.light.stage) t.shared

  light-Quiet :
      (budget : ℕ) (st : Stage) (i l : ℕ) (s : G.State) (w : Worker)
      → let t : Trial G.State = record {
        shared = s;
        heavy = w;
        light = record { stage = st; i = i; syncs = l };
      } in
        Quiet budget t → Quiet budget (light_at G p st t)
  light-Quiet budget looping i l s w q = record {
    over = q.over;
    rows_left = test-Counted p i l q.rows_left;
    within = Uses-test G p budget l i s q.within;
  }
  light-Quiet budget syncing i l s w q = record {
    over = q.over;
    rows_left = synced_if-Counted G p (G.done (G.step s)) i l q.rows_left;
    within = Uses-step G p budget l i s q.within;
  }
  light-Quiet budget finished i l s w q = q

  heavy-Quiet :
      (budget : ℕ) (st : Stage) (t : Trial G.State)
      → st ≡ finished
      → Quiet budget t
      → Quiet budget (heavy_at G p st t)
  heavy-Quiet budget finished t e q = q
  heavy-Quiet budget looping t e q = cc
  heavy-Quiet budget syncing t e q = cc

  turn-Quiet :
      (budget : ℕ) (e : Event) (t : Trial G.State) → Quiet budget t → Quiet budget (turn G p e t)
  unfolding turn
  turn-Quiet budget heavy_runs t q = heavy-Quiet budget t.heavy.stage t q.over q
  turn-Quiet budget light_runs t q =
      light-Quiet budget t.light.stage t.light.i t.light.syncs t.shared t.heavy q
  turn-Quiet budget interrupted t q = record {
    over = q.over;
    rows_left = q.rows_left;
    within = Uses-disturb G p budget t.light.syncs (is_syncing t.light.stage) t.shared q.within;
  }

  run-Quiet :
      (budget : ℕ) (es : List Event) (t : Trial G.State)
      → Quiet budget t
      → Quiet budget (run G p es t)
  unfolding run
  run-Quiet budget [] t q = q
  run-Quiet budget (e ∷ es) t q = run-Quiet budget es (turn G p e t) (turn-Quiet budget e t q)

  Good-Quiet :
      (t : Trial G.State) → Good G p t → t.heavy.stage ≡ finished → Quiet (t.light.syncs + 1) t
  Good-Quiet t g e = record {
    over = e;
    rows_left = g.light_rows;
    within = record { used = omega (arith, G.pending-le t.shared); done = g.uses.done };
  }

  -- For any number of rows, as a numeral would be counted out.
  finished-le :
      (n i l pending budget : ℕ)
      → l ≡ syncing_rows p i
      → i ≡ n
      → l + pending ≤ budget
      → syncing_rows p n ≤ budget
  finished-le n i l pending budget c e u = omega (arith, c, ap (syncing_rows p) e)

  Quiet-finished :
      (budget : ℕ) (t : Trial G.State)
      → Quiet budget t
      → t.light.stage ≡ finished
      → syncing_rows p rows ≤ budget
  Quiet-finished budget t q e =
      finished-le rows t.light.i t.light.syncs (G.pending t.shared) budget q.rows_left.count
        (q.rows_left.ended e) q.within.used

too_few : (a c : ℕ) → a + 2 ≤ c → c ≤ a + 1 → ⊥
too_few a c h k = omega arith

-- However the threads interleave and whatever interrupts come, the light thread has ended at most as
-- many sleeps as the heavy thread has made notifications, which are as many as the rows that sync
-- among those it has passed.
pub sleeps-le-notifications :
    (G : Signal) (sync_period : ℕ) (es : List Event)
    → let t = run G sync_period es (begin G sync_period) in
      (t.light.syncs ≤ t.heavy.syncs) × (t.heavy.syncs ≡ syncing_rows sync_period t.heavy.i)
sleeps-le-notifications G p es =
    let g = run-Good G p es (begin G p) (begin-Good G p) in
    (omega (arith, g.uses.used), g.heavy_rows.count)

-- Notifications are lost: if the heavy thread has ended while the light one has at least two sleeps
-- to go, the light thread never ends, whatever happens then.
pub lost_notifications :
    (G : Signal) (sync_period : ℕ) (es more : List Event)
    → let t = run G sync_period es (begin G sync_period) in
      t.heavy.stage ≡ finished
      → t.light.syncs + 2 ≤ syncing_rows sync_period rows
      → (run G sync_period more t).light.stage ≢ finished
lost_notifications G p es more over few e =
    let t = run G p es (begin G p) in
    let g = run-Good G p es (begin G p) (begin-Good G p) in
    let q = run-Quiet G p (t.light.syncs + 1) more t (Good-Quiet G p t g over) in
    too_few t.light.syncs (syncing_rows p rows) few
      (Quiet-finished G p (t.light.syncs + 1) (run G p more t) q e)
