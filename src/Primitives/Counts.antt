-- ===== src/Primitives/Counts.antt =====
-- What holds of the two threads of test_primitives.c between two events.
use htsynch.Base.{
  ℕ, suc, ◌+◌, ◌%◌, ◌≤◌, ◌<◌, ◌≡◌, ap, arith, ◌==◌, Bool, true, false, if◌then◌else◌, List, [], ◌∷◌,
}
use htsynch.Primitives.Signal.{Signal}
use htsynch.Primitives.Rows.{
  rows, Stage, looping, syncing, finished, Worker, Trial, synced, test, enters, Event, heavy_runs,
  light_runs, interrupted, heavy_at, light_at, begin, turn, run, syncing_rows,
}

abbrev pub is_syncing : Stage → Bool
is_syncing syncing = true
is_syncing _ = false

-- A worker's count is that of the rows it has passed.
pub record Counted (p : ℕ) (w : Worker) : Type 0 where
  pub count : w.syncs ≡ syncing_rows p w.i
  pub bound : w.i ≤ rows
  pub at_sync : w.stage ≡ syncing → (w.i < rows) × ((w.i % p == 0) ≡ true)
  pub ended : w.stage ≡ finished → w.i ≡ rows

rows-next : (p i : ℕ) → syncing_rows p (i + 1) ≡ syncing_rows p i + (if i % p == 0 then 1 else 0)
rows-next p i = let e : i + 1 ≡ suc i = omega arith in ap (syncing_rows p) e

pub test-Counted :
    (p i syncs : ℕ)
    → let w : Worker = record { stage = looping; i = i; syncs = syncs } in
      Counted p w → Counted p (test p w)
test-Counted p i syncs c = ground (arith, rows-next p i)

synced-Counted :
    (p i syncs : ℕ)
    → let w : Worker = record { stage = syncing; i = i; syncs = syncs } in
      Counted p w → Counted p (synced w)
synced-Counted p i syncs c = ground (arith, rows-next p i)

module _ (G : Signal) (p : ℕ) where
  -- `heavy` notifications and `light` sleeps so far, and whether the light thread sleeps.
  pub record Uses (heavy light : ℕ) (asleep : Bool) (s : G.State) : Type 0 where
    pub used : light + G.pending s ≤ heavy
    pub done : G.done s ≡ (if asleep then false else true)

  Uses-notify : (h l : ℕ) (b : Bool) (s : G.State) → Uses h l b s → Uses (h + 1) l b (G.notify s)
  Uses-notify h l b s u = ground (arith, G.pending-le (G.notify s), G.done-notify s)

  pub Uses-test :
      (h l i : ℕ) (s : G.State)
      → Uses h l false s
      → let w : Worker = test p (record { stage = looping; i = i; syncs = l }) in
        Uses h w.syncs (is_syncing w.stage) (enters G p w s)
  Uses-test h l i s u = ground (arith, G.enter-pending s)

  pub Uses-step :
      (h l i : ℕ) (s : G.State)
      → Uses h l true s
      → let w : Worker = record { stage = syncing; i = i; syncs = l } in
        let w' = if G.done (G.step s) then synced w else w in
        Uses h w'.syncs (is_syncing w'.stage) (G.step s)
  Uses-step h l i s u = ground (arith, G.step-pending s)

  pub Uses-disturb : (h l : ℕ) (b : Bool) (s : G.State) → Uses h l b s → Uses h l b (G.disturb s)
  Uses-disturb h l b s u = ground (arith, G.disturb-pending s)

  pub record Good (t : Trial G.State) : Type 0 where
    pub heavy_rows : Counted p t.heavy
    pub light_rows : Counted p t.light
    pub uses : Uses t.heavy.syncs t.light.syncs (is_syncing t.light.stage) t.shared

  heavy-Good :
      (st : Stage) (i h : ℕ) (s : G.State) (u : Worker)
      → let t : Trial G.State = record {
        shared = s;
        heavy = record { stage = st; i = i; syncs = h };
        light = u;
      } in
        Good t → Good (heavy_at G p st t)
  heavy-Good looping i h s u g = record {
    heavy_rows = test-Counted p i h g.heavy_rows;
    light_rows = g.light_rows;
    uses = rw (test-syncs i h) g.uses;
  }
    where
      test-syncs : (i h : ℕ) → (test p (record { stage = looping; i = i; syncs = h })).syncs ≡ h
      test-syncs i h = ground arith
  heavy-Good syncing i h s u g = record {
    heavy_rows = synced-Counted p i h g.heavy_rows;
    light_rows = g.light_rows;
    uses = Uses-notify h u.syncs (is_syncing u.stage) s g.uses;
  }
  heavy-Good finished i h s u g = g

  pub synced_if-Counted :
      (b : Bool) (i l : ℕ)
      → let w : Worker = record { stage = syncing; i = i; syncs = l } in
        Counted p w → Counted p (if b then synced w else w)
  synced_if-Counted true i l c = synced-Counted p i l c
  synced_if-Counted false i l c = c

  light-Good :
      (st : Stage) (i l : ℕ) (s : G.State) (w : Worker)
      → let t : Trial G.State = record {
        shared = s;
        heavy = w;
        light = record { stage = st; i = i; syncs = l };
      } in
        Good t → Good (light_at G p st t)
  light-Good looping i l s w g = record {
    heavy_rows = g.heavy_rows;
    light_rows = test-Counted p i l g.light_rows;
    uses = Uses-test w.syncs l i s g.uses;
  }
  light-Good syncing i l s w g = record {
    heavy_rows = g.heavy_rows;
    light_rows = synced_if-Counted (G.done (G.step s)) i l g.light_rows;
    uses = Uses-step w.syncs l i s g.uses;
  }
  light-Good finished i l s w g = g

  turn-Good : (e : Event) (t : Trial G.State) → Good t → Good (turn G p e t)
  unfolding turn
  turn-Good heavy_runs t g = heavy-Good t.heavy.stage t.heavy.i t.heavy.syncs t.shared t.light g
  turn-Good light_runs t g = light-Good t.light.stage t.light.i t.light.syncs t.shared t.heavy g
  turn-Good interrupted t g = record {
    heavy_rows = g.heavy_rows;
    light_rows = g.light_rows;
    uses = Uses-disturb t.heavy.syncs t.light.syncs (is_syncing t.light.stage) t.shared g.uses;
  }

  pub begin-Good : Good (begin G p)
  begin-Good = ground (arith, G.done-begin, G.pending-begin)

  pub run-Good : (es : List Event) (t : Trial G.State) → Good t → Good (run G p es t)
  unfolding run
  run-Good [] t g = g
  run-Good (e ∷ es) t g = run-Good es (turn G p e t) (turn-Good e t g)
