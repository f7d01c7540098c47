-- ===== src/Primitives/Rows.antt =====
-- The functions `heavy` and `light` of mwait_barrier/test_primitives.c, over any signal. Of the matrix
-- product only the rows are kept, the timers are left out, and so is the wait of both threads at a
-- barrier of the thread library before their loops.
use htsynch.Base.{ℕ, zero, suc, ◌+◌, ◌%◌, ltb, ◌==◌, if◌then◌else◌, List, [], ◌∷◌}
use htsynch.Primitives.Signal.{Signal}

-- N
abbrev pub rows : ℕ
rows = 512

-- Where a thread stands: `looping` before the test of its `for`, `syncing` in the body of the `if`.
pub data Stage : Type 0 where
  looping syncing finished : Stage

-- `syncs` counts the notifications of the heavy thread, and the sleeps that the light one has ended.
pub record Worker : Type 0 where
  pub stage : Stage
  pub i : ℕ
  pub syncs : ℕ

pub record Trial (S : Type 0) : Type 0 where
  pub shared : S
  pub heavy : Worker
  pub light : Worker

abbrev pub next_row : Worker → Worker
next_row w = record w { stage = Stage.looping; i = w.i + 1 }

-- The body of the `if` is over.
abbrev pub synced : Worker → Worker
synced w = record { stage = Stage.looping; i = w.i + 1; syncs = w.syncs + 1 }

-- The test of the `for` and then of the `if`; `sync_period` is not 0.
abbrev pub test : ℕ → Worker → Worker
test sync_period w =
    if ltb w.i rows
    then if w.i % sync_period == 0 then record w { stage = Stage.syncing } else next_row w
    else record w { stage = Stage.finished }

abbrev fresh : Worker
fresh = record { stage = Stage.looping; i = 0; syncs = 0 }

-- A step of a thread, or an interrupt of the light thread's processor.
pub data Event : Type 0 where
  heavy_runs light_runs interrupted : Event

module _ (G : Signal) (sync_period : ℕ) where
  abbrev pub heavy_at : Stage → Trial G.State → Trial G.State
  heavy_at Stage.looping t = record t { heavy = test sync_period t.heavy }
  heavy_at Stage.syncing t = record t { shared = G.notify t.shared; heavy = synced t.heavy }
  heavy_at Stage.finished t = t

  abbrev pub heavy : Trial G.State → Trial G.State
  heavy t = heavy_at t.heavy.stage t

  -- The light thread enters a wait as it finds the row to be one that syncs.
  abbrev pub enters : Worker → G.State → G.State
  enters w s = elim w.stage [ Stage.syncing ↦ G.enter s | _ ↦ s ]

  abbrev pub light_at : Stage → Trial G.State → Trial G.State
  light_at Stage.looping t =
      let w = test sync_period t.light in record t { shared = enters w t.shared; light = w }
  light_at Stage.syncing t =
      let s = G.step t.shared in
      record t { shared = s; light = if G.done s then synced t.light else t.light }
  light_at Stage.finished t = t

  abbrev pub light : Trial G.State → Trial G.State
  light t = light_at t.light.stage t

  abbrev pub begin : Trial G.State
  begin = record { shared = G.begin; heavy = fresh; light = fresh }

  unfoldable pub turn : Event → Trial G.State → Trial G.State
  turn heavy_runs t = heavy t
  turn light_runs t = light t
  turn interrupted t = record t { shared = G.disturb t.shared }

  -- The state after some events, the first one first.
  unfoldable pub run : List Event → Trial G.State → Trial G.State
  run [] t = t
  run (e ∷ es) t = run es (turn e t)

-- How many of the first `n` rows sync.
abbrev pub syncing_rows : ℕ → ℕ → ℕ
syncing_rows sync_period zero = 0
syncing_rows sync_period (suc i) =
    syncing_rows sync_period i + (if i % sync_period == 0 then 1 else 0)
