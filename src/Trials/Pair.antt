-- ===== src/Trials/Pair.antt =====
-- The functions `heavy` and `light` of mwait_barrier/test_barriers.c, over any barrier. Their first
-- wait, at a barrier of the thread library, only delays them and is left out, as are the timers; of
-- the work only the number of its rounds is kept.
use htsynch.Base.{ℕ, ◌+◌, ltb, Bool, true, false, not, ◌&&◌, if◌then◌else◌, List, [], ◌∷◌}
use htsynch.Trials.Interface.{RoundBarrier}

-- Where a thread stands: `looping` before the test of its `for`, `working` before `do_work`,
-- `calling` in the barrier.
pub data Stage : Type 0 where
  looping working calling finished : Stage

-- `work` counts the calls of `do_work`.
pub record Worker : Type 0 where
  pub stage : Stage
  pub i : ℕ
  pub work : ℕ

pub record Trial (S : Type 0) : Type 0 where
  pub shared : S
  pub heavy : Worker
  pub light : Worker

abbrev pub worker : {S : Type 0} → Bool → Trial S → Worker
worker true t = t.heavy
worker false t = t.light

abbrev pub put : {S : Type 0} → Bool → Worker → Trial S → Trial S
put true w t = record t { heavy = w }
put false w t = record t { light = w }

abbrev fresh : Worker
fresh = record { stage = Stage.looping; i = 0; work = 0 }

module _ (R : RoundBarrier) (iterations : ℕ) where
  abbrev pub begin : Trial R.State
  begin = record { shared = R.begin; heavy = fresh; light = fresh }

  -- The loops differ only in the work.
  abbrev pub turn_at : Bool → Stage → Trial R.State → Trial R.State
  turn_at b Stage.looping t =
      let w = worker b t in
      put b (record w { stage = if ltb w.i iterations then Stage.working else Stage.finished }) t
  turn_at b Stage.working t =
      let w = worker b t in put b (record w { stage = Stage.calling; work = w.work + 1 }) t
  turn_at b Stage.calling t =
      let w = worker b t in
      let s = R.step b t.shared in
      put b
        (if not (R.out b t.shared) && R.out b s
          then record w { stage = Stage.looping; i = w.i + 1 }
          else w)
        (record t { shared = s })
  turn_at b Stage.finished t = t

  abbrev pub heavy : Trial R.State → Trial R.State
  heavy t = turn_at true t.heavy.stage t

  abbrev pub light : Trial R.State → Trial R.State
  light t = turn_at false t.light.stage t

-- A step of a thread, or what else may happen.
pub data Event (N : Type 0) : Type 0 where
  heavy_runs light_runs : Event N
  disturbed : N → Event N

module _ (R : RoundBarrier) (iterations : ℕ) where
  unfoldable pub turn : Event R.Noise → Trial R.State → Trial R.State
  turn heavy_runs t = heavy R iterations t
  turn light_runs t = light R iterations t
  turn (disturbed e) t = record t { shared = R.disturb e t.shared }

  -- The state after some events, the first one first.
  unfoldable pub run : List (Event R.Noise) → Trial R.State → Trial R.State
  run [] t = t
  run (e ∷ es) t = run es (turn e t)
