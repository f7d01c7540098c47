-- ===== src/Trials/Lockstep.antt =====
-- The threads of a pair keep step, and over a lively barrier they both finish.
use htsynch.Base.{
  ℕ, ◌+◌, ◌≤◌, ◌<◌, ◌≡◌, ◌⊎◌, inl, inr, arith, ltb, Bool, true, false, not, ◌&&◌, if◌then◌else◌,
  List, [], ◌∷◌, refl,
}
use htsynch.Trials.Interface.{RoundBarrier, Lively}
use htsynch.Trials.Pair.{
  Stage, looping, working, calling, finished, Worker, Trial, worker, begin, turn_at, Event,
  heavy_runs, light_runs, disturbed, turn, run,
}

abbrev is_calling : Stage → Bool
is_calling calling = true
is_calling _ = false

-- What holds of a thread with the barrier's view of it.
pub record Fits (n : ℕ) (w : Worker) (out : Bool) (left : ℕ) : Type 0 where
  pub counts : left ≡ w.i
  pub worked : w.work ≡ w.i + (if is_calling w.stage then 1 else 0)
  pub outside : is_calling w.stage ≡ false → out ≡ true
  pub bound : w.i ≤ n
  pub busy : (w.stage ≡ working) ⊎ (w.stage ≡ calling) → w.i < n
  pub ended : w.stage ≡ finished → w.i ≡ n

-- The thread whose step of the call this is.
Fits-call :
    (n i work : ℕ) (out out' : Bool) (left left' : ℕ)
    → (out ≡ true → out' ≡ false)
    → left' ≡ left + (if not out && out' then 1 else 0)
    → let w : Worker = record { stage = calling; i = i; work = work } in
      Fits n w out left
      → Fits n (if not out && out' then record w { stage = looping; i = i + 1 } else w) out' left'
Fits-call n i work out out' left left' e c f = ground arith

Fits-loop :
    (n i work : ℕ) (out : Bool) (left : ℕ)
    → let w : Worker = record { stage = looping; i = i; work = work } in
      Fits n w out left
      → Fits n (record w { stage = if ltb i n then working else finished }) out left
Fits-loop n i work out left f = ground arith

Fits-work :
    (n i work : ℕ) (out : Bool) (left : ℕ)
    → let w : Worker = record { stage = working; i = i; work = work } in
      Fits n w out left → Fits n (record w { stage = calling; work = work + 1 }) out left
Fits-work n i work out left f = ground arith

Fits-same :
    (n : ℕ) (w : Worker) (out out' : Bool) (left left' : ℕ)
    → out' ≡ out
    → left' ≡ left
    → Fits n w out left
    → Fits n w out' left'
Fits-same n w out out' left left' e c f = ground arith

module _ (R : RoundBarrier) (n : ℕ) where
  abbrev FitsAt : Bool → Worker → R.State → Type 0
  FitsAt b w s = Fits n w (R.out b s) (R.left b s)

  pub record Good (t : Trial R.State) : Type 0 where
    pub reached : R.IsReached t.shared
    pub heavy_fits : FitsAt true t.heavy t.shared
    pub light_fits : FitsAt false t.light t.shared

  -- The worker of thread `b` after a step of its call.
  abbrev called : Bool → Worker → R.State → Worker
  called b w s =
      if not (R.out b s) && R.out b (R.step b s)
      then record w { stage = looping; i = w.i + 1 }
      else w

  call-FitsAt :
      (b : Bool) (i work : ℕ) (s : R.State)
      → let w : Worker = record { stage = calling; i = i; work = work } in
        R.IsReached s → FitsAt b w s → FitsAt b (called b w s) (R.step b s)
  call-FitsAt b i work s r f =
      Fits-call n i work (R.out b s) (R.out b (R.step b s)) (R.left b s) (R.left b (R.step b s))
        (R.out-step b s r) (R.left-step b s r) f

  call-FitsAt_other :
      (b : Bool) (u : Worker) (s : R.State) → FitsAt (not b) u s → FitsAt (not b) u (R.step b s)
  call-FitsAt_other b u s f = Fits-same n u _ _ _ _ (R.out-step_other b s) (R.left-step_other b s) f

  heavy-Good :
      (st : Stage) (i work : ℕ) (s : R.State) (u : Worker)
      → let t : Trial R.State = record {
        shared = s;
        heavy = record { stage = st; i = i; work = work };
        light = u;
      } in
        Good t → Good (turn_at R n true st t)
  heavy-Good looping i work s u g = record {
    reached = g.reached;
    heavy_fits = Fits-loop n i work _ _ g.heavy_fits;
    light_fits = g.light_fits;
  }
  heavy-Good working i work s u g = record {
    reached = g.reached;
    heavy_fits = Fits-work n i work _ _ g.heavy_fits;
    light_fits = g.light_fits;
  }
  heavy-Good calling i work s u g = record {
    reached = R.step-IsReached true s g.reached;
    heavy_fits = call-FitsAt true i work s g.reached g.heavy_fits;
    light_fits = call-FitsAt_other true u s g.light_fits;
  }
  heavy-Good finished i work s u g = g

  light-Good :
      (st : Stage) (i work : ℕ) (s : R.State) (u : Worker)
      → let t : Trial R.State = record {
        shared = s;
        heavy = u;
        light = record { stage = st; i = i; work = work };
      } in
        Good t → Good (turn_at R n false st t)
  light-Good looping i work s u g = record {
    reached = g.reached;
    heavy_fits = g.heavy_fits;
    light_fits = Fits-loop n i work _ _ g.light_fits;
  }
  light-Good working i work s u g = record {
    reached = g.reached;
    heavy_fits = g.heavy_fits;
    light_fits = Fits-work n i work _ _ g.light_fits;
  }
  light-Good calling i work s u g = record {
    reached = R.step-IsReached false s g.reached;
    heavy_fits = call-FitsAt_other false u s g.heavy_fits;
    light_fits = call-FitsAt false i work s g.reached g.light_fits;
  }
  light-Good finished i work s u g = g

  turn-Good : (e : Event R.Noise) (t : Trial R.State) → Good t → Good (turn R n e t)
  unfolding turn
  turn-Good heavy_runs t g = heavy-Good t.heavy.stage t.heavy.i t.heavy.work t.shared t.light g
  turn-Good light_runs t g = light-Good t.light.stage t.light.i t.light.work t.shared t.heavy g
  turn-Good (disturbed e) t g = record {
    reached = R.disturb-IsReached e t.shared g.reached;
    heavy_fits =
        Fits-same n t.heavy _ _ _ _ (R.out-disturb true e t.shared) (R.left-disturb true e t.shared)
          g.heavy_fits;
    light_fits =
        Fits-same n t.light _ _ _ _ (R.out-disturb false e t.shared)
          (R.left-disturb false e t.shared) g.light_fits;
  }

  fresh-FitsAt : (b : Bool) → FitsAt b (record { stage = looping; i = 0; work = 0 }) R.begin
  fresh-FitsAt b = ground (arith, R.out-begin b, R.left-begin b)

  begin-Good : Good (begin R n)
  begin-Good = record {
    reached = R.begin-IsReached;
    heavy_fits = fresh-FitsAt true;
    light_fits = fresh-FitsAt false;
  }

  run-Good : (es : List (Event R.Noise)) (t : Trial R.State) → Good t → Good (run R n es t)
  unfolding run
  run-Good [] t g = g
  run-Good (e ∷ es) t g = run-Good es (turn R n e t) (turn-Good e t g)

  -- What `within`, `own` and `apart` come to for the workers.
  keep_step :
      (b : Bool) (w u : Worker) (s : R.State)
      → R.IsReached s
      → FitsAt b w s
      → FitsAt (not b) u s
      → (w.i ≤ u.work) × (w.work ≤ u.work + 1)
  keep_step b w u s r f g = ground (arith, R.within (not b) s r, R.apart b s r)

-- However the threads of a pair interleave, neither has returned from more rounds than the other has
-- worked, and neither has worked more than one round more than the other; and none works more than
-- `iterations` rounds.
pub lockstep :
    (R : RoundBarrier) (iterations : ℕ) (es : List (Event R.Noise))
    → let t = run R iterations es (begin R iterations) in
      (t.heavy.i ≤ t.light.work)
      × (t.light.i ≤ t.heavy.work)
      × (t.heavy.work ≤ t.light.work + 1)
      × (t.light.work ≤ t.heavy.work + 1)
      × (t.heavy.work ≤ iterations)
      × (t.light.work ≤ iterations)
lockstep R n es =
    let t = run R n es (begin R n) in
    let g = run-Good R n es (begin R n) (begin-Good R n) in
    let (a, c) = keep_step R n true t.heavy t.light t.shared g.reached g.heavy_fits g.light_fits in
    let (b, d) = keep_step R n false t.light t.heavy t.shared g.reached g.light_fits g.heavy_fits in
    (a, b, c, d, bounded t.heavy _ _ g.heavy_fits, bounded t.light _ _ g.light_fits)
  where
    bounded : (w : Worker) (out : Bool) (left : ℕ) → Fits n w out left → w.work ≤ n
    bounded w out left f = ground arith

-- A thread that has not finished and cannot go on.
abbrev pub Hangs : {R : RoundBarrier} → Lively R → Bool → Trial R.State → Type 0
Hangs L b t = ((worker b t).stage ≡ calling) × L.Blocked b t.shared

module _ (R : RoundBarrier) (L : Lively R) (n : ℕ) where
  waits_for_finished :
      (b : Bool) (w u : Worker) (s : R.State)
      → R.IsReached s
      → FitsAt R n b w s
      → FitsAt R n (not b) u s
      → w.stage ≡ calling
      → L.Blocked b s
      → u.stage ≡ finished
      → ⊥
  waits_for_finished b w u s r f g c k e =
      let o : R.out (not b) s ≡ true = g.outside (rw e refl) in
      ground (arith, L.waits b s r k o, R.within b s r, R.own (not b) s r)

-- Over a lively barrier the pair does not stop before its end: if each thread has finished or is
-- blocked in the barrier, then both have finished, with all their work done.
pub no_hang :
    (R : RoundBarrier) (L : Lively R) (iterations : ℕ) (es : List (Event R.Noise))
    → let t = run R iterations es (begin R iterations) in
      (t.heavy.stage ≡ finished) ⊎ Hangs L true t
      → (t.light.stage ≡ finished) ⊎ Hangs L false t
      → (t.heavy.stage ≡ finished)
        × (t.light.stage ≡ finished)
        × (t.heavy.work ≡ iterations)
        × (t.light.work ≡ iterations)
no_hang R L n es (inl h) (inl l) =
    let t = run R n es (begin R n) in
    let g = run-Good R n es (begin R n) (begin-Good R n) in
    (h, l, whole t.heavy _ _ g.heavy_fits h, whole t.light _ _ g.light_fits l)
  where
    whole :
        (w : Worker) (out : Bool) (left : ℕ) → Fits n w out left → w.stage ≡ finished → w.work ≡ n
    whole w out left f e = ground arith
no_hang R L n es (inl h) (inr (c, k)) =
    let t = run R n es (begin R n) in
    let g = run-Good R n es (begin R n) (begin-Good R n) in
    absurd (
      waits_for_finished R L n false t.light t.heavy t.shared g.reached g.light_fits g.heavy_fits c
        k h)
no_hang R L n es (inr (c, k)) (inl l) =
    let t = run R n es (begin R n) in
    let g = run-Good R n es (begin R n) (begin-Good R n) in
    absurd (
      waits_for_finished R L n true t.heavy t.light t.shared g.reached g.heavy_fits g.light_fits c k
        l)
no_hang R L n es (inr (c, k)) (inr (c', k')) =
    let g = run-Good R n es (begin R n) (begin-Good R n) in absurd (L.one-Blocked _ g.reached k k')
