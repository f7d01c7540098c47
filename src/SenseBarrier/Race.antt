-- ===== src/SenseBarrier/Race.antt =====
-- The count is read and reset without the lock: two threads can both find themselves last, and the
-- later reset then wipes out an arrival at the next round.
use htsynch.Base.{
  ℕ, zero, suc, ◌+◌, ◌<◌, ◌≡◌, refl, arith, List, [], ◌∷◌, Bool, true, false, if◌then◌else◌,
  ℕ_discrete, ap, ◌∙◌, ◌≢◌,
}
use htsynch.SenseBarrier.Defs.{
  SpinBarrier, outside, waiting, Thread, flip, spin_barrier_lsense, System, init, turn, Reach,
  start, later,
}

-- Two threads side by side.
record Two : Type 0 where
  barrier : SpinBarrier
  first : Thread
  second : Thread

-- One step of the first thread (`true`) or of the second.
abbrev act : Two → Bool → Two
act v true =
    let r = spin_barrier_lsense v.barrier v.first in
    record { barrier = r.0; first = r.1; second = v.second }
act v false =
    let r = spin_barrier_lsense v.barrier v.second in
    record { barrier = r.0; first = v.first; second = r.1 }

abbrev play : Two → List Bool → Two
play v [] = v
play v (b ∷ l) = play (act v b) l

abbrev view : System → Two
view s = record { barrier = s.barrier; first = s.threads 0; second = s.threads 1 }

view-turn : (s : System) (b : Bool) → view (turn s (if b then 0 else 1)) ≡ act (view s) b
unfolding ℕ_discrete
view-turn s true = refl
view-turn s false = refl

Reach-trans : {s t u : System} → Reach 2 s t → Reach 2 t u → Reach 2 s u
Reach-trans r start = r
Reach-trans r (later q i lt) = later (Reach-trans r q) i lt

-- A schedule of the two threads is a run of the system.
play-Reach : (l : List Bool) (s : System) → (u : System) × Reach 2 s u × (view u ≡ play (view s) l)
play-Reach [] s = (s, start, refl)
play-Reach (b ∷ l) s =
    let (u, r, e) = play-Reach l (turn s (if b then 0 else 1)) in
    (
      u,
      Reach-trans (later start (if b then 0 else 1) (index-lt b)) r,
      e ∙ ap (λ (v : Two). play v l) (view-turn s b),
    )
  where
    index-lt : (c : Bool) → (if c then 0 else 1) < 2
    index-lt true = omega arith
    index-lt false = omega arith

-- Between rounds, after `k` of them, with `b` the flag.
abbrev rest : ℕ → ℕ → Two
rest b k =
    let t : Thread = record { pc = outside; lsense = b; arrived = k; left = k } in
    record {
      barrier = record { release_flag = b; current_count = 0; nthreads = 2 };
      first = t;
      second = t;
    }

abbrev fair : List Bool
fair = true ∷ true ∷ true ∷ false ∷ false ∷ false ∷ false ∷ false ∷ true ∷ []

-- Both arrive, both find the count full; the first resets it, leaves and arrives again before the
-- second resets it.
abbrev race : List Bool
race =
    true ∷ true ∷ false ∷ false ∷ true ∷ false ∷ true ∷ true ∷ true ∷ true ∷ true ∷ false ∷ false
    ∷ false ∷ false ∷ false ∷ []

-- Both wait for a flag that nobody is left to set.
abbrev Stuck : ℕ → Two → Type 0
Stuck k v =
    (v.first.pc ≡ waiting)
    × (v.second.pc ≡ waiting)
    × (v.first.left ≡ k)
    × (v.second.left ≡ k)
    × (v.barrier.release_flag ≢ v.first.lsense)
    × (v.barrier.release_flag ≢ v.second.lsense)

fair-rest : (b : ℕ) → b < 2 → (k : ℕ) → play (rest b k) fair ≡ rest (flip b) (k + 1)
unfolding spin_barrier_lsense
fair-rest zero h k = refl
fair-rest (suc zero) h k = refl
fair-rest (suc (suc b)) h k = absurd (omega arith)

race-Stuck : (b : ℕ) → b < 2 → (k : ℕ) → Stuck (k + 1) (play (rest b k) race)
unfolding spin_barrier_lsense
race-Stuck zero h k = ground arith
race-Stuck (suc zero) h k = ground arith
race-Stuck (suc (suc b)) h k = absurd (omega arith)

flip-lt : (b : ℕ) → flip b < 2
flip-lt b = ground arith

reach-rest : (k : ℕ) → (b : ℕ) × (b < 2) × (s : System) × Reach 2 (init 2) s × (view s ≡ rest b k)
reach-rest zero = (1, omega arith, init 2, start, refl)
reach-rest (suc k) =
    let (b, small, s, r, e) = reach-rest k in
    let (u, r', e') = play-Reach fair s in
    (
      flip b,
      flip-lt b,
      u,
      Reach-trans r r',
      e'
          ∙ ap (λ (v : Two). play v fair) e
          ∙ fair-rest b small k
          ∙ ap (λ (m : ℕ). rest (flip b) m) (omega arith),
    )

turn-Stuck : (s : System) (k i : ℕ) → i < 2 → Stuck k (view s) → Stuck k (view (turn s i))
unfolding spin_barrier_lsense ℕ_discrete
turn-Stuck s k zero h st = ground arith
turn-Stuck s k (suc zero) h st = ground arith
turn-Stuck s k (suc (suc i)) h st = absurd (omega arith)

Reach-Stuck : {s t : System} (k : ℕ) → Stuck k (view s) → Reach 2 s t → Stuck k (view t)
Reach-Stuck k st start = st
Reach-Stuck k st (later {t} r i lt) = turn-Stuck t k i lt (Reach-Stuck k st r)

pub race_run : (k : ℕ) → (s : System) × Reach 2 (init 2) s × Stuck (k + 1) (view s)
race_run k =
    let (b, small, s, r, e) = reach-rest k in
    let (u, r', e') = play-Reach race s in (u, Reach-trans r r', rw (e', e) (race-Stuck b small k))

-- The state after `k` fair rounds of two threads and the race.
unfoldable pub raced : ℕ → System
raced k = (race_run k).0

-- In every round `k`, counted from 0, two threads can come to a state, `raced k`, from which every
-- run leaves both waiting in `spin_barrier_lsense` with `k + 1` returns each.
pub lost_arrival :
    (k : ℕ) (u : System)
    → Reach 2 (raced k) u
    → Reach 2 (init 2) u
      × ((u.threads 0).pc ≡ waiting)
      × ((u.threads 1).pc ≡ waiting)
      × ((u.threads 0).left ≡ k + 1)
      × ((u.threads 1).left ≡ k + 1)
unfolding raced
lost_arrival k u r =
    let st = Reach-Stuck (k + 1) (race_run k).2 r in
    (Reach-trans (race_run k).1 r, st.0, st.1, st.2, st.3)
