-- ===== src/SenseBarrier/Halted.antt =====
-- The halting barriers do what `spin_barrier_lsense` does, but an interrupt sent too early is lost.
use htsynch.Base.{
  ℕ, zero, suc, ◌+◌, arith, update-all, ◌<◌, ◌≡◌, refl, sym, ap, ◌∙◌, Bool, true, false, update,
  ℕ_discrete, ◌⊎◌, inl, inr,
}
use mathlib.Core.Logic.{ite, if_pos}
use std.Path.{fun_ext}
use htsynch.SenseBarrier.Defs
use htsynch.SenseBarrier.Defs.{SpinBarrier, outside, waiting, spin_barrier_lsense}
use htsynch.SenseBarrier.Halting.{
  Mode, running, halting, halted, sending, Thread, System, act_at, waken, interrupts, turn_at, turn,
  interrupt, Reach, start, later, interrupted,
}

abbrev is_running : Mode → Bool
is_running running = true
is_running _ = false

-- A state without the modes.
abbrev pub erase : System → Defs.System
erase s = record { barrier = s.barrier; threads = λ j. (s.threads j).core }

core-update :
    (f : ℕ → Thread) (i : ℕ) (t : Thread) (j : ℕ)
    → (update f i t j).core ≡ update (λ k. (f k).core) i t.core j
core-update f i t j =
    elim (ℕ_discrete i j) as (λ d. (ite d t (f j)).core ≡ ite d t.core (f j).core) [
      | yes same ↦ refl
      | no ne ↦ refl
    ]

-- A change of a thread that keeps its core is not seen.
core-same :
    (f : ℕ → Thread) (i : ℕ) (t : Thread) (j : ℕ)
    → t.core ≡ (f i).core
    → (update f i t j).core ≡ (f j).core
core-same f i t j e = elim (ℕ_discrete i j) as (λ d. (ite d t (f j)).core ≡ (f j).core) [
  | yes same ↦ e ∙ ap (λ (k : ℕ). (f k).core) same
  | no ne ↦ refl
]

same_threads :
    (b : SpinBarrier) (f g : ℕ → Defs.Thread)
    → ((j : ℕ) → f j ≡ g j)
    → Path Defs.System (record { barrier = b; threads = f }) (record { barrier = b; threads = g })
same_threads b f g e = ap (λ (h : ℕ → Defs.Thread). record { barrier = b; threads = h }) (fun_ext e)

-- A thread that runs makes a step of `spin_barrier_lsense`.
act_at-core :
    (ipi : Bool) (p : Defs.Pc) (b : SpinBarrier) (lsense arrived left : ℕ)
    → let c : Defs.Thread = record { pc = p; lsense = lsense; arrived = arrived; left = left } in
      let r = spin_barrier_lsense b c in
      let q = act_at ipi running p b c in (q.0 ≡ r.0) × (q.1.core ≡ r.1)
unfolding spin_barrier_lsense
act_at-core ipi outside b lsense arrived left = (refl, refl)
act_at-core ipi p b lsense arrived left = ground arith

act_at-core_else :
    (ipi : Bool) (m : Mode) (b : SpinBarrier) (c : Defs.Thread)
    → is_running m ≡ false
    → ((act_at ipi m c.pc b c).0 ≡ b) × ((act_at ipi m c.pc b c).1.core ≡ c)
act_at-core_else ipi halting b c h = (refl, refl)
act_at-core_else ipi m b c h = ground arith

turn_at-erase_else :
    (wakes : ℕ → ℕ → Bool) (ipi : Bool) (m : Mode) (s : System) (i : ℕ)
    → is_running m ≡ false
    → erase (turn_at wakes ipi m s i) ≡ erase s
turn_at-erase_else wakes ipi m s i h =
    let c = (s.threads i).core in
    let q = act_at ipi m c.pc s.barrier c in
    let (e, f) = act_at-core_else ipi m s.barrier c h in
    same_threads q.0 _ _ (λ j. core-same s.threads i q.1 j f)
    ∙ ap (λ (b : SpinBarrier). record { barrier = b; threads = λ (k : ℕ). (s.threads k).core }) e

-- A step of a halting barrier is a step of `spin_barrier_lsense` or changes no core.
turn_at-erase :
    (wakes : ℕ → ℕ → Bool) (ipi : Bool) (m : Mode) (s : System) (i : ℕ)
    → (erase (turn_at wakes ipi m s i) ≡ Defs.turn (erase s) i)
      ⊎ (erase (turn_at wakes ipi m s i) ≡ erase s)
turn_at-erase wakes ipi running s i =
    let c = (s.threads i).core in
    let q = act_at ipi running c.pc s.barrier c in
    let cores = λ (k : ℕ). (s.threads k).core in
    let (e, f) = act_at-core ipi c.pc s.barrier c.lsense c.arrived c.left in
    inl (
      same_threads q.0 _ _ (core-update s.threads i q.1)
      ∙ ap (λ (b : SpinBarrier). record { barrier = b; threads = update cores i q.1.core }) e
      ∙ ap
          (λ (x : Defs.Thread). record {
            barrier = (spin_barrier_lsense s.barrier c).0;
            threads = update cores i x;
          })
          f)
turn_at-erase wakes ipi halting s i = inr (turn_at-erase_else wakes ipi halting s i refl)
turn_at-erase wakes ipi halted s i = inr (turn_at-erase_else wakes ipi halted s i refl)
turn_at-erase wakes ipi sending s i = inr (turn_at-erase_else wakes ipi sending s i refl)

interrupt-erase : (s : System) (i : ℕ) → erase (interrupt s i) ≡ erase s
interrupt-erase s i =
    same_threads s.barrier _ _ (λ j. core-same s.threads i (waken true (s.threads i)) j refl)

step-Reach :
    (n i : ℕ) (s t : System)
    → i < n
    → (erase t ≡ Defs.turn (erase s) i) ⊎ (erase t ≡ erase s)
    → Defs.Reach n (Defs.init n) (erase s)
    → Defs.Reach n (Defs.init n) (erase t)
step-Reach n i s t lt (inl e) r = rw e (Defs.later r i lt)
step-Reach n i s t lt (inr e) r = rw e r

-- Whatever the interleaving of `n` threads, whichever of the two halting functions each calls, and
-- whatever interrupts come or are sent, the barrier and the threads go through a run of
-- `spin_barrier_lsense`; so its safety, and its race, are theirs.
pub erase-Reach :
    (wakes : ℕ → ℕ → Bool) (n : ℕ) (s : System)
    → Reach wakes n s
    → Defs.Reach n (Defs.init n) (erase s)
erase-Reach wakes n s start = Defs.start
erase-Reach wakes n s (later {s = s0} r false i lt) =
    step-Reach n i s0 (turn wakes false s0 i) lt
      (turn_at-erase wakes false (s0.threads i).mode s0 i) (erase-Reach wakes n s0 r)
erase-Reach wakes n s (later {s = s0} r true i lt) =
    step-Reach n i s0 (turn wakes true s0 i) lt (turn_at-erase wakes true (s0.threads i).mode s0 i)
      (erase-Reach wakes n s0 r)
erase-Reach wakes n s (interrupted {s = s0} r i lt) =
    step-Reach n i s0 (interrupt s0 i) lt (inr (interrupt-erase s0 i)) (erase-Reach wakes n s0 r)

-- A thread in the system call that halts.
abbrev pub Asleep : Thread → Type 0
Asleep t = (t.mode ≡ halting) ⊎ (t.mode ≡ halted)

-- Only a waiting thread halts.
abbrev Waits : Thread → Type 0
Waits t = Asleep t → t.core.pc ≡ waiting

act_at-Waits :
    (ipi : Bool) (m : Mode) (p : Defs.Pc) (b : SpinBarrier) (lsense arrived left : ℕ)
    → let c : Defs.Thread = record { pc = p; lsense = lsense; arrived = arrived; left = left } in
      Waits (record { core = c; mode = m }) → Waits (act_at ipi m p b c).1
act_at-Waits ipi running p b lsense arrived left h = λ a. ground arith
act_at-Waits ipi m p b lsense arrived left h = λ a. ground arith

waken-Waits : (w : Bool) (t : Thread) → Waits t → Waits (waken w t)
waken-Waits true t h = λ a. ground arith
waken-Waits false t h = h

turn-Waits :
    (wakes : ℕ → ℕ → Bool) (ipi : Bool) (s : System) (i : ℕ)
    → ((j : ℕ) → Waits (s.threads j))
    → (j : ℕ) → Waits ((turn_at wakes ipi (s.threads i).mode s i).threads j)
turn-Waits wakes ipi s i h j =
    let t = s.threads i in
    let c = t.core in
    waken-Waits (interrupts wakes t.mode i j) (update s.threads i _ j) (
      update-all Waits s.threads i
        (act_at-Waits ipi t.mode c.pc s.barrier c.lsense c.arrived c.left (h i)) h j)

Reach-Waits :
    (wakes : ℕ → ℕ → Bool) (n : ℕ) (s : System) → Reach wakes n s → (j : ℕ) → Waits (s.threads j)
Reach-Waits wakes n s start j = λ a. ground arith
Reach-Waits wakes n s (later {s = s0} r false i lt) j =
    turn-Waits wakes false s0 i (Reach-Waits wakes n s0 r) j
Reach-Waits wakes n s (later {s = s0} r true i lt) j =
    turn-Waits wakes true s0 i (Reach-Waits wakes n s0 r) j
Reach-Waits wakes n s (interrupted {s = s0} r i lt) j =
    update-all Waits s0.threads i (waken-Waits true (s0.threads i) (Reach-Waits wakes n s0 r i))
      (Reach-Waits wakes n s0 r) j

-- Thread `i` makes steps of the function that `ipi` says, and no other thread.
abbrev pub alone : (ℕ → ℕ → Bool) → Bool → ℕ → ℕ → System → System
alone wakes ipi i zero s = s
alone wakes ipi i (suc k) s = alone wakes ipi i k (turn wakes ipi s i)

module _ (wakes : ℕ → ℕ → Bool) (i : ℕ) where
  own : (s : System) (t : Thread) → update s.threads i t i ≡ t
  own s t = if_pos (ℕ_discrete i i) refl t (s.threads i)

  turn_at-Asleep :
      (ipi : Bool) (m : Mode) (s : System)
      → (m ≡ halting) ⊎ (m ≡ halted)
      → let u = turn_at wakes ipi m s i in
        (u.barrier ≡ s.barrier)
        × (u.threads i ≡ record { core = (s.threads i).core; mode = halted })
  turn_at-Asleep ipi halting s a = (refl, ap (waken false) (own s _))
  turn_at-Asleep ipi halted s a = (refl, ap (waken false) (own s _))
  turn_at-Asleep ipi m s a = absurd (ground arith)

  turn-Asleep :
      (ipi : Bool) (s : System)
      → Asleep (s.threads i)
      → let u = turn wakes ipi s i in
        (u.barrier ≡ s.barrier)
        × (u.threads i ≡ record { core = (s.threads i).core; mode = halted })
  turn-Asleep true s a = turn_at-Asleep true (s.threads i).mode s a
  turn-Asleep false s a = turn_at-Asleep false (s.threads i).mode s a

  alone-Asleep :
      (ipi : Bool) (k : ℕ) (s : System)
      → Asleep (s.threads i)
      → ((alone wakes ipi i k s).threads i).core ≡ (s.threads i).core
  alone-Asleep ipi zero s a = refl
  alone-Asleep ipi (suc k) s a =
      let (b, t) = turn-Asleep ipi s a in
      alone-Asleep ipi k (turn wakes ipi s i) (inr (ap (λ (x : Thread). x.mode) t))
      ∙ ap (λ (x : Thread). x.core) t

  act_at-leaves :
      (ipi : Bool) (t : Thread) (b : SpinBarrier)
      → t.mode ≡ running
      → t.core.pc ≡ waiting
      → b.release_flag ≡ t.core.lsense
      → (act_at ipi t.mode t.core.pc b t.core).1.core.left ≡ t.core.left + 1
  act_at-leaves ipi t b awake there flag = rw (awake, there) ground arith

  turn-leaves :
      (ipi : Bool) (s : System)
      → (s.threads i).mode ≡ running
      → (s.threads i).core.pc ≡ waiting
      → s.barrier.release_flag ≡ (s.threads i).core.lsense
      → ((turn wakes ipi s i).threads i).core.left ≡ (s.threads i).core.left + 1
  turn-leaves true s awake there flag =
      ap (λ (x : Thread). x.core.left) (own s _)
      ∙ act_at-leaves true (s.threads i) s.barrier awake there flag
  turn-leaves false s awake there flag =
      ap (λ (x : Thread). x.core.left) (own s _)
      ∙ act_at-leaves false (s.threads i) s.barrier awake there flag

-- In every reachable state, a thread that is in the system call, with the flag at its sense, does not
-- return by any number of its own steps; but it does if an interrupt comes after one of them, with
-- the next.
pub woken-returns :
    (wakes : ℕ → ℕ → Bool) (n : ℕ) (s : System) (ipi : Bool) (i k : ℕ)
    → Reach wakes n s
    → Asleep (s.threads i)
    → s.barrier.release_flag ≡ (s.threads i).core.lsense
    → let left = λ (u : System). (u.threads i).core.left in
      (left (alone wakes ipi i k s) ≡ left s)
      × (left (turn wakes ipi (interrupt (turn wakes ipi s i) i) i) ≡ left s + 1)
woken-returns wakes n s ipi i k r a flag =
    let (b, t) = turn-Asleep wakes i ipi s a in
    let once = turn wakes ipi s i in
    let woken_up : (interrupt once i).threads i
        ≡ record { core = (s.threads i).core; mode = running } =
      own wakes i once _ ∙ ap (waken true) t in
    let core = ap (λ (x : Thread). x.core) woken_up in
    (
      ap (λ (x : Defs.Thread). x.left) (alone-Asleep wakes i ipi k s a),
      turn-leaves wakes i ipi (interrupt once i) (ap (λ (x : Thread). x.mode) woken_up)
            (ap (λ (x : Defs.Thread). x.pc) core ∙ Reach-Waits wakes n s r i a)
            (ap (λ (x : SpinBarrier). x.release_flag) b
              ∙ flag
              ∙ ap (λ (x : Defs.Thread). x.lsense) (sym core))
          ∙ ap (λ (x : Defs.Thread). x.left + 1) core,
    )
