-- ===== src/LockedBarrier/Safety.antt =====
-- Every reachable state is in some phase of some round, with the lock taken just if it is owned.
use htsynch.Base.{
  ℕ, ◌+◌, ◌^◌, ◌≤◌, ◌<◌, ◌≡◌, ◌≢◌, refl, sym, ◌∙◌, inl, inr, arith, ℕ_discrete, dec_lt, total,
  total-le, total-update, total-eq-zero, le-total, two-le-total, full-total, Every, Every-update,
  update, Bool, true, false,
}
use mathlib.Core.Logic.{ite, if_pos}
use mathlib.Core.Path.{subst}
use htsynch.LockedBarrier.Defs.{
  SpinBarrier, compare, Thread, sign_extend, Variant, function, macro, macro_hlt, macro_hltcnt,
  act_at, code, System, init, turn, Reach, start, later,
}
use htsynch.LockedBarrier.Invariant.{
  sense, owns, Gather, Full, here, here-le, owns-act_at, Gather-act_at, Full-act_at, Full-of-Gather,
  Full-counted, Full-quiet, Gather-of-Full,
}

pub data Phase (n : ℕ) (s : System) : Type 0 where
  gather :
      (r : ℕ)
      → s.barrier.release_flag ≡ sign_extend (sense r)
      → Every n (Gather r) s.threads
      → s.barrier.current_count ≡ total (here r) n s.threads
      → total (here r) n s.threads < n
      → Phase n s
  full :
      (r : ℕ)
      → s.barrier.release_flag ≡ sign_extend (sense r)
      → Every n (Full n r s.barrier.current_count) s.threads
      → s.barrier.lock ≡ 1
      → Phase n s

pub record Inv (n : ℕ) (s : System) : Type 0 where
  pub size : s.barrier.total ≡ n
  pub held : s.barrier.lock ≡ total owns n s.threads
  pub single : s.barrier.lock ≤ 1
  pub phase : Phase n s

owns-le : (t : Thread) → owns t ≤ 1
owns-le t = ground arith

-- While thread `i` owns the lock no other thread does.
pub others_quiet :
    (n : ℕ) (f : ℕ → Thread) (i j : ℕ)
    → total owns n f ≤ 1
    → i < n
    → j < n
    → owns (f i) ≡ 1
    → i ≢ j
    → owns (f j) ≡ 0
others_quiet n f i j le p q o ne = elim (dec_lt i j) [
  | yes below ↦ omega (arith, two-le-total owns n f i j below q)
  | no above ↦ elim (dec_lt j i) [
    | yes below ↦ omega (arith, two-le-total owns n f j i below p)
    | no same ↦ absurd (ne (omega arith))
  ]
]

-- What holds of the new value and of every other old one holds of the updated family.
Every-update_others :
    (n : ℕ) (P : Thread → Type 0) (f : ℕ → Thread) (i : ℕ) (a : Thread)
    → P a
    → ((j : ℕ) → j < n → i ≢ j → P (f j))
    → Every n P (update f i a)
Every-update_others n P f i a new old j p = elim (ℕ_discrete i j) as (λ c. P (ite c a (f j))) [
  | yes _ ↦ new
  | no ne ↦ old j p ne
]

module _ (n : ℕ) (small : n < 2 ^ 31) (b c : Bool) (s : System) (inv : Inv n s) (i : ℕ)
    (lt : i < n) where
  abbrev t : Thread
  t = s.threads i

  abbrev r' : SpinBarrier × Thread
  r' = act_at b c t.pc s.barrier t

  abbrev s' : System
  s' = record { barrier = r'.0; threads = update s.threads i r'.1 }

  next_held : (s'.barrier.lock ≡ total owns n s'.threads) × (total owns n s'.threads ≤ 1)
  next_held =
      owns-act_at b c s.barrier t.lsense t.rounds t.arrived t.left t.pc s.barrier.lock
        (total owns n s'.threads) refl inv.single
        (omega (arith, inv.held, le-total owns n s.threads i lt))
        (omega (arith, inv.held, total-update owns n s.threads i r'.1 lt))

  quiet : owns t ≡ 1 → (j : ℕ) → j < n → i ≢ j → owns (s.threads j) ≡ 0
  quiet o j p ne = others_quiet n s.threads i j (omega (arith, inv.held, inv.single)) lt p o ne

  -- The last thread has arrived, and owns the lock.
  full_now :
      (r : ℕ)
      → s'.barrier.release_flag ≡ sign_extend (sense r)
      → Every n (Gather r) s'.threads
      → total (here r) n s'.threads ≡ n
      → r'.1.pc ≡ compare
      → s'.barrier.current_count ≡ n
      → Phase n s'
  full_now r flag' all' everyone at_compare counted' =
      let mine : s'.threads i ≡ r'.1 = if_pos (ℕ_discrete i i) refl r'.1 (s.threads i) in
      let owner : owns (s'.threads i) ≡ 1 = rw (mine, at_compare) refl in
      let came = full-total (here r) (here-le r) n s'.threads everyone in
      full r flag'
        (λ j p. elim (ℕ_discrete i j) [
          | yes same ↦
              subst (λ (k : ℕ). Full n r s'.barrier.current_count (s'.threads k)) same
                (Full-counted n r s'.barrier.current_count (s'.threads i) (all' i lt)
                  (rw (mine, at_compare) refl) counted')
          | no ne ↦
              Full-of-Gather n r s'.barrier.current_count (s'.threads j) (all' j p) (came j p)
                (others_quiet n s'.threads i j next_held.1 lt p owner ne)
        ])
        (omega (arith, next_held, le-total owns n s'.threads i lt, owner))

  from_Gather :
      (r : ℕ)
      → s.barrier.release_flag ≡ sign_extend (sense r)
      → Every n (Gather r) s.threads
      → s.barrier.current_count ≡ total (here r) n s.threads
      → total (here r) n s.threads < n
      → Inv n s'
  from_Gather r flag all counted few =
      let c' = total (here r) n s'.threads in
      let (g, flag', counted', size', at_compare) =
        Gather-act_at b c s.barrier t.lsense t.rounds t.arrived t.left n r inv.size small flag t.pc
          (total (here r) n s.threads) c' (all i lt) counted few
          (total-update (here r) n s.threads i r'.1 lt) in
      let all' = Every-update n (Gather r) s.threads i r'.1 g all in
      elim (ℕ_discrete c' n) [
        | yes e ↦ record {
          size = size';
          held = next_held.0;
          single = omega (arith, next_held);
          phase = full_now r flag' all' e (at_compare e) (counted' ∙ e);
        }
        | no ne ↦ record {
          size = size';
          held = next_held.0;
          single = omega (arith, next_held);
          phase =
              gather r flag' all' counted'
                (omega (arith, total-le (here r) (here-le r) n s'.threads));
        }
      ]

  from_Full :
      (r : ℕ)
      → s.barrier.release_flag ≡ sign_extend (sense r)
      → Every n (Full n r s.barrier.current_count) s.threads
      → s.barrier.lock ≡ 1
      → Inv n s'
  from_Full r flag all busy =
      elim (Full-act_at b c s.barrier t.lsense t.rounds t.arrived t.left n r inv.size small flag
        t.pc (all i lt)) [
          | inl (f, flag', size', lock', change) ↦ record {
            size = size';
            held = next_held.0;
            single = omega (arith, next_held);
            phase =
                full r flag'
                  (Every-update_others n (Full n r r'.0.current_count) s.threads i r'.1 f (λ j p ne.
                    elim change [
                      | inl o ↦
                          Full-quiet n r s.barrier.current_count r'.0.current_count (s.threads j)
                            (all j p) (quiet o j p ne)
                      | inr same ↦ rw same (all j p)
                    ]))
                  (lock' ∙ busy);
          }
          | inr (o, g, flag', zero_count, size', here') ↦
              let other = λ (j : ℕ) (p : j < n) (ne : i ≢ j).
                Gather-of-Full n r s.barrier.current_count (s.threads j) (all j p)
                  (quiet o j p ne) in
              let none_here = total-eq-zero (here (r + 1)) n s'.threads (
                Every-update_others n (λ (u : Thread). here (r + 1) u ≡ 0) s.threads i r'.1
                  (ground arith) (λ j p ne. ground (arith, other j p ne))) in
              record {
                size = size';
                held = next_held.0;
                single = omega (arith, next_held);
                phase =
                    gather (r + 1) flag'
                      (Every-update_others n (Gather (r + 1)) s.threads i r'.1 g
                        (λ j p ne. (other j p ne).0))
                      (zero_count ∙ sym none_here) (omega arith);
              }
        ]

  act_at-Inv : Inv n s'
  act_at-Inv = elim inv.phase [
    | gather r flag all counted few ↦ from_Gather r flag all counted few
    | full r flag all busy ↦ from_Full r flag all busy
  ]

turn-Inv :
    {n : ℕ} {s : System} → n < 2 ^ 31 → Inv n s → (v : Variant) (i : ℕ) → i < n → Inv n (turn v s i)
unfolding code
turn-Inv {n} {s} small inv function i lt = act_at-Inv n small false false s inv i lt
turn-Inv {n} {s} small inv macro i lt = act_at-Inv n small false false s inv i lt
turn-Inv {n} {s} small inv macro_hlt i lt = act_at-Inv n small true false s inv i lt
turn-Inv {n} {s} small inv macro_hltcnt i lt = act_at-Inv n small true true s inv i lt

init-Inv : {n : ℕ} → 0 < n → Inv n (init n)
init-Inv {n} pos =
    let nobody = total-eq-zero owns n (init n).threads (λ i p. refl) in
    let none_here = total-eq-zero (here 0) n (init n).threads (λ i p. refl) in
    record {
      size = refl;
      held = sym nobody;
      single = omega arith;
      phase = gather 0 refl (λ i p. (refl, refl, refl)) (sym none_here) (omega arith);
    }

pub Reach-Inv : {n : ℕ} {s : System} → 0 < n → n < 2 ^ 31 → Reach n s → Inv n s
Reach-Inv pos small start = init-Inv pos
Reach-Inv pos small (later r v i lt) = turn-Inv small (Reach-Inv pos small r) v i lt
