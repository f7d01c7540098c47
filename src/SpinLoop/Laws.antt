-- ===== src/SpinLoop/Laws.antt =====
-- When the waiting loops return, and what the ones that compare by order miss.
use htsynch.Base.{
  ℕ, zero, suc, ◌+◌, ◌*◌, ◌≤◌, ◌<◌, ◌%◌, ◌^◌, ◌≡◌, ap, if◌then◌else◌, ◌∙◌, ◌⊎◌, inl, inr, Bool,
  true, false, none, some, arith, signed_lt, Bool-cases, Option-cases, List, get_elem?, dec_lt,
  refl,
}
use htsynch.Asm.{Instr, Local, entry, exec}
use htsynch.SpinLoop.Run.{Loop, code, round, count_round, after_read, half, enters, leaves, run}
use htsynch.SpinLoop.Rounds.{run-round_leaves, run-round_stays, run-enters, run_stays}

-- Read number `n`, the first one being 0, is the first that the code's tests accept.
abbrev pub EndsAt : Loop → ℕ → (ℕ → ℕ) → ℕ → Type 0
EndsAt k value seen zero = enters k value (seen 0) ≡ true
EndsAt k value seen (suc n) =
    (enters k value (seen 0) ≡ false)
    × ((j : ℕ) → j < n → leaves k value (seen (suc j)) ≡ false)
    × (leaves k value (seen (suc n)) ≡ true)

-- The counter after `n` rounds.
abbrev pub counts : Loop → ℕ → ℕ → ℕ
counts k zero cnt = cnt
counts k (suc n) cnt = counts k n (count_round k cnt)

-- The loops with an `incq`.
abbrev pub is_counting : Loop → Bool
is_counting Loop.macro_hltcnt = true
is_counting Loop.macro_ineq_cnt = true
is_counting Loop.macro_ineq_cpuhalt_cnt = true
is_counting Loop.macro_ineq_hlt_cnt = true
is_counting _ = false

count_round_lem :
    (k : Loop) (n cnt : ℕ)
    → cnt < 2 ^ 64
    → (count_round k cnt < 2 ^ 64)
      × ((if is_counting k then (count_round k cnt + n) % 2 ^ 64 else count_round k cnt)
          ≡ (if is_counting k then (cnt + suc n) % 2 ^ 64 else cnt))
count_round_lem Loop.wait n cnt h = omega arith
count_round_lem k n cnt h = ground arith

counts_lem :
    (k : Loop) (n cnt : ℕ)
    → cnt < 2 ^ 64
    → counts k n cnt ≡ (if is_counting k then (cnt + n) % 2 ^ 64 else cnt)
counts_lem k zero cnt h = ground arith
counts_lem k (suc n) cnt h =
    let (word, same) = count_round_lem k n cnt h in counts_lem k n (count_round k cnt) word ∙ same

abbrev rounds : Loop → ℕ → ℕ → ℕ
rounds k zero f = f
rounds k (suc n) f = round k (rounds k n f)

round-le : (k : Loop) (f : ℕ) → (round k f ≤ f + 6) × (f < round k f)
round-le Loop.wait f = omega arith
round-le k f = omega arith

rounds-le : (k : Loop) (n f : ℕ) → (rounds k n f ≤ f + 6 * n) × (f + n ≤ rounds k n f)
rounds-le k zero f = omega arith
rounds-le k (suc n) f = omega (arith, round-le k (rounds k n f), rounds-le k n f)

run_mono :
    (kernel seen : ℕ → ℕ) (program : List Instr) (f g r : ℕ) (l : Local) {x : ℕ × ℕ}
    → run kernel program seen f r l ≡ some x
    → f ≤ g
    → run kernel program seen g r l ≡ some x
unfolding run
run_mono kernel seen program zero g r l e h = cc
run_mono kernel seen program (suc f) zero r l e h = absurd (omega arith)
run_mono kernel seen program (suc f) (suc g) r l {x} e h =
    elim (Option-cases (get_elem? program l.pc)) [
      | inl out ↦ ground arith
      | inr (i, here) ↦ ground (
        arith,
        here,
        run_mono kernel seen program f g (after_read i r) (exec kernel i (seen r) l).1 {x = x},
      )
    ]

module _ (kernel seen : ℕ → ℕ) (k : Loop) (value : ℕ) where
  -- From the head at read `r`, with `n` rounds that stay before the one that leaves, at read `e`.
  run-leaves :
      (n r e eax cnt : ℕ) (zf sf less : Bool)
      → n + r ≡ e
      → ((j : ℕ) → r ≤ j → j < e → leaves k value (seen j) ≡ false)
      → leaves k value (seen e) ≡ true
      → run kernel
          (code k value)
          seen
          (rounds k (suc n) 1)
          r
          (record { pc = 2; eax = eax; zf = zf; sf = sf; less = less; cnt = cnt })
        ≡ some (suc e, counts k (suc n) cnt)
  run-leaves zero r e eax cnt zf sf less q stay leave =
      let q' : r ≡ e = omega arith in
      rw (← q') (run-round_leaves kernel seen value 0 r eax cnt zf sf less k (rw q' leave))
  run-leaves (suc n) r e eax cnt zf sf less q stay leave =
      run-round_stays kernel seen value (rounds k (suc n) 1) r eax cnt zf sf less k
        (stay r (omega arith) (omega arith))
      ∙ run-leaves n (suc r) e _ _ _ _ _ (omega arith) (λ j p. stay j (omega arith)) leave

  -- With `n` rounds that stay the code has not ended.
  run_stuck :
      (n r eax cnt : ℕ) (zf sf less : Bool)
      → ((j : ℕ) → r ≤ j → j < n + r → leaves k value (seen j) ≡ false)
      → run kernel
          (code k value)
          seen
          (rounds k n 0)
          r
          (record { pc = 2; eax = eax; zf = zf; sf = sf; less = less; cnt = cnt })
        ≡ none
  run_stuck zero r eax cnt zf sf less stay = unfold run in refl
  run_stuck (suc n) r eax cnt zf sf less stay =
      run-round_stays kernel seen value (rounds k n 0) r eax cnt zf sf less k
        (stay r (omega arith) (omega arith))
      ∙ run_stuck n (suc r) _ _ _ _ _ (λ j p q. stay j (omega arith) (omega arith))

  fuel_for : ℕ → ℕ
  fuel_for zero = 3
  fuel_for (suc n) = suc (suc (rounds k (suc n) 1))

  run-fuel_for :
      (n cnt : ℕ)
      → EndsAt k value seen n
      → run kernel (code k value) seen (fuel_for n) 0 (record entry { cnt = cnt })
        ≡ some (suc n, counts k n cnt)
  unfolding fuel_for
  run-fuel_for zero cnt h = run-enters kernel seen value 0 0 0 cnt false false false k h
  run-fuel_for (suc n) cnt (first, stay, leave) =
      run_stays kernel seen value (rounds k (suc n) 1) 0 0 cnt false false false k first
      ∙ run-leaves n 1 (suc n) _ _ _ _ _ (omega arith) (λ j p q. stay_at j p q) leave
    where
      stay_at : (j : ℕ) → 1 ≤ j → j < suc n → leaves k value (seen j) ≡ false
      stay_at zero p q = absurd (omega arith)
      stay_at (suc j) p q = stay j (omega arith)

  fuel_for-le : (n : ℕ) → fuel_for n ≤ 6 * n + 3
  unfolding fuel_for
  fuel_for-le zero = omega arith
  fuel_for-le (suc n) = omega (arith, rounds-le k (suc n) 1)

  -- A loop returns once a read is accepted: after that read, given six units of fuel a read; a loop
  -- that counts adds its rounds, modulo 2 ^ 64, to whatever quadword the caller's counter holds, and
  -- the others leave it.
  pub run-EndsAt :
      (n fuel cnt : ℕ)
      → EndsAt k value seen n
      → 6 * n + 3 ≤ fuel
      → cnt < 2 ^ 64
      → run kernel (code k value) seen fuel 0 (record entry { cnt = cnt })
        ≡ some (suc n, if is_counting k then (cnt + n) % 2 ^ 64 else cnt)
  run-EndsAt n fuel cnt h enough word =
      run_mono kernel seen (code k value) (fuel_for n) fuel 0 (record entry { cnt = cnt })
        (run-fuel_for n cnt h) (omega (arith, fuel_for-le n))
      ∙ ap (λ (c : ℕ). some (suc n, c)) (counts_lem k n cnt word)

  -- No read among the first `n` is accepted.
  abbrev pub Stays : ℕ → Type 0
  Stays n =
      (enters k value (seen 0) ≡ false) × ((j : ℕ) → j < n → leaves k value (seen (suc j)) ≡ false)

  pub run-Stays : (n : ℕ) → Stays n → run kernel (code k value) seen n 0 entry ≡ none
  run-Stays n (first, stay) = elim (Option-cases (run kernel (code k value) seen n 0 entry)) [
    | inl out ↦ out
    | inr (x, ended) ↦
        let long =
          run_mono kernel seen (code k value) n (suc (suc (rounds k n 0))) 0 entry ended
            (omega (arith, rounds-le k n 0)) in
        let stuck =
          run_stays kernel seen value (rounds k n 0) 0 0 0 false false false k first
          ∙ run_stuck n 1 _ _ _ _ _ stay_at in
        absurd (cc)
  ]
    where
      stay_at : (j : ℕ) → 1 ≤ j → j < n + 1 → leaves k value (seen j) ≡ false
      stay_at zero p q = absurd (omega arith)
      stay_at (suc j) p q = stay j (omega arith)

  abbrev Ended : ℕ → Type 0
  Ended n = (m : ℕ) × EndsAt k value seen m

  Ended-or-Stays : (n : ℕ) → Ended n ⊎ Stays n
  Ended-or-Stays zero = elim (Bool-cases (enters k value (seen 0))) [
    | inl yes_first ↦ inl (0, yes_first)
    | inr no_first ↦ inr (no_first, λ j p. absurd (omega arith))
  ]
  Ended-or-Stays (suc n) = elim (Ended-or-Stays n) [
    | inl found ↦ inl found
    | inr (first, stay) ↦ elim (Bool-cases (leaves k value (seen (suc n)))) [
      | inl now ↦ inl (suc n, (first, stay, now))
      | inr later ↦ inr (
        first,
        λ j p. elim (dec_lt j n) [
          | yes old ↦ stay j old
          | no new ↦ let e : j ≡ n = omega arith in rw e later
        ],
      )
    ]
  ]

  -- Whenever a loop returns, the last value it read is the first that its tests accept.
  pub run-returns :
      (fuel reads count : ℕ)
      → run kernel (code k value) seen fuel 0 entry ≡ some (reads, count)
      → (n : ℕ) × EndsAt k value seen n
        × (reads ≡ suc n)
        × (count ≡ (if is_counting k then n % 2 ^ 64 else 0))
  run-returns fuel reads count e = elim (Ended-or-Stays fuel) [
    | inl (n, ends) ↦
        let long =
          run_mono kernel seen (code k value) fuel (fuel + (6 * n + 3)) 0 entry e (omega arith) in
        let full = run-EndsAt n (fuel + (6 * n + 3)) 0 ends (omega arith) (omega arith) in
        (n, ends, ground arith, ground arith)
    | inr stays ↦ absurd (cc (run-Stays fuel stays))
  ]

-- The loops whose tests compare by order.
abbrev pub is_ineq : Loop → Bool
is_ineq Loop.wait = false
is_ineq Loop.wait_cpuhalt = false
is_ineq Loop.macro = false
is_ineq Loop.macro_hlt = false
is_ineq Loop.macro_hltcnt = false
is_ineq _ = true

ineq-enters :
    (k : Loop) (value w : ℕ)
    → is_ineq k ≡ true
    → signed_lt (half k) w value ≡ true
    → enters k value w ≡ false
ineq-enters Loop.wait value w ineq below = cc
ineq-enters k value w ineq below = ground arith

ineq-leaves : (k : Loop) (value w : ℕ) → is_ineq k ≡ true → w ≡ value → leaves k value w ≡ false
ineq-leaves Loop.wait value w ineq e = cc
ineq-leaves k value w ineq e = ground arith

-- A loop that compares by order, and finds on its first read a value below the one waited for,
-- never ends if every later read finds exactly the value waited for.
pub ineq-misses-equal :
    (kernel seen : ℕ → ℕ) (k : Loop) (value : ℕ)
    → is_ineq k ≡ true
    → signed_lt (half k) (seen 0) value ≡ true
    → ((j : ℕ) → seen (suc j) ≡ value)
    → (fuel : ℕ) → run kernel (code k value) seen fuel 0 entry ≡ none
ineq-misses-equal kernel seen k value ineq below equal fuel = run-Stays kernel seen k value fuel (
  ineq-enters k value (seen 0) ineq below,
  λ j p. ineq-leaves k value (seen (suc j)) ineq (equal j),
)
