-- ===== src/PlainBarrier/Race.antt =====
-- What can go wrong when two threads use `spin_barrier` again and again, as the comment in the
-- source warns: a thread that arrives early at the next round clears the flag that the other still
-- waits for. And, as the count is compared and reset without the lock, a late reset lets a thread
-- leave a round at which the other has not arrived.
use htsynch.Base.{
  ℕ, zero, suc, ◌+◌, ◌≡◌, refl, ap, ◌∙◌, arith, Bool, true, false, List, [], ◌∷◌, ◌++◌,
}
use htsynch.PlainBarrier.Defs.{waiting, spin_barrier, Two, act, play, rest}

-- The first thread arrives and waits, the second passes, and the first leaves.
abbrev fair : List Bool
fair =
    true ∷ true ∷ true ∷ true ∷ true ∷ true ∷ true ∷ false ∷ false ∷ false ∷ false ∷ false ∷ false
    ∷ false ∷ false ∷ true ∷ []

abbrev pub rounds : ℕ → List Bool
rounds zero = []
rounds (suc k) = fair ++ rounds k

-- The second thread passes and arrives again, and clears the flag before the first has read it.
abbrev pub reuse : List Bool
reuse =
    true ∷ true ∷ true ∷ true ∷ true ∷ true ∷ true ∷ false ∷ false ∷ false ∷ false ∷ false ∷ false
    ∷ false ∷ false ∷ false ∷ false ∷ false ∷ false ∷ false ∷ false ∷ false ∷ []

-- Both find the count full; the first passes and waits in the next round, and the second's stores
-- let it leave that one too.
abbrev pub late_reset : List Bool
late_reset =
    true ∷ true ∷ true ∷ true ∷ true ∷ true ∷ false ∷ false ∷ false ∷ false ∷ false ∷ true ∷ false
    ∷ true ∷ true ∷ true ∷ true ∷ true ∷ true ∷ true ∷ true ∷ true ∷ false ∷ false ∷ true ∷ []

play-++ : (l m : List Bool) (v : Two) → play (l ++ m) v ≡ play m (play l v)
play-++ [] m v = refl
play-++ (b ∷ l) m v = play-++ l m (act v b)

play-fair : (flag k : ℕ) → play fair (rest flag k) ≡ rest 1 (k + 1)
unfolding spin_barrier
play-fair flag k = refl

-- The flag that the rounds before leave.
abbrev flag_after : ℕ → ℕ → ℕ
flag_after flag zero = flag
flag_after flag (suc k) = flag_after 1 k

play-rounds : (n flag k : ℕ) → play (rounds n) (rest flag k) ≡ rest (flag_after flag n) (n + k)
play-rounds zero flag k = ap (rest flag) (omega arith)
play-rounds (suc n) flag k =
    play-++ fair (rounds n) (rest flag k)
    ∙ ap (play (rounds n)) (play-fair flag k)
    ∙ play-rounds n 1 (k + 1)
    ∙ ap (rest (flag_after 1 n)) (omega arith)

abbrev Stuck : ℕ → Two → Type 0
Stuck k v =
    (v.first.pc ≡ waiting)
    × (v.second.pc ≡ waiting)
    × (v.first.left ≡ k)
    × (v.second.left ≡ k + 1)
    × (v.barrier.release_flag ≡ 0)

act-Stuck : (k : ℕ) (v : Two) (b : Bool) → Stuck k v → Stuck k (act v b)
unfolding spin_barrier
act-Stuck k v true st = ground arith
act-Stuck k v false st = ground arith

play-Stuck : (k : ℕ) (l : List Bool) (v : Two) → Stuck k v → Stuck k (play l v)
play-Stuck k [] v st = st
play-Stuck k (b ∷ l) v st = play-Stuck k l (act v b) (act-Stuck k v b st)

reuse-Stuck : (flag k : ℕ) → Stuck k (play reuse (rest flag k))
unfolding spin_barrier
reuse-Stuck flag k = (refl, refl, refl, refl, refl)

late_reset_lem :
    (flag k : ℕ)
    → let v = play late_reset (rest flag k) in (v.first.left ≡ k + 2) × (v.second.arrived ≡ k + 1)
unfolding spin_barrier
late_reset_lem flag k = (omega arith, refl)

play_rounds-then :
    (flag k : ℕ) (l : List Bool)
    → play (rounds k ++ l) (rest flag 0) ≡ play l (rest (flag_after flag k) k)
play_rounds-then flag k l =
    play-++ (rounds k) l (rest flag 0)
    ∙ ap (play l) (play-rounds k flag 0)
    ∙ ap (λ (n : ℕ). play l (rest (flag_after flag k) n)) (omega arith)

-- After any number `k` of rounds of two threads, whatever the flag was at first: the second thread
-- can pass and arrive again while the first still waits, and then both wait forever; and if both
-- find the count full, the first can leave two rounds while the second has arrived at one only.
pub reuse_lem :
    (flag k : ℕ) (l : List Bool)
    → let v = play (rounds k ++ (reuse ++ l)) (rest flag 0) in
      let w = play (rounds k ++ late_reset) (rest flag 0) in
      (v.first.pc ≡ waiting)
      × (v.second.pc ≡ waiting)
      × (v.first.left ≡ k)
      × (v.second.left ≡ k + 1)
      × (w.first.left ≡ k + 2)
      × (w.second.arrived ≡ k + 1)
reuse_lem flag k l =
    let f = flag_after flag k in
    let st : Stuck k (play (rounds k ++ (reuse ++ l)) (rest flag 0)) =
      rw (play_rounds-then flag k (reuse ++ l), play-++ reuse l (rest f k))
        (play-Stuck k l (play reuse (rest f k)) (reuse-Stuck f k)) in
    let late = late_reset_lem f k in
    (
      st.0,
      st.1,
      st.2,
      st.3,
      rw (play_rounds-then flag k late_reset) late.0,
      rw (play_rounds-then flag k late_reset) late.1,
    )
