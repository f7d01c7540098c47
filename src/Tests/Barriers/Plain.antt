-- ===== src/Tests/Barriers/Plain.antt =====
-- `spin_barrier` with two threads.
use htsynch.Base.{◌+◌, ◌≡◌, [], ◌∷◌, ◌++◌, true, false}
use htsynch.PlainBarrier.Defs.{waiting, play, rest}
use htsynch.PlainBarrier.Race.{rounds, reuse, late_reset, reuse_lem}

-- After two rounds from a flag of 1, with three more steps.
reuse_lem_example :
    let v = play (rounds 2 ++ (reuse ++ (true ∷ false ∷ true ∷ []))) (rest 1 0) in
    let w = play (rounds 2 ++ late_reset) (rest 1 0) in
    (v.first.pc ≡ waiting)
    × (v.second.pc ≡ waiting)
    × (v.first.left ≡ 2)
    × (v.second.left ≡ 2 + 1)
    × (w.first.left ≡ 2 + 2)
    × (w.second.arrived ≡ 2 + 1)
reuse_lem_example = reuse_lem 1 2 (true ∷ false ∷ true ∷ [])
