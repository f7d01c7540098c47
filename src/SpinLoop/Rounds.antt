-- ===== src/SpinLoop/Rounds.antt =====
-- One round of each loop, and its first test.
use htsynch.Base.{ℕ, suc, ◌+◌, ◌-◌, ◌%◌, ◌≡◌, Bool, true, false, some, arith, leb, ◌==◌, signed_lt}
use htsynch.Asm.{Local}
use htsynch.SpinLoop.Run.{Loop, code, round, count_round, eax_after, half, enters, leaves, run}

-- The registers at index `p` after a comparison of `w` with the value.
abbrev pub compared : Loop → ℕ → ℕ → ℕ → ℕ → ℕ → Local
compared k value p w eax cnt = record {
  pc = p;
  eax = eax;
  zf = w == value;
  sf = leb (half k) ((w + (half k + half k) - value) % (half k + half k));
  less = signed_lt (half k) w value;
  cnt = cnt;
}

module _ (kernel seen : ℕ → ℕ) (value fuel r eax cnt : ℕ) (zf sf less : Bool) where
  abbrev at : ℕ → Local
  at p = record { pc = p; eax = eax; zf = zf; sf = sf; less = less; cnt = cnt }

  -- From the loop's head one more read ends the code, or leads back to the head.
  pub run-round_leaves :
      (k : Loop)
      → leaves k value (seen r) ≡ true
      → run kernel (code k value) seen (round k (suc fuel)) r (at 2)
        ≡ some (suc r, count_round k cnt)
  unfolding run
  run-round_leaves Loop.wait h = ground arith
  run-round_leaves k h = ground arith

  pub run-round_stays :
      (k : Loop)
      → leaves k value (seen r) ≡ false
      → run kernel (code k value) seen (round k fuel) r (at 2)
        ≡ run kernel
            (code k value)
            seen
            fuel
            (suc r)
            (compared k value 2 (seen r) (eax_after kernel k eax) (count_round k cnt))
  unfolding run
  run-round_stays Loop.wait h = ground arith
  run-round_stays k h = ground arith

  -- The first read ends the code, or leads to the head.
  pub run-enters :
      (k : Loop)
      → enters k value (seen r) ≡ true
      → run kernel (code k value) seen (suc (suc (suc fuel))) r (at 0) ≡ some (suc r, cnt)
  unfolding run
  run-enters Loop.wait h = ground arith
  run-enters k h = ground arith

  pub run_stays :
      (k : Loop)
      → enters k value (seen r) ≡ false
      → run kernel (code k value) seen (suc (suc fuel)) r (at 0)
        ≡ run kernel (code k value) seen fuel (suc r) (compared k value 2 (seen r) eax cnt)
  unfolding run
  run_stays Loop.wait h = ground arith
  run_stays k h = ground arith
