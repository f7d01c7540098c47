-- ===== src/Timer/Reports.antt =====
-- `TIMER_TOTAL`, `TIMER_AVE`, `TIMER_STARTED` and `TIMER_STOPPED` of mwait_barrier/btimer_rdtsc64.h
-- and btimer_rdtsc32.h; the constant 4.294967296e9 of the second is 2 ^ 32.
use htsynch.Base.{ℕ, ◌*◌, ◌^◌, ◌<◌, ◌≡◌, ap, ◌∙◌, arith, List}
use htsynch.Timer.Wide
use htsynch.Timer.Narrow
use htsynch.Timer.Narrow.{Pair}
use htsynch.Timer.Doubles.{Doubles, IsExact}
use htsynch.Timer.Laws.{wide_run, narrow_run, narrow-wide, value}

module _ (D : Doubles) where
  abbrev pub wide_total : Wide.Timer → D.Double
  wide_total t = D.of_word t.total

  abbrev pub wide_ave : Wide.Timer → D.Double
  wide_ave t = D.div (D.of_word t.total) (D.of_word t.loops)

  abbrev pub narrow_total : Narrow.Timer → D.Double
  narrow_total t =
      D.add (D.mul (D.of_word t.total.high) (D.of_word (2 ^ 32))) (D.of_word t.total.low)

  abbrev pub narrow_ave : Narrow.Timer → D.Double
  narrow_ave t =
      D.div (D.add (D.of_word t.total.low) (D.mul (D.of_word t.total.high) (D.of_word (2 ^ 32))))
        (D.of_word t.loops)

abbrev pub wide_started : Wide.Timer → ℕ
wide_started t = t.start

abbrev pub wide_stopped : Wide.Timer → ℕ
wide_stopped t = t.stop

abbrev pub narrow_started : Narrow.Timer → ℕ
narrow_started t = t.start.low

abbrev pub narrow_stopped : Narrow.Timer → ℕ
narrow_stopped t = t.stop.low

module _ (D : Doubles) (X : IsExact D) where
  pair_exact :
      (p : Pair)
      → value p < 2 ^ 53
      → (D.add (D.mul (D.of_word p.high) (D.of_word (2 ^ 32))) (D.of_word p.low)
          ≡ D.of_word (value p))
        × (D.add (D.of_word p.low) (D.mul (D.of_word p.high) (D.of_word (2 ^ 32)))
            ≡ D.of_word (value p))
  pair_exact p small =
      let m = X.mul_exact p.high (2 ^ 32) (omega arith) in
      (
        ap (λ x. D.add x (D.of_word p.low)) m
            ∙ X.add_exact (p.high * 2 ^ 32) p.low (omega arith)
            ∙ ap D.of_word (omega arith),
        ap (λ x. D.add (D.of_word p.low) x) m ∙ X.add_exact p.low (p.high * 2 ^ 32) small,
      )

-- If the cycles timed since the clear come to less than 2 ^ 53 and the intervals to less than
-- 2 ^ 32, then both headers report the same total and the same average, though one keeps its words
-- in pairs.
pub reports_agree :
    (D : Doubles)
    → IsExact D
    → (l : List (ℕ × ℕ)) (n : Narrow.Timer) (w : Wide.Timer)
    → let n' = narrow_run l (Narrow.timer_clear n) in
      let w' = wide_run l (Wide.timer_clear w) in
      w'.total < 2 ^ 53
      → w'.loops < 2 ^ 32
      → (narrow_total D n' ≡ wide_total D w') × (narrow_ave D n' ≡ wide_ave D w')
reports_agree D X l n w small few =
    let n' = narrow_run l (Narrow.timer_clear n) in
    let w' = wide_run l (Wide.timer_clear w) in
    let (t, c) = narrow-wide l n w in
    let e = pair_exact D X n'.total (omega (arith, t, small)) in
    let loops : n'.loops ≡ w'.loops = omega (arith, c, few) in
    (
      e.0 ∙ ap D.of_word t,
      ap (λ x. D.div x (D.of_word n'.loops)) (e.1 ∙ ap D.of_word t)
          ∙ ap (λ k. D.div (D.of_word w'.total) (D.of_word k)) loops,
    )
