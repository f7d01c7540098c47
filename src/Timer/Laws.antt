-- ===== src/Timer/Laws.antt =====
-- Both timers accumulate the elapsed cycles modulo 2 ^ 64, and the pairs represent the words.
use htsynch.Base.{ℕ, ◌+◌, ◌-◌, ◌*◌, ◌/◌, ◌%◌, ◌^◌, ◌≤◌, ◌<◌, ◌≡◌, refl, arith, List, [], ◌∷◌}
use htsynch.Base.Bits.{bit_or_high}
use htsynch.Timer.Wide
use htsynch.Timer.Narrow
use htsynch.Timer.Narrow.{Pair, sub_pair, add_pair}

abbrev pub word64 : ℕ
word64 = 2 ^ 64

pub rdtsc_lem : (tsc : ℕ) → Wide.rdtsc tsc ≡ tsc % 2 ^ 64
unfolding Wide.rdtsc
rdtsc_lem tsc =
    let e : tsc / 2 ^ 32 % 2 ^ 32 * 2 ^ 32 % 2 ^ 64 ≡ tsc / 2 ^ 32 % 2 ^ 32 * 2 ^ 32 =
      omega arith in
    rw (e, bit_or_high 32 (tsc % 2 ^ 32) (tsc / 2 ^ 32 % 2 ^ 32) (omega arith)) (omega arith)

-- The number that a pair of words stands for.
abbrev pub value : Pair → ℕ
value p = p.low + p.high * 2 ^ 32

abbrev pub IsPair : Pair → Type 0
IsPair p = (p.low < 2 ^ 32) × (p.high < 2 ^ 32)

sub_pair-value :
    (a b : Pair)
    → IsPair a
    → IsPair b
    → IsPair (sub_pair a b) × (value (sub_pair a b) ≡ (value a + 2 ^ 64 - value b) % 2 ^ 64)
unfolding sub_pair
sub_pair-value a b ha hb = ground arith

add_pair-value :
    (a b : Pair)
    → IsPair a
    → IsPair b
    → IsPair (add_pair a b) × (value (add_pair a b) ≡ (value a + value b) % 2 ^ 64)
unfolding add_pair
add_pair-value a b ha hb = ground arith

-- A timer is cleared, and then started and stopped at the cycle counts of each interval.
abbrev Intervals : Type 0
Intervals = List (ℕ × ℕ)

abbrev pub wide_run : Intervals → Wide.Timer → Wide.Timer
wide_run [] t = t
wide_run ((a, b) ∷ l) t = wide_run l (Wide.timer_stop b (Wide.timer_start a t))

abbrev pub narrow_run : Intervals → Narrow.Timer → Narrow.Timer
narrow_run [] t = t
narrow_run ((a, b) ∷ l) t = narrow_run l (Narrow.timer_stop b (Narrow.timer_start a t))

abbrev pub elapsed : Intervals → ℕ
elapsed [] = 0
elapsed ((a, b) ∷ l) = (b - a) + elapsed l

-- Each interval ends no earlier than it begins, and the counter has not wrapped.
abbrev pub Ordered : Intervals → Type 0
Ordered [] = Unit
Ordered ((a, b) ∷ l) = (a ≤ b) × (b < 2 ^ 64) × Ordered l

wide_run-total :
    (l : Intervals) (t : Wide.Timer)
    → Ordered l
    → t.total < 2 ^ 64
    → (wide_run l t).total ≡ (t.total + elapsed l) % 2 ^ 64
wide_run-total [] t h small = omega arith
wide_run-total ((a, b) ∷ l) t (le, lt, rest) small =
    omega
      (arith, wide_run-total l (Wide.timer_stop b (Wide.timer_start a t)) rest (step-small), step)
  where
    step : (Wide.timer_stop b (Wide.timer_start a t)).total ≡ (t.total + (b - a)) % 2 ^ 64
    step = unfold Wide.timer_stop Wide.timer_start in omega (arith, rdtsc_lem a, rdtsc_lem b)

    step-small : (Wide.timer_stop b (Wide.timer_start a t)).total < 2 ^ 64
    step-small = omega (arith, step)

-- After a clear, the wide timer's total is the sum of the lengths of the intervals timed, modulo
-- 2 ^ 64, whatever it held before.
pub wide-elapsed :
    (l : Intervals) (t : Wide.Timer)
    → Ordered l
    → (wide_run l (Wide.timer_clear t)).total ≡ elapsed l % 2 ^ 64
wide-elapsed l t h = omega (
  arith,
  wide_run-total l (Wide.timer_clear t) h (unfold Wide.timer_clear in omega arith),
  zero_total,
)
  where
    zero_total : (Wide.timer_clear t).total ≡ 0
    zero_total = unfold Wide.timer_clear in refl

-- The same measurement in both representations.
record Agree (n : Narrow.Timer) (w : Wide.Timer) : Type 0 where
  pair : IsPair n.total
  total : value n.total ≡ w.total
  loops : n.loops ≡ w.loops % 2 ^ 32

stop-Agree :
    (a b : ℕ) (n : Narrow.Timer) (w : Wide.Timer)
    → Agree n w
    → Agree
        (Narrow.timer_stop b (Narrow.timer_start a n))
        (Wide.timer_stop b (Wide.timer_start a w))
unfolding Narrow.timer_stop Narrow.timer_start Narrow.rdtsc Wide.timer_stop Wide.timer_start
stop-Agree a b n w h =
    let begun = Narrow.rdtsc a in
    let ended = Narrow.rdtsc b in
    let sub = sub_pair-value ended begun (omega arith) (omega arith) in
    let add = add_pair-value n.total (sub_pair ended begun) h.pair sub.0 in
    record {
      pair = add.0;
      total = omega (arith, add.1, sub.1, h.total, rdtsc_lem a, rdtsc_lem b);
      loops = omega (arith, h.loops);
    }

run-Agree :
    (l : Intervals) (n : Narrow.Timer) (w : Wide.Timer)
    → Agree n w
    → Agree (narrow_run l n) (wide_run l w)
run-Agree [] n w h = h
run-Agree ((a, b) ∷ l) n w h = run-Agree l _ _ (stop-Agree a b n w h)

-- Whatever is timed, the two words of the narrow timer's total stand for the wide timer's total,
-- and the loops agree modulo 2 ^ 32.
pub narrow-wide :
    (l : Intervals) (n : Narrow.Timer) (w : Wide.Timer)
    → let n' = narrow_run l (Narrow.timer_clear n) in
      let w' = wide_run l (Wide.timer_clear w) in
      (value n'.total ≡ w'.total) × (n'.loops ≡ w'.loops % 2 ^ 32)
narrow-wide l n w =
    let h =
      run-Agree l (Narrow.timer_clear n) (Wide.timer_clear w)
        (unfold Narrow.timer_clear Wide.timer_clear in ground arith) in
    (h.total, h.loops)
