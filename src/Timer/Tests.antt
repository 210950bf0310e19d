-- ===== src/Timer/Tests.antt =====
-- timer.h at concrete readings of a counter with ten ticks in a microsecond.
use decom.Base.{ℕ, ◌+◌, ◌*◌, ◌≤◌, ◌≡◌, refl, true, false, List, [], ◌∷◌, arith}
use decom.Timer.{Timer, init, start, ticks, elapsed, is_least, fire, round}
use decom.Timer.Periodic.{rounds, rounds-ticks, start-unanswered}

abbrev timer : Timer
timer = init 0 0 false

-- A period of five microseconds is 50 ticks; the third round calls the callback late, the fourth catches up.
abbrev readings : List ℕ
readings = 20 ∷ 55 ∷ 170 ∷ 171 ∷ []

rounds-ticks_example :
    (let (s', n) = rounds 10000000 (start 0 timer 5 true true) readings in
      (0 + n * 50 ≤ 171) × (172 ≤ 0 + (n + 1) * 50) × (s'.running ≡ true))
unfolding init start ticks elapsed is_least fire round
rounds-ticks_example =
    rounds-ticks 10000000 0 5 timer readings 172 (omega arith)
      (omega arith, (omega arith, (omega arith, (omega arith, tt)))) (omega arith) (omega arith)
      (omega arith) (omega arith) refl

-- A timer that nobody serves for eleven days does not fire, although its period has elapsed: the product has
-- become negative.
overflow : (round 10000000 9504000000000 (start 0 timer 5 true true)).1 ≡ false
unfolding init start elapsed is_least round
overflow = refl

start-unanswered_example :
    (let (s', n) = rounds 10000000 (start 0 timer 5 false false) readings in
      (s'.running ≡ true) × (n ≡ 0))
start-unanswered_example = start-unanswered 10000000 0 5 timer false readings
