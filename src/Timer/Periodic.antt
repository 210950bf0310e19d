-- ===== src/Timer/Periodic.antt =====
-- timer.h: a periodic timer fires for each of its periods, and a timer without a callback does not end.
use native.Mathlib.Nat.{le-div_iff_mul-le, div-lt_iff_lt-mul}
use decom.Base.{
  subst, ℕ, suc, ◌+◌, ◌-◌, ◌*◌, ◌/◌, ◌^◌, ltb, ◌≤◌, ◌<◌, ◌≡◌, refl, ap, sym, ◌∙◌, Bool, true, false,
  List, [], ◌∷◌, leb, if◌then◌else◌, arith, Bool-cases, inl, inr,
}
use decom.Timer.{Timer, word, quotient, is_least, start, ticks, elapsed, fire, round}

-- The rounds of the worker at the readings of the counter, and how often the callback is called.
abbrev pub rounds : (freq : ℕ) → Timer → List ℕ → Timer × ℕ
rounds freq s [] = (s, 0)
rounds freq s (now ∷ times) =
    let (s', fired) = round freq now s in
    let (s'', n) = rounds freq s' times in (s'', if fired then suc n else n)

-- Readings that do not go back, from `from` on, and the last one.
abbrev pub AreRising : ℕ → List ℕ → Type 0
AreRising from [] = Unit {0}
AreRising from (now ∷ times) = (from ≤ now) × AreRising now times

abbrev pub last_of : ℕ → List ℕ → ℕ
last_of from [] = from
last_of from (now ∷ times) = last_of now times

-- A timer that runs periodically.
abbrev pub periodically : Timer → (period trigger : ℕ) → Timer
periodically s period trigger = record s {
  period = period;
  running = true;
  periodic = true;
  callback = true;
  trigger_time = trigger;
}

le-last_of : (from : ℕ) (times : List ℕ) → AreRising from times → from ≤ last_of from times
le-last_of from [] rising = omega arith
le-last_of from (now ∷ times) rising = omega (arith, rising.0, le-last_of now times rising.1)

quotient-plain : (n d : ℕ) → n < 2 ^ 63 → quotient (word n) d ≡ n / d
quotient-plain n d h =
    let same : word n ≡ n = omega (arith, h) in
    let low : ltb n (2 ^ 63) ≡ true = ground (arith, h) in rw (same, low) refl

ticks-plain :
    (freq period : ℕ) → period * freq < 2 ^ 63 → ticks freq period ≡ period * freq / 1000000
unfolding ticks
ticks-plain freq period small = quotient-plain (period * freq) 1000000 small

elapsed-plain :
    (freq now : ℕ) (s : Timer)
    → s.trigger_time ≤ now
    → now < 2 ^ 63
    → (now - s.trigger_time) * 1000000 < 2 ^ 63
    → elapsed freq now s ≡ (now - s.trigger_time) * 1000000 / freq
unfolding elapsed
elapsed-plain freq now s order near small =
    let since : word (now + 2 ^ 64 - s.trigger_time) ≡ now - s.trigger_time =
      omega (arith, order, near) in
    ap (λ n. quotient (word (n * 1000000)) freq) since
    ∙ quotient-plain ((now - s.trigger_time) * 1000000) freq small

-- If a period has elapsed, its ticks are not behind the reading; otherwise the reading is not behind them.
ticks-le :
    (freq now trigger period : ℕ)
    → 0 < freq
    → trigger ≤ now
    → period ≤ (now - trigger) * 1000000 / freq
    → trigger + period * freq / 1000000 ≤ now
ticks-le freq now trigger period pos order h =
    let product : period * freq ≤ (now - trigger) * 1000000 = (le-div_iff_mul-le pos).0 h in
    omega (arith, product, order)

le-ticks :
    (freq now trigger period : ℕ)
    → 0 < freq
    → (now - trigger) * 1000000 / freq < period
    → now ≤ trigger + period * freq / 1000000
le-ticks freq now trigger period pos h =
    let product : (now - trigger) * 1000000 < period * freq = (div-lt_iff_lt-mul pos).0 h in
    omega (arith, product)

leb→le : (a b : ℕ) → leb a b ≡ true → a ≤ b
leb→le a b h = ground arith

not_leb→lt : (a b : ℕ) → leb a b ≡ false → b < a
not_leb→lt a b h = ground arith

is_least-plain : (k n : ℕ) → n < 2 ^ 63 → is_least k n ≡ leb k n
unfolding is_least
is_least-plain k n h = let low : ltb n (2 ^ 63) ≡ true = ground (arith, h) in rw low refl

-- The readings that are less than the arithmetic of 64 bits allows, behind the trigger's time.
abbrev IsNear : (now trigger : ℕ) → Type 0
IsNear now trigger = (now < 2 ^ 63) × ((now - trigger) * 1000000 < 2 ^ 63)

round-is_least :
    (freq now : ℕ) (s : Timer) (period trigger : ℕ)
    → round freq now (periodically s period trigger) ≡ (
        if is_least period (elapsed freq now (periodically s period trigger))
        then (periodically s period (word (trigger + ticks freq period)), true)
        else (periodically s period trigger, false))
unfolding round fire
round-is_least freq now s period trigger = refl

-- The rounds behind a first one.
abbrev and_rounds : (freq : ℕ) → List ℕ → Timer × Bool → Timer × ℕ
and_rounds freq times (s', fired) =
    let (s'', n) = rounds freq s' times in (s'', if fired then suc n else n)

module _ (freq period : ℕ) (s : Timer) (pos : 0 < freq) (small : period * freq < 2 ^ 63) where
  -- The ticks of a period.
  abbrev step : ℕ
  step = period * freq / 1000000

  round-periodically :
      (now trigger : ℕ)
      → trigger ≤ now
      → IsNear now trigger
      → round freq now (periodically s period trigger) ≡ (
          if leb period ((now - trigger) * 1000000 / freq)
          then (periodically s period (trigger + step), true)
          else (periodically s period trigger, false))
  round-periodically now trigger order (near, product) =
      let since = (now - trigger) * 1000000 / freq in
      let fires : ℕ → Timer × Bool = λ t. (periodically s period t, true) in
      let waits : Timer × Bool = (periodically s period trigger, false) in
      let reading = elapsed-plain freq now (periodically s period trigger) order near product in
      let below : since < 2 ^ 63 = (div-lt_iff_lt-mul pos).1 (omega (arith, pos, product)) in
      round-is_least freq now s period trigger
      ∙ ap (λ e. if is_least period e then fires (word (trigger + ticks freq period)) else waits)
          reading
      ∙ ap (λ b. if b then fires (word (trigger + ticks freq period)) else waits)
          (is_least-plain period since below)
      ∙ elim (Bool-cases (leb period since)) [
        | inl e ↦
            let reached = ticks-le freq now trigger period pos order (leb→le period since e) in
            let next : word (trigger + ticks freq period) ≡ trigger + step =
              ap (λ t. word (trigger + t)) (ticks-plain freq period small)
              ∙ omega (arith, reached, near) in
            ap (λ t. if leb period since then fires t else waits) next
        | inr ne ↦
            ap (λ b. if b then fires (word (trigger + ticks freq period)) else waits) ne
            ∙ sym (ap (λ b. if b then fires (trigger + step) else waits) ne)
      ]

  -- A timer that has fired some times since `trigger`.
  abbrev IsOnGrid : (trigger last : ℕ) → Timer × ℕ → Type 0
  IsOnGrid trigger last (s', n) =
      (s' ≡ periodically s period (trigger + n * step)) × (trigger + n * step ≤ last)

  rounds-IsOnGrid :
      (trigger from : ℕ) (times : List ℕ)
      → trigger ≤ from
      → AreRising from times
      → IsNear (last_of from times) trigger
      → IsOnGrid trigger (last_of from times) (rounds freq (periodically s period trigger) times)
  rounds-IsOnGrid trigger from [] order rising near =
      let none_yet : trigger ≡ trigger + 0 * step = omega arith in
      (ap (periodically s period) none_yet, omega (arith, order))
  rounds-IsOnGrid trigger from (now ∷ times) order rising near =
      let since = (now - trigger) * 1000000 / freq in
      let fires : Timer × Bool = (periodically s period (trigger + step), true) in
      let waits : Timer × Bool = (periodically s period trigger, false) in
      let P = IsOnGrid trigger (last_of now times) in
      let later = le-last_of now times rising.1 in
      let next : round freq now (periodically s period trigger)
          ≡ (if leb period since then fires else waits) =
        round-periodically now trigger (omega (arith, order, rising.0))
          (omega (arith, near.0, later), omega (arith, near.1, later)) in
      elim (Bool-cases (leb period since)) [
        | inl e ↦
            let reached =
              ticks-le freq now trigger period pos (omega (arith, order, rising.0))
                (leb→le period since e) in
            let (state, bound) =
              rounds-IsOnGrid (trigger + step) now times reached rising.1
                (near.0, omega (arith, near.1)) in
            let n = (rounds freq (periodically s period (trigger + step)) times).1 in
            let total : trigger + step + n * step ≡ trigger + suc n * step = omega arith in
            subst P
              (ap (and_rounds freq times) (sym (next ∙ ap (λ b. if b then fires else waits) e)))
              (state ∙ ap (periodically s period) total, omega (arith, bound))
        | inr ne ↦
            let (state, bound) =
              rounds-IsOnGrid trigger now times (omega (arith, order, rising.0)) rising.1 near in
            subst P
              (ap (and_rounds freq times) (sym (next ∙ ap (λ b. if b then fires else waits) ne)))
              (state, bound)
      ]

not_fired :
    (b : Bool) (x y : Timer × Bool)
    → x.1 ≡ true
    → y.1 ≡ false
    → (if b then x else y).1 ≡ false
    → b ≡ false
not_fired true x y on off h = cc
not_fired false x y on off h = refl

-- A timer is started at `begin` with a period and a callback, and its worker takes rounds at readings that
-- do not go back, the further round included. If 10^6 times the ticks from `begin` to that round, the
-- product of the period and the frequency and the reading fit into a positive number of 64 bits: whether the
-- rounds are late or not, the periods for which the callback was called fit into the time up to the last
-- round, and if the further round does not call it, this round is within the next period, where the periods
-- are counted from `begin` on. The timer goes on running.
pub rounds-ticks :
    (freq begin period : ℕ) (s : Timer) (times : List ℕ) (now : ℕ)
    → 0 < freq
    → AreRising begin times
    → last_of begin times ≤ now
    → period * freq < 2 ^ 63
    → now < 2 ^ 63
    → (now - begin) * 1000000 < 2 ^ 63
    → (round freq now (rounds freq (start begin s period true true) times).0).1 ≡ false
    → (let (s', n) = rounds freq (start begin s period true true) times in
        let t = period * freq / 1000000 in
        (begin + n * t ≤ last_of begin times) × (now ≤ begin + (n + 1) * t) × (s'.running ≡ true))
unfolding start
rounds-ticks freq begin period s times now pos rising further small near product quiet =
    let (state, bound) =
      rounds-IsOnGrid freq period s pos small begin begin times (omega arith) rising
        (omega (arith, near, further), omega (arith, product, further)) in
    let n = (rounds freq (periodically s period begin) times).1 in
    let t = period * freq / 1000000 in
    let trigger = begin + n * t in
    let next =
      round-periodically freq period s pos small now trigger (omega (arith, bound, further))
        (near, omega (arith, product)) in
    let late : leb period ((now - trigger) * 1000000 / freq) ≡ false =
      not_fired (leb period ((now - trigger) * 1000000 / freq))
        (periodically s period (trigger + t), true) (periodically s period trigger, false) refl refl
        (sym (ap (λ q. q.1) next) ∙ (sym (ap (λ s'. (round freq now s').1) state) ∙ quiet)) in
    let behind =
      le-ticks freq now trigger period pos
        (not_leb→lt period ((now - trigger) * 1000000 / freq) late) in
    (bound, omega (arith, behind), ap (λ s. s.running) state)

-- A timer that runs without a callback.
abbrev unanswered : Timer → (period : ℕ) → (periodic : Bool) → (trigger : ℕ) → Timer
unanswered s period periodic trigger = record s {
  period = period;
  running = true;
  periodic = periodic;
  callback = false;
  trigger_time = trigger;
}

rounds-unanswered :
    (freq : ℕ) (s : Timer) (period : ℕ) (periodic : Bool) (trigger : ℕ) (times : List ℕ)
    → (let (s', n) = rounds freq (unanswered s period periodic trigger) times in
        (s'.running ≡ true) × (n ≡ 0))
unfolding round fire
rounds-unanswered freq s period periodic trigger [] = (refl, refl)
rounds-unanswered freq s period periodic trigger (now ∷ times) =
    elim (Bool-cases (is_least period (elapsed freq now (unanswered s period periodic trigger)))) [
      | inl e ↦
          rw e (rounds-unanswered freq s period periodic (word (trigger + ticks freq period)) times)
      | inr ne ↦ rw ne (rounds-unanswered freq s period periodic trigger times)
    ]

-- `wait` starts a timer without a callback and waits until it does not run: whatever the readings of the
-- worker's rounds are, it goes on running.
pub start-unanswered :
    (freq begin period : ℕ) (s : Timer) (periodic : Bool) (times : List ℕ)
    → (let (s', n) = rounds freq (start begin s period periodic false) times in
        (s'.running ≡ true) × (n ≡ 0))
unfolding start
start-unanswered freq begin period s periodic times =
    rounds-unanswered freq s period periodic begin times
