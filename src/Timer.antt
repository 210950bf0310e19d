-- ===== src/Timer.antt =====
-- src/impl/windows/util/timer.h: the timer, over the counter of the operating system, which does not run
-- backwards. `freq` are the counter's ticks in a second; a period is not negative.
use decom.Base.{
  ℕ, ◌+◌, ◌-◌, ◌*◌, ◌/◌, ◌%◌, ◌^◌, Bool, true, false, not, ◌&&◌, Option, none, some, leb, ltb,
  if◌then◌else◌,
}
mod Periodic
mod Tests

-- The data members of class `timer`, without the argument of the callback and the handles; `callback` is
-- whether the pointer is set. The constructor does not set the period, the mode and the trigger's time.
pub record Timer : Type 0 where
  pub period : ℕ
  pub running : Bool
  pub worker_end : Bool
  pub periodic : Bool
  pub callback : Bool
  pub trigger_time : ℕ

unfoldable pub init : (period trigger_time : ℕ) → (periodic : Bool) → Timer
init period trigger_time periodic = record {
  period = period;
  running = false;
  worker_end = false;
  periodic = periodic;
  callback = false;
  trigger_time = trigger_time;
}

-- The destructor up to the wait for the thread's end.
unfoldable pub destroy : Timer → Timer
destroy s = record s { running = false; worker_end = true }

unfoldable pub start : (now : ℕ) → Timer → (period : ℕ) → (periodic callback : Bool) → Timer
start now s period periodic callback = record s {
  trigger_time = now;
  period = period;
  periodic = periodic;
  callback = callback;
  running = true;
}

unfoldable pub stop : Timer → Timer
stop s = record s { running = false }

-- A LONGLONG is a number below 2 ^ 64 that stands for its two's complement. Its quotient by a positive
-- number is rounded to 0.
abbrev pub word : ℕ → ℕ
word n = n % 2 ^ 64

abbrev pub quotient : (n d : ℕ) → ℕ
quotient n d = if ltb n (2 ^ 63) then n / d else word (2 ^ 64 - (2 ^ 64 - n) / d)

-- `n >= k` for a `k` that is not negative
unfoldable pub is_least : (k n : ℕ) → Bool
is_least k n = ltb n (2 ^ 63) && leb k n

-- The ticks of a time in microseconds, and the microseconds since the last trigger.
unfoldable pub ticks : (freq period : ℕ) → ℕ
ticks freq period = quotient (word (period * freq)) 1000000

unfoldable pub elapsed : (freq now : ℕ) → Timer → ℕ
elapsed freq now s = quotient (word (word (now + 2 ^ 64 - s.trigger_time) * 1000000)) freq

-- -1 while the timer does not run
unfoldable pub get_elapsed : (freq now : ℕ) → Timer → ℕ
get_elapsed freq now s = if not s.running then 2 ^ 64 - 1 else elapsed freq now s

-- What happens when the time has elapsed: the state when the callback is called, and whether it is.
unfoldable pub fire : (freq : ℕ) → Timer → Timer × Bool
fire freq s =
    let s' : Timer = record s { trigger_time = word (s.trigger_time + ticks freq s.period) } in
    if s.callback
    then (if not s.periodic then (record s' { running = false }, true) else (s', true))
    else (s', false)

-- The milliseconds that the worker then waits, at most: `s` is the state before the round.
unfoldable pub wait_time : (freq now : ℕ) → Timer → Option ℕ
wait_time freq now s =
    let since = elapsed freq now s in
    let next = if is_least s.period since then 0 else word (s.period + 2 ^ 64 - since) in
    if is_least 30000 next && not s.worker_end then some ((next / 1000 - 10) % 2 ^ 32) else none

-- A round of the loop in `worker`: nothing happens while the timer does not run. A callback that starts
-- the timer again is a call of `start` behind the round.
unfoldable pub round : (freq now : ℕ) → Timer → Timer × Bool
round freq now s =
    if s.running && is_least s.period (elapsed freq now s) then fire freq s else (s, false)
