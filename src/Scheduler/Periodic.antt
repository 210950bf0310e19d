-- ===== src/Scheduler/Periodic.antt =====
-- prot_scheduler.cpp: how often a periodic message goes out.
use decom.Base.{
  ℕ, zero, suc, ◌+◌, ◌*◌, ◌≤◌, ◌<◌, ◌≡◌, refl, ap, sym, ◌∙◌, true, false, List, [], ◌∷◌, ◌++◌, ltb,
  leb, replicate, arith, append_assoc,
}
use decom.Scheduler.{Message}
use decom.Scheduler.Timer.{Action, sent, tick_message}

-- One message over several rounds of the timer.
abbrev pub ticks : (period : ℕ) → ℕ → Message → Message × List Action
ticks period zero m = (m, [])
ticks period (suc n) m =
    let (m', out) = tick_message period m in
    let (m'', out') = ticks period n m' in (m'', out ++ out')

-- The message when a time has elapsed.
abbrev pub elapsed_to : ℕ → Message → Message
elapsed_to e m = record m { elapsed = e }

suc_mul : (n p : ℕ) → suc n * p ≡ n * p + p
suc_mul n p = grind arith

tick-quiet :
    (p e : ℕ) (m : Message)
    → e + p < m.interval
    → tick_message p (elapsed_to e m) ≡ (elapsed_to (e + p) m, [])
unfolding tick_message
tick-quiet p e m h = rw (tick_message, periodic, early) refl
  where
    periodic : ltb 0 m.interval ≡ true
    periodic = ground (arith, h)

    early : leb m.interval (e + p) ≡ false
    early = ground (arith, h)

tick-due :
    (p e : ℕ) (m : Message)
    → 0 < m.interval
    → m.interval ≤ e + p
    → tick_message p (elapsed_to e m) ≡ (elapsed_to 0 m, sent m.data_ m.id ∷ [])
unfolding tick_message
tick-due p e m pos h = rw (tick_message, periodic, due) refl
  where
    periodic : ltb 0 m.interval ≡ true
    periodic = ground (arith, pos)

    due : leb m.interval (e + p) ≡ true
    due = ground (arith, h)

-- The rounds up to the one that is due, and this one.
one_period :
    (p n e : ℕ) (m : Message)
    → 0 < m.interval
    → e + n * p < m.interval
    → m.interval ≤ e + n * p + p
    → ticks p (suc n) (elapsed_to e m) ≡ (elapsed_to 0 m, sent m.data_ m.id ∷ [])
one_period p zero e m pos early due =
    ap (λ (r : Message × List Action). (r.0, r.1 ++ [])) (tick-due p e m pos (omega (arith, due)))
one_period p (suc n) e m pos early due =
    ap (λ (r : Message × List Action). ((ticks p (suc n) r.0).0, r.1 ++ (ticks p (suc n) r.0).1))
      (tick-quiet p e m (omega (arith, early, suc_mul n p)))
    ∙ one_period p n (e + p) m pos (omega (arith, early, suc_mul n p))
        (omega (arith, due, suc_mul n p))

ticks-add :
    (p a b : ℕ) (m : Message)
    → ticks p (a + b) m
      ≡ ((ticks p b (ticks p a m).0).0, (ticks p a m).1 ++ (ticks p b (ticks p a m).0).1)
ticks-add p zero b m = let n : 0 + b ≡ b = omega arith in ap (λ k. ticks p k m) n
ticks-add p (suc a) b m =
    let n : suc a + b ≡ suc (a + b) = omega arith in
    ap (λ k. ticks p k m) n
    ∙ ap (λ (r : Message × List Action). (r.0, (tick_message p m).1 ++ r.1))
        (ticks-add p a b (tick_message p m).0)
    ∙ ap (λ out. ((ticks p b (ticks p (suc a) m).0).0, out))
        (sym (
          append_assoc (tick_message p m).1 (ticks p a (tick_message p m).0).1
            (ticks p b (ticks p (suc a) m).0).1))

-- A message with an interval, of whose time nothing has elapsed, goes out exactly k times in k times
-- as many rounds of the timer as it takes for the periods of the rounds to reach the interval, and
-- then nothing of its time has elapsed again.
pub ticks-replicate :
    (p n k : ℕ) (m : Message)
    → 0 < m.interval
    → n * p < m.interval
    → m.interval ≤ n * p + p
    → ticks p (k * suc n) (elapsed_to 0 m) ≡ (elapsed_to 0 m, replicate k (sent m.data_ m.id))
ticks-replicate p n zero m pos early due =
    let none_left : 0 * suc n ≡ 0 = grind arith in ap (λ j. ticks p j (elapsed_to 0 m)) none_left
ticks-replicate p n (suc k) m pos early due =
    ap (λ j. ticks p j (elapsed_to 0 m)) one_more
    ∙ ticks-add p (suc n) (k * suc n) (elapsed_to 0 m)
    ∙ ap
        (λ (r : Message × List Action).
          ((ticks p (k * suc n) r.0).0, r.1 ++ (ticks p (k * suc n) r.0).1))
        (one_period p n 0 m pos (omega (arith, early)) (omega (arith, due)))
    ∙ ap (λ (r : Message × List Action). (r.0, sent m.data_ m.id ∷ r.1))
        (ticks-replicate p n k m pos early due)
  where
    one_more : suc k * suc n ≡ suc n + k * suc n
    one_more = omega (arith, suc_mul k (suc n))
