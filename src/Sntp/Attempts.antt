-- ===== src/Sntp/Attempts.antt =====
-- dev_sntp.h: how often a request is sent again, and which answer still counts.
use decom.Base.{
  le→not_ltb, lt→ltb, subst, length-append, ==_iff, ℕ, suc, ◌+◌, ◌-◌, ◌%◌, ◌^◌, ◌≤◌, ◌≡◌, refl, ap,
  sym, ◌∙◌, Bool, true, false, not, ◌&&◌, ◌||◌, none, some, List, [], ◌∷◌, ◌++◌, ltb, leb, ◌==◌,
  length, arith, Bool-cases, inl, inr,
}
use decom.Layer.{Effect}
use decom.Sntp.Client.{
  Sntp, header_len, header_ext_len, response_timeout, header_of, request, timeout, is_invalid,
  receive, get_time, got_time,
}

-- The timer fires, if it runs; it was started once and is then no longer running.
abbrev pub fire : Sntp → (now : ℕ) → Sntp × List Effect
fire s now = elim s.timer [ none ↦ (s, []) | some period ↦ timeout (record s { timer = none }) now ]

-- No answer comes while the timer fires at these times.
abbrev pub silence : Sntp → List ℕ → Sntp × List Effect
silence s [] = (s, [])
silence s (now ∷ times) =
    let (s', out) = fire s now in let (s'', out') = silence s' times in (s'', out ++ out')

-- A request was sent for the `n`-th time after the first one, or the device has given up.
pub record IsWaiting (s : Sntp) (n : ℕ) : Type 0 where
  pub timer_runs : s.timer ≡ some response_timeout
  pub no_event : s.rx_ev ≡ false
  pub counted : s.retries ≡ n

pub record IsOver (s : Sntp) : Type 0 where
  pub timer_stands : s.timer ≡ none
  pub event : s.rx_ev ≡ true
  pub counted : s.retries ≡ 4

timeout_again :
    (s : Sntp) (now : ℕ)
    → suc s.retries ≤ 3
    → timeout s now ≡ request (record s { retries = suc s.retries }) now
unfolding timeout
timeout_again s now le =
    let few : ltb s.retries 3 ≡ true = ground arith in
    let count : (s.retries + 1) % 2 ^ 8 ≡ suc s.retries = omega arith in rw (few, count) refl

timeout_over :
    (s : Sntp) (now : ℕ)
    → s.retries ≡ 3
    → timeout s now ≡ (record s { retries = 4; rx_ev = true }, [])
unfolding timeout
timeout_over s now e = rw e refl

fire-IsWaiting :
    (s : Sntp) (now n : ℕ)
    → IsWaiting s n
    → suc n ≤ 3
    → IsWaiting (fire s now).0 (suc n) × (length (fire s now).1 ≡ 1)
unfolding request
fire-IsWaiting s now n w le =
    let again = timeout_again (record s { timer = none }) now (omega (arith, w.counted)) in
    rw (w.timer_runs, again)
      (record { timer_runs = refl; no_event = refl; counted = ap suc w.counted }, refl)

fire-IsOver :
    (s : Sntp) (now : ℕ) → IsWaiting s 3 → IsOver (fire s now).0 × (length (fire s now).1 ≡ 0)
fire-IsOver s now w =
    let over = timeout_over (record s { timer = none }) now w.counted in
    rw (w.timer_runs, over) (record { timer_stands = refl; event = refl; counted = refl }, refl)

silence-IsOver : (s : Sntp) (times : List ℕ) → IsOver s → silence s times ≡ (s, [])
silence-IsOver s [] o = refl
silence-IsOver s (now ∷ times) o =
    let still : IsOver (record s { timer = none }) = record {
      timer_stands = refl;
      event = o.event;
      counted = o.counted;
    } in
    rw (o.timer_stands) (silence-IsOver (record s { timer = none }) times still)

-- Up to the third firing a request goes out each time.
silence-IsWaiting :
    (s : Sntp) (n : ℕ) (times : List ℕ)
    → IsWaiting s n
    → length times + n ≤ 3
    → IsWaiting (silence s times).0 (length times + n) × (length (silence s times).1 ≡ length times)
silence-IsWaiting s n [] w le = (subst (IsWaiting s) (omega arith) w, refl)
silence-IsWaiting s n (now ∷ times) w le =
    let (w', one) = fire-IsWaiting s now n w (omega (arith, le)) in
    let (w'', all) = silence-IsWaiting (fire s now).0 (suc n) times w' (omega (arith, le)) in
    (
      subst (IsWaiting (silence (fire s now).0 times).0) (omega arith) w'',
      length-append (fire s now).1 (silence (fire s now).0 times).1 ∙ omega (arith, one, all),
    )

-- With the fourth one the device gives up.
silence-gives_up :
    (s : Sntp) (n : ℕ) (times : List ℕ)
    → IsWaiting s n
    → n ≤ 3
    → 4 ≤ length times + n
    → IsOver (silence s times).0 × (length (silence s times).1 ≡ 3 - n)
silence-gives_up s n [] w few le = absurd (omega (arith, few, le))
silence-gives_up s n (now ∷ times) w few le = elim (Bool-cases (n == 3)) [
  | inl e ↦
      let last : n ≡ 3 = (==_iff n 3).0 e in
      let (o, out) = fire-IsOver s now (subst (IsWaiting s) last w) in
      let rest = silence-IsOver (fire s now).0 times o in
      (
        subst (λ r. IsOver r.0) (sym rest) o,
        length-append (fire s now).1 (silence (fire s now).0 times).1
            ∙ (ap (λ r. length (fire s now).1 + length r.1) rest ∙ omega (arith, out, last)),
      )
  | inr ne ↦
      let more : suc n ≤ 3 = ground arith in
      let (w', one) = fire-IsWaiting s now n w more in
      let (o, all) = silence-gives_up (fire s now).0 (suc n) times w' more (omega (arith, le)) in
      (
        o,
        length-append (fire s now).1 (silence (fire s now).0 times).1
            ∙ omega (arith, one, all, more),
      )
]

get_time-IsWaiting : (lower : Bool) (s : Sntp) (now : ℕ) → IsWaiting (get_time lower s now).0 0
unfolding get_time request
get_time-IsWaiting lower s now = record { timer_runs = refl; no_event = refl; counted = refl }

length-get_time : (lower : Bool) (s : Sntp) (now : ℕ) → length (get_time lower s now).1 ≡ 1
unfolding get_time request
length-get_time lower s now = refl

-- If no answer comes, the request goes out four times in all, and when the timer has fired for the
-- fourth time the waiting `get_time` wakes up and returns false and the time 0.
pub get_time-gives_up :
    (lower : Bool) (to_time_t : ℕ → ℕ) (s : Sntp) (now : ℕ) (times : List ℕ) (later : ℕ)
    → 4 ≤ length times
    → ((silence (get_time lower s now).0 times).0.rx_ev ≡ true)
      × (length (get_time lower s now).1 + length (silence (get_time lower s now).0 times).1 ≡ 4)
      × (got_time to_time_t (silence (get_time lower s now).0 times).0 later
          ≡ ((silence (get_time lower s now).0 times).0, 0, false))
unfolding got_time
get_time-gives_up lower to_time_t s now times later le =
    let started = (get_time lower s now).0 in
    let (o, out) =
      silence-gives_up started 0 times (get_time-IsWaiting lower s now) (omega arith)
        (omega (arith, le)) in
    (o.event, omega (arith, out, length-get_time lower s now), rw (o.counted) refl)

receive_answer :
    (s : Sntp) (bytes : List ℕ) (arrival later : ℕ)
    → (length bytes == header_len || length bytes == header_ext_len) ≡ true
    → is_invalid (header_of bytes) ≡ false
    → ((receive s bytes arrival later).0.rx_ev ≡ true)
      × ((receive s bytes arrival later).0.retries ≡ s.retries)
unfolding receive
receive_answer s bytes arrival later len ok =
    let right : (not (length bytes == header_len) && not (length bytes == header_ext_len)) ≡ false =
      ground (arith, len) in
    rw (right, ok) (refl, refl)

got_time_ok :
    (to_time_t : ℕ → ℕ) (s : Sntp) (now : ℕ) → (got_time to_time_t s now).2 ≡ ltb s.retries 3
unfolding got_time
got_time_ok to_time_t s now = elim (Bool-cases (leb 3 s.retries)) [
  | inl e ↦ rw e (sym (le→not_ltb s.retries 3 (ground (arith, e))))
  | inr ne ↦ rw ne (sym (lt→ltb s.retries 3 (ground (arith, ne))))
]

-- A first answer of one of the two lengths and with a valid header wakes `get_time` up if it comes
-- before the timer has fired for the fourth time; but `get_time` returns true only if it comes before
-- the third firing, so never for an answer to the last request.
pub answer_counts :
    (lower : Bool) (to_time_t : ℕ → ℕ) (s : Sntp) (now : ℕ) (times bytes : List ℕ)
    (arrival later end : ℕ)
    → length times ≤ 3
    → (length bytes == header_len || length bytes == header_ext_len) ≡ true
    → is_invalid (header_of bytes) ≡ false
    → ((receive (silence (get_time lower s now).0 times).0 bytes arrival later).0.rx_ev ≡ true)
      × ((got_time to_time_t
            (receive (silence (get_time lower s now).0 times).0 bytes arrival later).0
            end).2
          ≡ ltb (length times) 3)
answer_counts lower to_time_t s now times bytes arrival later end le len ok =
    let started = (get_time lower s now).0 in
    let waited = (silence started times).0 in
    let (w, out) =
      silence-IsWaiting started 0 times (get_time-IsWaiting lower s now) (omega (arith, le)) in
    let (event, kept) = receive_answer waited bytes arrival later len ok in
    let count : (receive waited bytes arrival later).0.retries ≡ length times =
      kept ∙ (w.counted ∙ omega arith) in
    (
      event,
      got_time_ok to_time_t (receive waited bytes arrival later).0 end ∙ ap (λ n. ltb n 3) count,
    )
