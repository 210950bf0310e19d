-- ===== src/Scheduler/Service.antt =====
-- prot_scheduler.cpp: the periodic messages over several calls of the timer's callback.
use decom.Base.{
  ℕ, zero, suc, ◌+◌, ◌*◌, ◌≤◌, ◌<◌, ◌≡◌, refl, ap, sym, ◌∙◌, Bool, true, false, ◌||◌, Option, some,
  List, [], ◌∷◌, ◌++◌, All, ◌>>=◌, if◌then◌else◌, is_empty, replicate, arith, append_assoc, subst,
}
use decom.Layer.{Eid, eid_eq}
use decom.Scheduler.{Scheduler, Message}
use decom.Scheduler.Timer.{
  Cursor, Action, sent, called, startup, timer_callback, tick, open_tick, schedule, tick_message,
  tick_messages,
}
use decom.Scheduler.Periodic.{ticks, elapsed_to, ticks-replicate}

-- Several calls of the timer's callback.
abbrev pub rounds : ℕ → Scheduler → Cursor → Option (Scheduler × Cursor × List Action)
rounds zero s c = some (s, c, [])
rounds (suc n) s c = timer_callback s c >>= λ (r : Scheduler × Cursor × List Action).
    rounds n r.0 r.1 >>= λ (q : Scheduler × Cursor × List Action). some (q.0, q.1, r.2 ++ q.2)

-- The rounds behind a first one.
abbrev and_rounds :
    ℕ → Option (Scheduler × Cursor × List Action) → Option (Scheduler × Cursor × List Action)
and_rounds n first = first >>= λ (r : Scheduler × Cursor × List Action).
    rounds n r.0 r.1 >>= λ (q : Scheduler × Cursor × List Action). some (q.0, q.1, r.2 ++ q.2)

-- How often a message with the identifier goes out.
abbrev pub sends_of : Eid → List Action → ℕ
sends_of id [] = 0
sends_of id (sent bytes id' ∷ out) = let n = sends_of id out in if eid_eq id' id then suc n else n
sends_of id (called msg_idx table_idx list_idx ∷ out) = sends_of id out

-- The other messages have other identifiers.
abbrev pub AreOthers : Eid → List Message → Type 0
AreOthers id messages = All (λ x. eid_eq x.id id ≡ false) messages

sends_of-append :
    (id : Eid) (xs ys : List Action) → sends_of id (xs ++ ys) ≡ sends_of id xs + sends_of id ys
sends_of-append id [] ys = omega arith
sends_of-append id (sent bytes id' ∷ xs) ys = ground (arith, sends_of-append id xs ys)
sends_of-append id (called i j k ∷ xs) ys = sends_of-append id xs ys

tick_message-other :
    (p : ℕ) (id : Eid) (m : Message)
    → eid_eq m.id id ≡ false
    → (sends_of id (tick_message p m).1 ≡ 0) × (eid_eq (tick_message p m).0.id id ≡ false)
unfolding tick_message
tick_message-other p id m other = (ground arith, ground arith)

tick_message-id : (p : ℕ) (m : Message) → (tick_message p m).0.id ≡ m.id
unfolding tick_message
tick_message-id p m = ground arith

tick_messages-others :
    (p : ℕ) (id : Eid) (messages : List Message)
    → AreOthers id messages
    → (sends_of id (tick_messages p messages).1 ≡ 0) × AreOthers id (tick_messages p messages).0
unfolding tick_messages
tick_messages-others p id [] others = (refl, tt)
tick_messages-others p id (m ∷ messages) others =
    let (quiet, same) = tick_message-other p id m others.0 in
    let (rest, all) = tick_messages-others p id messages others.1 in
    (
      omega (
        arith,
        quiet,
        rest,
        sends_of-append id (tick_message p m).1 (tick_messages p messages).1,
      ),
      (same, all),
    )

tick_messages-append :
    (p : ℕ) (xs ys : List Message)
    → tick_messages p (xs ++ ys) ≡ (
      (tick_messages p xs).0 ++ (tick_messages p ys).0,
      (tick_messages p xs).1 ++ (tick_messages p ys).1,
    )
unfolding tick_messages
tick_messages-append p [] ys = refl
tick_messages-append p (m ∷ xs) ys =
    ap (λ q. ((tick_message p m).0 ∷ q.0, (tick_message p m).1 ++ q.1))
      (tick_messages-append p xs ys)
    ∙ ap (λ l. ((tick_message p m).0 ∷ ((tick_messages p xs).0 ++ (tick_messages p ys).0), l))
        (sym (append_assoc (tick_message p m).1 (tick_messages p xs).1 (tick_messages p ys).1))

-- An open scheduler with these messages.
abbrev pub service : Scheduler → (reset : Bool) → List Message → Scheduler
service s reset messages = record s { is_open = true; scheduler_reset = reset; messages = messages }

module _ (s : Scheduler) (nothing : (is_empty s.tables || is_empty s.lists) ≡ true) where
  callback-service :
      (reset : Bool) (messages : List Message) (c : Cursor)
      → (c' : Cursor) × (timer_callback (service s reset messages) c
          ≡ some (
            service s false (tick_messages s.scheduler_period messages).0,
            c',
            (tick_messages s.scheduler_period messages).1,
          ))
  unfolding timer_callback tick open_tick schedule
  callback-service true messages c = (startup, rw nothing refl)
  callback-service false messages c = (c, rw nothing refl)

  rounds-service :
      (n : ℕ) (reset : Bool) (before behind : List Message) (m : Message) (c : Cursor)
      → AreOthers m.id before
      → AreOthers m.id behind
      → (s' : Scheduler) × (c' : Cursor) × (out : List Action) × (rounds n
            (service s reset (before ++ (m ∷ behind)))
            c
          ≡ some (s', c', out))
        × (sends_of m.id out ≡ sends_of m.id (ticks s.scheduler_period n m).1)
  unfolding tick_messages
  rounds-service zero reset before behind m c others others' =
      (service s reset (before ++ (m ∷ behind)), c, [], refl, refl)
  rounds-service (suc n) reset before behind m c others others' =
      let p = s.scheduler_period in
      let (c', eq) = callback-service reset (before ++ (m ∷ behind)) c in
      let (quiet, all) = tick_messages-others p m.id before others in
      let (quiet', all') = tick_messages-others p m.id behind others' in
      let same = tick_message-id p m in
      let now =
        (tick_messages p before).1 ++ ((tick_message p m).1 ++ (tick_messages p behind).1) in
      let (s'', c'', out, run, count) =
        rounds-service n false (tick_messages p before).0 (tick_messages p behind).0
          (tick_message p m).0 c'
          (subst (λ id. AreOthers id (tick_messages p before).0) (sym same) all)
          (subst (λ id. AreOthers id (tick_messages p behind).0) (sym same) all') in
      (
        s'',
        c'',
        now ++ out,
        ap (and_rounds n) eq
            ∙ ap
                (λ (q : List Message × List Action).
                  and_rounds n (some (service s false q.0, c', q.1)))
                (tick_messages-append p before (m ∷ behind))
            ∙ ap (λ r. r >>= λ (q : Scheduler × Cursor × List Action). some (q.0, q.1, now ++ q.2))
                run,
        omega (
          arith,
          quiet,
          quiet',
          subst (λ id. sends_of id out ≡ sends_of id (ticks p n (tick_message p m).0).1) same count,
          sends_of-append m.id now out,
          sends_of-append m.id (tick_messages p before).1
              ((tick_message p m).1 ++ (tick_messages p behind).1),
          sends_of-append m.id (tick_message p m).1 (tick_messages p behind).1,
          sends_of-append m.id (tick_message p m).1 (ticks p n (tick_message p m).0).1,
        ),
      )

eid_eq_refl : (id : Eid) → eid_eq id id ≡ true
unfolding eid_eq
eid_eq_refl id = ground arith

sends_of-replicate :
    (k : ℕ) (id : Eid) (bytes : List ℕ) → sends_of id (replicate k (sent bytes id)) ≡ k
sends_of-replicate zero id bytes = refl
sends_of-replicate (suc k) id bytes = rw (eid_eq_refl id) (ap suc (sends_of-replicate k id bytes))

-- An open scheduler without tables or without lists has a message with an interval, of whose time nothing
-- has elapsed, and the messages before and behind it have other identifiers. In k times as many rounds of
-- the timer's callback as it takes for the timer's periods to reach the interval, the callback runs
-- each time without an access out of range, and exactly k messages with this identifier are sent.
pub rounds-sends :
    (s : Scheduler) (reset : Bool) (before behind : List Message) (n k : ℕ) (m : Message)
    (c : Cursor)
    → (is_empty s.tables || is_empty s.lists) ≡ true
    → AreOthers m.id before
    → AreOthers m.id behind
    → 0 < m.interval
    → n * s.scheduler_period < m.interval
    → m.interval ≤ n * s.scheduler_period + s.scheduler_period
    → (s' : Scheduler) × (c' : Cursor) × (out : List Action) × (rounds
          (k * suc n)
          (service s reset (before ++ (elapsed_to 0 m ∷ behind)))
          c
        ≡ some (s', c', out))
      × (sends_of m.id out ≡ k)
rounds-sends s reset before behind n k m c nothing others others' some_time early due =
    let p = s.scheduler_period in
    let (s', c', out, run, count) =
      rounds-service s nothing (k * suc n) reset before behind (elapsed_to 0 m) c others others' in
    (
      s',
      c',
      out,
      run,
      count
          ∙ ap (λ (r : Message × List Action). sends_of m.id r.1)
              (ticks-replicate p n k m some_time early due)
          ∙ sends_of-replicate k m.id m.data_,
    )
