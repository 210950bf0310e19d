-- ===== src/Scheduler/Heads.antt =====
-- prot_scheduler.cpp: which messages the timer's callback can send at all.
use decom.Base.{
  ℕ, zero, suc, ℤ, pos, negsuc, at_index, ◌+◌, ◌≡◌, refl, ap, sym, ◌∙◌, Bool, true, false, not,
  ◌&&◌, ◌||◌, some, List, [], ◌∷◌, ltb, leb, length, is_empty, get_elem?, if◌then◌else◌, arith, All,
  All-append, Bool-cases, Option-cases, some_injective, subst, All-map, >>=-eq-some, inl, inr,
}
use decom.Layer.{Eid, eid_eq}
use decom.Scheduler.{Scheduler, Message}
use decom.Scheduler.Timer.{
  Cursor, Action, sent, called, startup, next_idx, restore, choose, find_message, scheduled_id,
  send_scheduled, next_table, schedule, tick_message, tick_messages, open_tick, tick,
  timer_callback,
}

-- The identifier is the first of a table, or that of a message with an interval.
abbrev pub heads_table : List (List Eid) → Eid → Bool
heads_table [] id = false
heads_table ([] ∷ tables) id = heads_table tables id
heads_table ((head ∷ table) ∷ tables) id = eid_eq id head || heads_table tables id

abbrev pub is_periodic : List Message → Eid → Bool
is_periodic [] id = false
is_periodic (m ∷ messages) id = (ltb 0 m.interval && eid_eq id m.id) || is_periodic messages id

abbrev pub IsAllowed : List (List Eid) → List Message → Action → Type 0
IsAllowed tables messages (sent bytes id) =
    (heads_table tables id || is_periodic messages id) ≡ true
IsAllowed tables messages (called msg_idx table_idx list_idx) = Unit {0}

eid_eq_self : (id : Eid) → eid_eq id id ≡ true
unfolding eid_eq
eid_eq_self id = ground arith

-- What is found has the identifier that was looked for.
find_message-eid_eq :
    (messages : List Message) (id : Eid) (m : Message)
    → find_message messages id ≡ some m
    → eid_eq m.id id ≡ true
unfolding find_message
find_message-eid_eq [] id m h = cc
find_message-eid_eq (x ∷ messages) id m h = ground (arith, find_message-eid_eq messages id m)

-- The first of a table that is there heads a table.
get_elem?-heads_table :
    (tables : List (List Eid)) (i : ℕ) (table : List Eid) (head id : Eid)
    → get_elem? tables i ≡ some table
    → get_elem? table 0 ≡ some head
    → eid_eq id head ≡ true
    → heads_table tables id ≡ true
get_elem?-heads_table [] i table head id at first same = cc
get_elem?-heads_table ([] ∷ tables) zero table head id at first same = ground arith
get_elem?-heads_table ([] ∷ tables) (suc i) table head id at first same =
    get_elem?-heads_table tables i table head id at first same
get_elem?-heads_table ((x ∷ t) ∷ tables) zero table head id at first same = ground arith
get_elem?-heads_table ((x ∷ t) ∷ tables) (suc i) table head id at first same =
    ground (arith, get_elem?-heads_table tables i table head id at first same)

at_index-heads_table :
    (tables : List (List Eid)) (t : ℤ) (table : List Eid) (head id : Eid)
    → at_index tables t ≡ some table
    → get_elem? table 0 ≡ some head
    → eid_eq id head ≡ true
    → heads_table tables id ≡ true
at_index-heads_table tables (pos i) table head id at first same =
    get_elem?-heads_table tables i table head id at first same
at_index-heads_table tables (negsuc n) table head id at first same = cc

scheduled_id-heads_table :
    (s : Scheduler) (c : Cursor) (head id : Eid)
    → c.msg_idx ≡ some 0
    → scheduled_id s c ≡ some head
    → eid_eq id head ≡ true
    → heads_table s.tables id ≡ true
unfolding scheduled_id
scheduled_id-heads_table s c head id begins at same =
    let (list, is_list, at1) = >>=-eq-some (get_elem? s.lists c.list_idx) _ at in
    let (t, is_t, at2) = >>=-eq-some (at_index list c.table_idx) _ at1 in
    let (table, is_table, at3) = >>=-eq-some (at_index s.tables t) _ at2 in
    let (i, is_i, at4) = >>=-eq-some c.msg_idx _ at3 in
    let first : 0 ≡ i = some_injective (sym begins ∙ is_i) in
    at_index-heads_table s.tables t table head id is_table
      (subst (λ i. get_elem? table i ≡ some head) (sym first) at4) same

send_scheduled-IsAllowed :
    (s : Scheduler) (c : Cursor) (head : Eid)
    → c.msg_idx ≡ some 0
    → scheduled_id s c ≡ some head
    → All (IsAllowed s.tables s.messages) (send_scheduled s c head)
unfolding send_scheduled
send_scheduled-IsAllowed s c head begins at = elim (Option-cases (find_message s.messages head)) [
  | inl none_there ↦ rw (send_scheduled, none_there) tt
  | inr (m, found) ↦
      let first =
        scheduled_id-heads_table s c head m.id begins at
          (find_message-eid_eq s.messages head m found) in
      rw (send_scheduled, found) (rw first refl, called_allowed s.has_callback)
]
  where
    called_allowed :
        (set : Bool)
        → All
            (IsAllowed s.tables s.messages)
            (if set then called c.msg_idx c.table_idx c.list_idx ∷ [] else [])
    called_allowed true = (tt, tt)
    called_allowed false = tt

restore_same :
    (s : Scheduler) (c : Cursor)
    → ((restore s c).0.tables ≡ s.tables) × ((restore s c).0.messages ≡ s.messages)
unfolding restore
restore_same s c = elim (Option-cases c.table_idx_last) [
  | inl none_there ↦ rw (restore, none_there) (refl, refl)
  | inr (last, there) ↦ rw (restore, there) (refl, refl)
]

restore-msg_idx : (s : Scheduler) (c : Cursor) → (restore s c).1.msg_idx ≡ c.msg_idx
unfolding restore
restore-msg_idx s c = elim (Option-cases c.table_idx_last) [
  | inl none_there ↦ rw (restore, none_there) refl
  | inr (last, there) ↦ rw (restore, there) refl
]

choose-msg_idx : (s : Scheduler) (c c' : Cursor) → choose s c ≡ some c' → c'.msg_idx ≡ c.msg_idx
unfolding choose
choose-msg_idx s c c' h = elim (Option-cases s.inject_table_id) [
  | inl free ↦
      let (list, is_list, e) =
        >>=-eq-some (get_elem? s.lists c.list_idx) _ (rw (choose, free) at h) in
      ap (λ c. c.msg_idx) (sym (some_injective e))
  | inr (t, there) ↦ ap (λ c. c.msg_idx) (sym (some_injective (rw (choose, there) at h)))
]

-- The scheduled part leaves the tables and messages, and sends what is allowed.
abbrev Keeps : Scheduler → Scheduler × Cursor × List Action → Type 0
Keeps s (s', c, out) =
    (s'.tables ≡ s.tables) × (s'.messages ≡ s.messages) × All (IsAllowed s.tables s.messages) out

next_table-Keeps :
    (s : Scheduler) (c : Cursor) (r : Scheduler × Cursor × List Action)
    → next_table s c ≡ some r
    → Keeps s r
unfolding next_table
next_table-Keeps s c r h =
    let s1 = (restore s (record c { msg_idx = some 0 })).0 in
    let (c', chosen, h1) =
      >>=-eq-some (choose s1 (restore s (record c { msg_idx = some 0 })).1) _ h in
    let (id, at, h2) = >>=-eq-some (scheduled_id s1 c') _ h1 in
    let begins : c'.msg_idx ≡ some 0 =
      choose-msg_idx s1 (restore s (record c { msg_idx = some 0 })).1 c' chosen
      ∙ restore-msg_idx s (record c { msg_idx = some 0 }) in
    let (tables, messages) = restore_same s (record c { msg_idx = some 0 }) in
    let out = send_scheduled s1 c' id in
    subst (Keeps s) (some_injective h2) (
      tables,
      messages,
      subst (λ t. All (IsAllowed t s.messages) out) tables
          (subst (λ m. All (IsAllowed s1.tables m) out) messages
            (send_scheduled-IsAllowed s1 c' id begins at)),
    )

schedule-Keeps :
    (s : Scheduler) (c : Cursor) (r : Scheduler × Cursor × List Action)
    → schedule s c ≡ some r
    → Keeps s r
unfolding schedule
schedule-Keeps s c r h = elim (Bool-cases (is_empty s.tables || is_empty s.lists)) [
  | inl nothing ↦ subst (Keeps s) (some_injective (rw (schedule, nothing) at h)) (refl, refl, tt)
  | inr busy ↦
      let (table, is_table, h1) =
        >>=-eq-some (at_index s.tables c.table_idx) _ (rw (schedule, busy) at h) in
      elim (Bool-cases (leb (length table) (next_idx c.msg_idx))) [
        | inl ended ↦
            next_table-Keeps s (record c { msg_idx = some (next_idx c.msg_idx) }) r (rw ended at h1)
        | inr going ↦ subst (Keeps s) (some_injective (rw going at h1)) (refl, refl, tt)
      ]
]

tick_message-IsAllowed :
    (period : ℕ) (tables : List (List Eid)) (m : Message) (messages : List Message)
    → All (IsAllowed tables (m ∷ messages)) (tick_message period m).1
unfolding tick_message
tick_message-IsAllowed period tables m messages = elim (Bool-cases (ltb 0 m.interval)) [
  | inl periodic ↦ elim (Bool-cases (leb m.interval (m.elapsed + period))) [
    | inl due ↦ rw (tick_message, periodic, due) (ground (arith, eid_eq_self m.id), tt)
    | inr early ↦ rw (tick_message, periodic, early) tt
  ]
  | inr not_periodic ↦ rw (tick_message, not_periodic) tt
]

-- What is allowed by some messages is allowed by more.
IsAllowed-more :
    (tables : List (List Eid)) (m : Message) (messages : List Message) (a : Action)
    → IsAllowed tables messages a
    → IsAllowed tables (m ∷ messages) a
IsAllowed-more tables m messages (sent bytes id) h = ground arith
IsAllowed-more tables m messages (called i j k) h = tt

tick_messages-IsAllowed :
    (period : ℕ) (tables : List (List Eid)) (messages : List Message)
    → All (IsAllowed tables messages) (tick_messages period messages).1
unfolding tick_messages
tick_messages-IsAllowed period tables [] = tt
tick_messages-IsAllowed period tables (m ∷ messages) =
    All-append (IsAllowed tables (m ∷ messages)) (tick_message period m).1
      (tick_messages period messages).1 (tick_message-IsAllowed period tables m messages)
      (All-map (IsAllowed tables messages) (IsAllowed tables (m ∷ messages))
        (tick_messages period messages).1 (IsAllowed-more tables m messages)
        (tick_messages-IsAllowed period tables messages))

open_tick-IsAllowed :
    (s : Scheduler) (c : Cursor) (r : Scheduler × Cursor × List Action)
    → open_tick s c ≡ some r
    → All (IsAllowed s.tables s.messages) r.2
unfolding open_tick
open_tick-IsAllowed s c r h =
    let (r1, e, h1) = >>=-eq-some (schedule s c) _ h in
    let (tables, messages, scheduled) = schedule-Keeps s c r1 e in
    let periodic = tick_messages-IsAllowed r1.0.scheduler_period s.tables r1.0.messages in
    subst (λ (q : Scheduler × Cursor × List Action). All (IsAllowed s.tables s.messages) q.2)
      (some_injective h1)
      (All-append (IsAllowed s.tables s.messages) r1.2
        (tick_messages r1.0.scheduler_period r1.0.messages).1 scheduled
        (subst
          (λ m. All (IsAllowed s.tables m) (tick_messages r1.0.scheduler_period r1.0.messages).1)
          messages periodic))

tick-IsAllowed :
    (s : Scheduler) (c : Cursor) (r : Scheduler × Cursor × List Action)
    → tick s c ≡ some r
    → All (IsAllowed s.tables s.messages) r.2
unfolding tick
tick-IsAllowed s c r h = elim (Bool-cases s.is_open) [
  | inl is_open ↦ open_tick-IsAllowed s c r (sym (by_open is_open) ∙ h)
  | inr shut ↦
      subst (λ (q : Scheduler × Cursor × List Action). All (IsAllowed s.tables s.messages) q.2)
        (some_injective (sym (by_open shut) ∙ h)) tt
]
  where
    by_open :
        {b : Bool} → s.is_open ≡ b → tick s c ≡ (if not b then some (s, c, []) else open_tick s c)
    by_open e = ap (λ b. if not b then some (s, c, []) else open_tick s c) e

-- A message that a run of the timer's callback sends has the identifier that is the first of a table,
-- or that of a message with an interval. So no other message of a table is ever sent by the schedule.
pub timer_callback-IsAllowed :
    (s : Scheduler) (c : Cursor) (r : Scheduler × Cursor × List Action)
    → timer_callback s c ≡ some r
    → All (IsAllowed s.tables s.messages) r.2
unfolding timer_callback
timer_callback-IsAllowed s c r h = elim (Bool-cases s.scheduler_reset) [
  | inl reset ↦
      tick-IsAllowed (record s { scheduler_reset = false }) startup r (sym (by_reset reset) ∙ h)
  | inr going ↦ tick-IsAllowed s c r (sym (by_reset going) ∙ h)
]
  where
    by_reset :
        {b : Bool}
        → s.scheduler_reset ≡ b
        → timer_callback s c
          ≡ (if b then tick (record s { scheduler_reset = false }) startup else tick s c)
    by_reset e =
        ap (λ b. if b then tick (record s { scheduler_reset = false }) startup else tick s c) e
