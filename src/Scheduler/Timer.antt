-- ===== src/Scheduler/Timer.antt =====
-- prot_scheduler.cpp: `timer_callback`. It has no result where the code indexes a vector behind its end.
use decom.Base.{
  ℕ, zero, suc, ℤ, pos, negsuc, at_index, ◌+◌, ◌%◌, ◌^◌, Bool, false, not, ◌&&◌, ◌||◌, Option, none,
  some, List, [], ◌∷◌, ◌++◌, ltb, leb, length, is_empty, get_elem?, ◌>>=◌, if◌then◌else◌,
}
use decom.Layer.{Eid, eid_eq}
use decom.Scheduler.{Scheduler, Message, injected}

-- The static variables of `timer_callback`, which all schedulers share; `none` stands for -1.
pub record Cursor : Type 0 where
  pub msg_idx : Option ℕ
  pub table_idx : ℤ
  pub list_idx : ℕ
  pub table_idx_last : Option ℤ

abbrev pub startup : Cursor
startup = record { msg_idx = none; table_idx = pos 0; list_idx = 0; table_idx_last = none }

-- What the callback does: it sends a message to the lower layer, or calls the user's callback.
pub data Action : Type 0 where
  sent : List ℕ → Eid → Action
  called : (msg_idx : Option ℕ) → (table_idx : ℤ) → (list_idx : ℕ) → Action

-- `++msg_idx`
abbrev pub next_idx : Option ℕ → ℕ
next_idx none = 0
next_idx (some i) = suc i

-- `table_idx >= static_cast<std::int16_t>(size)`
abbrev pub list_ended : (size table_idx : ℕ) → Bool
list_ended size table_idx = leb (2 ^ 15) (size % 2 ^ 16) || leb (size % 2 ^ 16) table_idx

-- `++table_idx`, and the return to the list's begin; -1 comes to 0.
abbrev pub next_table_idx : (size : ℕ) → ℤ → ℤ
next_table_idx size (pos i) = if list_ended size (suc i) then pos 0 else pos (suc i)
next_table_idx size (negsuc zero) = pos 0
next_table_idx size (negsuc (suc n)) =
    if leb (2 ^ 15) (size % 2 ^ 16) && leb (size % 2 ^ 16 + suc n) (2 ^ 16) then pos 0 else negsuc n

-- The return from an injected table, and the choice of the next table.
unfoldable pub restore : Scheduler → Cursor → Scheduler × Cursor
restore s c = elim c.table_idx_last [
  | none ↦ (s, c)
  | some last ↦
      (record s { inject_table_id = none }, record c { table_idx = last; table_idx_last = none })
]

unfoldable pub choose : Scheduler → Cursor → Option Cursor
choose s c = elim s.inject_table_id [
  | some table ↦ some (record c { table_idx_last = injected c.table_idx; table_idx = table })
  | none ↦ get_elem? s.lists c.list_idx >>= λ list.
      some (record c { table_idx = next_table_idx (length list) c.table_idx })
]

-- `messages_.find(id)`
unfoldable pub find_message : List Message → Eid → Option Message
find_message [] id = none
find_message (m ∷ messages) id =
    let rest = find_message messages id in if eid_eq m.id id then some m else rest

-- `tables_[lists_[list_idx][table_idx]][msg_idx]`
unfoldable pub scheduled_id : Scheduler → Cursor → Option Eid
scheduled_id s c = do
  list ← get_elem? s.lists c.list_idx
  t ← at_index list c.table_idx
  table ← at_index s.tables t
  i ← c.msg_idx
  get_elem? table i

-- The message of an identifier goes out.
unfoldable pub send_scheduled : Scheduler → Cursor → Eid → List Action
send_scheduled s c id = elim (find_message s.messages id) [
  | none ↦ []
  | some m ↦
      sent m.data_ m.id
      ∷ (if s.has_callback then called c.msg_idx c.table_idx c.list_idx ∷ [] else [])
]

-- The end of a table.
unfoldable pub next_table : Scheduler → Cursor → Option (Scheduler × Cursor × List Action)
next_table s c = do
  let (s', c') = restore s (record c { msg_idx = some 0 })
  c'' ← choose s' c'
  id ← scheduled_id s' c''
  some (s', c'', send_scheduled s' c'' id)

-- The calculation of the next message.
unfoldable pub schedule : Scheduler → Cursor → Option (Scheduler × Cursor × List Action)
schedule s c =
    let c' = record c { msg_idx = some (next_idx c.msg_idx) } in
    let ended = next_table s c' in
    if is_empty s.tables || is_empty s.lists then some (s, c, []) else (do
      table ← at_index s.tables c.table_idx
      if leb (length table) (next_idx c.msg_idx) then ended else some (s, c', []))

-- One message in the loop over the periodic messages.
unfoldable pub tick_message : (period : ℕ) → Message → Message × List Action
tick_message period m =
    if ltb 0 m.interval
    then if leb m.interval (m.elapsed + period)
      then (record m { elapsed = 0 }, sent m.data_ m.id ∷ [])
      else (record m { elapsed = m.elapsed + period }, [])
    else (m, [])

unfoldable pub tick_messages : (period : ℕ) → List Message → List Message × List Action
tick_messages period [] = ([], [])
tick_messages period (m ∷ messages) =
    let (m', out) = tick_message period m in
    let (messages', out') = tick_messages period messages in (m' ∷ messages', out ++ out')

-- The callback of an open layer, behind the reset of the statics.
unfoldable pub open_tick : Scheduler → Cursor → Option (Scheduler × Cursor × List Action)
open_tick s c = do
  (s', c', out) ← schedule s c
  let (messages, out') = tick_messages s'.scheduler_period s'.messages
  some (record s' { messages = messages }, c', out ++ out')

unfoldable pub tick : Scheduler → Cursor → Option (Scheduler × Cursor × List Action)
tick s c = if not s.is_open then some (s, c, []) else open_tick s c

unfoldable pub timer_callback : Scheduler → Cursor → Option (Scheduler × Cursor × List Action)
timer_callback s c =
    if s.scheduler_reset then tick (record s { scheduler_reset = false }) startup else tick s c
