-- ===== src/Scheduler.antt =====
-- src/prot/prot_scheduler.h and src/prot/prot_scheduler.cpp: the scheduler's tables, lists and
-- messages, the timer's callback in Timer. A call has no result where the code indexes a vector out
-- of its range; a message is the sequence of its bytes, one that is to be sent the list of its pages, and
-- a time is in milliseconds.
use decom.Msg.Pages.{Pages, whole, kept}
use decom.Base.{
  ℕ, zero, suc, ◌+◌, Bool, true, false, not, ◌||◌, Option, none, some, List, [], ◌∷◌, ltb, leb,
  ◌==◌, ℤ, pos, negsuc, length, is_empty, if◌then◌else◌, snoc,
}
use decom.Layer.{Eid, eid_eq, eid_lt, Effect, to_lower, close_lower}
pub mod Timer
mod Sound
mod Periodic
mod Service
mod Heads
mod Injection
mod Tests

-- `message_type`
pub record Message : Type 0 where
  pub id : Eid
  pub data_ : List ℕ
  pub interval : ℕ
  pub elapsed : ℕ

-- The data members of class `scheduler`; `inject_table_id` is `none` where the code has -1, and
-- `has_callback` tells that `callback_` is set. The messages are in the order of their identifiers.
pub record Scheduler : Type 0 where
  pub is_open : Bool
  pub scheduler_period : ℕ
  pub scheduler_reset : Bool
  pub messages : List Message
  pub tables : List (List Eid)
  pub lists : List (List ℤ)
  pub inject_table_id : Option ℤ
  pub next_list_id : ℤ
  pub timer : Option ℕ
  pub has_callback : Bool

-- The constructor: `period` and `reset` are what the members that it does not set hold.
unfoldable pub init : (period : ℕ) (reset : Bool) → Scheduler
init period reset = record {
  is_open = false;
  scheduler_period = period;
  scheduler_reset = reset;
  messages = [];
  tables = [];
  lists = [];
  inject_table_id = none;
  next_list_id = pos 0;
  timer = none;
  has_callback = false;
}

-- `open`: `upper` tells that an upper layer is registered, `lower` is the lower layer's answer.
unfoldable pub open_layer : (upper lower : Bool) → Scheduler → Scheduler × Bool
open_layer upper lower s = if not upper then (s, false) else (record s { is_open = lower }, lower)

-- `close`: `stopped` is the timer's answer.
unfoldable pub close : (stopped : Bool) → Scheduler → Eid → Scheduler × List Effect
close stopped s id =
    (record s { is_open = false; timer = if stopped then none else s.timer }, close_lower id ∷ [])

-- `messages_.find(id) != messages_.end()`
unfoldable pub has_message : List Message → Eid → Bool
has_message [] id = false
has_message (m ∷ messages) id = eid_eq m.id id || has_message messages id

-- The write to the message that was found, which is a deep copy.
unfoldable pub set_data : List Message → Eid → List ℕ → List Message
set_data [] id bytes = []
set_data (m ∷ messages) id bytes =
    let rest = set_data messages id bytes in
    if eid_eq m.id id then record m { data_ = bytes } ∷ messages else m ∷ rest

unfoldable pub set_interval : List Message → Eid → (interval : ℕ) → List Message
set_interval [] id interval = []
set_interval (m ∷ messages) id interval =
    let rest = set_interval messages id interval in
    if eid_eq m.id id then record m { interval = interval } ∷ messages else m ∷ rest

unfoldable pub send : (lower : Bool) → Scheduler → Pages → Eid → Scheduler × Bool × List Effect
send lower s data_ id =
    if has_message s.messages id
    then (record s { messages = set_data s.messages id (kept data_) }, true, [])
    else (s, lower, to_lower (whole data_) id false ∷ [])

-- `rows[i].push_back(x)`, where `i` is in range
unfoldable pub push_at {ℓ} : {A : Type ℓ} → ℕ → A → List (List A) → List (List A)
push_at i x [] = []
push_at zero x (row ∷ rows) = snoc row x ∷ rows
push_at (suc i) x (row ∷ rows) = row ∷ push_at i x rows

-- A new empty row, if `i` is the next one.
unfoldable pub grow {ℓ} : {A : Type ℓ} → ℕ → List (List A) → List (List A)
grow i rows = if i == length rows then snoc rows [] else rows

-- A message that is inserted, without data.
abbrev pub new_message : Eid → (interval elapsed : ℕ) → Message
new_message id interval elapsed = record {
  id = id;
  data_ = [];
  interval = interval;
  elapsed = elapsed;
}

-- `messages_.insert` of a message that is not there.
unfoldable pub insert_message : Message → List Message → List Message
insert_message m [] = m ∷ []
insert_message m (x ∷ messages) =
    let rest = insert_message m messages in if eid_lt m.id x.id then m ∷ x ∷ messages else x ∷ rest

-- `add_message`: `memory` is what the time that a new message does not set holds.
unfoldable pub add_message :
    (memory : ℕ) → Scheduler → Eid → (table_id : ℤ) → Option (Scheduler × Bool)
add_message memory s msg_id (negsuc n) = none
add_message memory s msg_id (pos i) =
    if ltb (length s.tables) i
    then some (s, false)
    else some (
      record s {
        tables = push_at i msg_id (grow i s.tables);
        messages =
            if has_message s.messages msg_id
            then s.messages
            else insert_message (new_message msg_id 0 memory) s.messages;
      },
      true,
    )

-- `table_id >= size` and `id > size`, with a signed number
abbrev pub is_behind : (size : ℕ) → ℤ → Bool
is_behind size (pos i) = leb size i
is_behind size (negsuc n) = false

abbrev pub is_far : (size : ℕ) → ℤ → Bool
is_far size (pos i) = ltb size i
is_far size (negsuc n) = false

-- The list that `add_table` adds to.
unfoldable pub push_table : Scheduler → (table_id list_id : ℤ) → Option (Scheduler × Bool)
push_table s table_id (negsuc n) = none
push_table s table_id (pos i) =
    some (record s { lists = push_at i table_id (grow i s.lists) }, true)

unfoldable pub add_table : Scheduler → (table_id list_id : ℤ) → Option (Scheduler × Bool)
add_table s table_id list_id =
    if is_behind (length s.tables) table_id
    then some (s, false)
    else if is_far (length s.lists) list_id
    then some (s, false)
    else push_table s table_id list_id

unfoldable pub activate_list : Scheduler → (list_id : ℤ) → Scheduler × Bool
activate_list s list_id =
    if is_empty s.lists || is_far (length s.lists) list_id
    then (s, false)
    else (record s { next_list_id = list_id }, true)

-- The member `inject_table_id_`: -1 is none.
abbrev pub injected : ℤ → Option ℤ
injected (pos i) = some (pos i)
injected (negsuc zero) = none
injected (negsuc (suc n)) = some (negsuc (suc n))

unfoldable pub inject_table : Scheduler → (table_id : ℤ) → Scheduler × Bool
inject_table s table_id =
    if is_far (length s.tables) table_id then (s, false) else elim s.inject_table_id [
      | none ↦ (record s { inject_table_id = injected table_id }, true)
      | some t ↦ (s, false)
    ]

unfoldable pub set_periodic_message : Scheduler → Eid → (interval : ℕ) → Scheduler × Bool
set_periodic_message s msg_id interval = (
  record s {
    messages =
        if has_message s.messages msg_id
        then set_interval s.messages msg_id interval
        else insert_message (new_message msg_id interval 0) s.messages;
  },
  true,
)

-- `start`: `started` is the timer's answer.
unfoldable pub start : (started : Bool) → Scheduler → (reset : Bool) → Scheduler × Bool
start started s reset = if not s.is_open then (s, false) else (
  record s {
    scheduler_reset = reset;
    timer = if started then some s.scheduler_period else s.timer;
  },
  started,
)

-- `stop`: `stopped` is the timer's answer.
unfoldable pub stop : (stopped : Bool) → Scheduler → Scheduler × Bool
stop stopped s = (record s { timer = if stopped then none else s.timer }, stopped)

unfoldable pub set_scheduler_period : Scheduler → (interval : ℕ) → Scheduler × Bool
set_scheduler_period s interval = (record s { scheduler_period = interval }, true)

unfoldable pub set_scheduler_callback : Scheduler → (given : Bool) → Scheduler
set_scheduler_callback s given = record s { has_callback = given }
