-- ===== src/Scheduler/Tests.antt =====
-- prot_scheduler.cpp at a concrete configuration.
use decom.Base.{
  pos, negsuc, false, arith, some, none, ◌>>=◌, All, ◌*◌, suc, List, [], ◌∷◌, ◌++◌, true, ◌≡◌, refl,
}
use decom.Layer.{eid_of_port, eid_eq}
use decom.Scheduler.{
  Scheduler, Message, init, add_message, add_table, push_table, inject_table, push_at, grow,
  has_message,
}
use decom.Scheduler.Timer.{
  Cursor, Action, sent, called, startup, timer_callback, open_tick, tick, tick_message,
  tick_messages, schedule, next_table, restore, choose, scheduled_id, send_scheduled, find_message,
}
use decom.Scheduler.Periodic.{elapsed_to}
use decom.Scheduler.Service.{AreOthers, service, rounds, sends_of, rounds-sends}
use decom.Scheduler.Heads.{IsAllowed, timer_callback-IsAllowed}
use decom.Scheduler.Sound.{Setup, message, table, Sound, configure}

-- One table in one list; the last table call names a table that does not exist.
abbrev calls : List Setup
calls =
    message 0 (eid_of_port 3) (pos 0)
    ∷ message 0 (eid_of_port 4) (pos 0)
    ∷ table (pos 0) (pos 0)
    ∷ table (pos 1) (pos 0)
    ∷ []

calls_lists : configure (init 0 true) calls >>= (λ s. some s.lists) ≡ some ((pos 0 ∷ []) ∷ [])
unfolding init add_message add_table push_table push_at grow has_message eid_eq eid_of_port
calls_lists = refl

-- A table behind the last one is accepted for injection.
inject_behind : (inject_table (init 0 true) (pos 0)).1 ≡ true
unfolding inject_table init
inject_behind = refl

-- A list takes a table with a negative number.
negative_table :
    configure (init 0 true) (table (negsuc 0) (pos 0) ∷ []) >>= (λ s. some s.lists)
    ≡ some ((negsuc 0 ∷ []) ∷ [])
unfolding init add_table push_table push_at grow
negative_table = refl

-- Every 30 ms in rounds of 10 ms.
abbrev heartbeat : Message
heartbeat = record { id = eid_of_port 9; data_ = 1 ∷ []; interval = 30; elapsed = 0 }

abbrev other : Message
other = record { id = eid_of_port 8; data_ = 2 ∷ []; interval = 20; elapsed = 10 }

other_id : AreOthers (eid_of_port 9) (other ∷ [])
unfolding eid_eq eid_of_port
other_id = (refl, tt)

rounds-sends_example :
    (s' : Scheduler) × (c' : Cursor) × (out : List Action) × (rounds
        (4 * suc 2)
        (service (init 10 true) true ((other ∷ []) ++ (elapsed_to 0 heartbeat ∷ [])))
        startup
      ≡ some (s', c', out))
    × (sends_of (eid_of_port 9) out ≡ 4)
unfolding init
rounds-sends_example =
    rounds-sends (init 10 true) true (other ∷ []) [] 2 4 heartbeat startup refl other_id tt
      (omega arith) (omega arith) (omega arith)

-- An open scheduler with one table of two messages, at the end of the table.
abbrev playing : Scheduler
playing = record {
  is_open = true;
  scheduler_period = 10;
  scheduler_reset = false;
  messages =
      record { id = eid_of_port 3; data_ = 33 ∷ []; interval = 0; elapsed = 0 }
      ∷ record { id = eid_of_port 4; data_ = 44 ∷ []; interval = 0; elapsed = 0 }
      ∷ [];
  tables = (eid_of_port 3 ∷ eid_of_port 4 ∷ []) ∷ [];
  lists = (pos 0 ∷ []) ∷ [];
  inject_table_id = none;
  next_list_id = pos 0;
  timer = some 10;
  has_callback = true;
}

abbrev at_end : Cursor
at_end = record startup { msg_idx = some 1 }

playing_sends :
    timer_callback playing at_end
    ≡ some (
      playing,
      record at_end { msg_idx = some 0 },
      sent (33 ∷ []) (eid_of_port 3) ∷ called (some 0) (pos 0) 0 ∷ [],
    )
unfolding timer_callback tick open_tick tick_messages tick_message schedule next_table restore
    choose scheduled_id send_scheduled find_message eid_eq eid_of_port
playing_sends = refl

timer_callback-IsAllowed_example :
    All
      (IsAllowed playing.tables playing.messages)
      (sent (33 ∷ []) (eid_of_port 3) ∷ called (some 0) (pos 0) 0 ∷ [])
timer_callback-IsAllowed_example =
    timer_callback-IsAllowed playing at_end
      (
        playing,
        record at_end { msg_idx = some 0 },
        sent (33 ∷ []) (eid_of_port 3) ∷ called (some 0) (pos 0) 0 ∷ [],
      )
      playing_sends

abbrev injecting : Scheduler
injecting = record playing { inject_table_id = some (pos 1) }
