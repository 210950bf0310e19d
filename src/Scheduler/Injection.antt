-- ===== src/Scheduler/Injection.antt =====
-- prot_scheduler.cpp: the injection of a table.
use decom.Base.{ℕ, ℤ, pos, ◌≤◌, ◌≡◌, none, some, List, length, get_elem?, get_elem?-none}
use decom.Scheduler.{Scheduler}
use decom.Scheduler.Timer.{Cursor, restore, choose, scheduled_id, next_table}

-- A table is to be injected at the end of a table, and none is being played back. If the current list
-- has not more entries than the number of the table says, the code indexes the list behind its end:
-- the number of the table is used as an index of the list.
pub injection_indexes_list :
    (s : Scheduler) (c : Cursor) (table : ℕ) (list : List ℤ)
    → s.inject_table_id ≡ some (pos table)
    → c.table_idx_last ≡ none
    → get_elem? s.lists c.list_idx ≡ some list
    → length list ≤ table
    → next_table s c ≡ none
unfolding next_table restore choose scheduled_id
injection_indexes_list s c table list inject last entry h =
    simp (last, choose, inject, scheduled_id, entry, get_elem?-none list table h)
