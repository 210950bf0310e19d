-- ===== src/Scheduler/Sound.antt =====
-- prot_scheduler.cpp: which tables and lists a configuration refers to.
use decom.Base.{ℕ, ℤ, pos, negsuc, Bool, Option, none, some, ◌>>=◌, ◌<◌, List, [], ◌∷◌, length, All}
use decom.Layer.{Eid}
use decom.Scheduler.{
  Scheduler, add_message, add_table, activate_list, inject_table, set_periodic_message,
}

-- Every list names tables that exist.
abbrev pub IsName : ℕ → ℤ → Type 0
IsName n (pos t) = t < n
IsName n (negsuc t) = ⊥

abbrev pub Names : ℕ → List (List ℤ) → Type 0
Names n lists = All (λ l. All (IsName n) l) lists

-- The calls that configure the scheduler.
pub data Setup : Type 0 where
  message : (memory : ℕ) → Eid → (table_id : ℤ) → Setup
  table : (table_id list_id : ℤ) → Setup
  activate : (list_id : ℤ) → Setup
  inject : (table_id : ℤ) → Setup
  periodic : Eid → (interval : ℕ) → Setup

abbrev state : Option (Scheduler × Bool) → Option Scheduler
state none = none
state (some (s, ok)) = some s

abbrev pub apply : Scheduler → Setup → Option Scheduler
apply s (message memory id table_id) = state (add_message memory s id table_id)
apply s (table table_id list_id) = state (add_table s table_id list_id)
apply s (activate list_id) = some (activate_list s list_id).0
apply s (inject table_id) = some (inject_table s table_id).0
apply s (periodic id interval) = some (set_periodic_message s id interval).0

abbrev pub configure : Scheduler → List Setup → Option Scheduler
configure s [] = some s
configure s (call ∷ calls) = apply s call >>= λ s'. configure s' calls

-- The tables and lists that are written to, and the tables that are named, have numbers that are not
-- negative; those that are activated or injected may have any.
abbrev pub IsNatural : ℤ → Type 0
IsNatural (pos i) = Unit {0}
IsNatural (negsuc n) = ⊥

abbrev pub IsProper : Setup → Type 0
IsProper (message memory id table_id) = IsNatural table_id
IsProper (table table_id list_id) = IsNatural table_id × IsNatural list_id
IsProper (activate list_id) = Unit {0}
IsProper (inject table_id) = Unit {0}
IsProper (periodic id interval) = Unit {0}

-- There is a result, whose lists name tables that exist.
abbrev pub Sound : Option Scheduler → Type 0
Sound none = ⊥
Sound (some s) = Names (length s.tables) s.lists
