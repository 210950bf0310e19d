-- ===== src/ComGeneric/Tests.antt =====
-- com_generic.h at concrete messages.
use decom.Base.{List, [], ◌∷◌, false}
use decom.Layer.{eid_any}
use decom.ComGeneric.Slot.{Event, opened, put, taken}

-- Two messages before the first is read, and a second read.
abbrev events : List Event
events =
    opened eid_any
    ∷ put ((1 ∷ []) ∷ []) eid_any false
    ∷ put ((2 ∷ 3 ∷ []) ∷ (4 ∷ []) ∷ []) eid_any false
    ∷ taken
    ∷ taken
    ∷ []
