-- ===== src/Layer/Stats/Tests.antt =====
-- The statistics of layer.h at a concrete run.
use decom.Base.{◌≡◌, true, false, List, [], ◌∷◌}
use decom.Layer.{eid_any}
use decom.Layer.Stats.{Event, sent, heard, run, stats_clear, run-totals}

-- A message that is sent, one that is refused, and one that is heard.
abbrev calls : List Event
calls =
    sent true (9 ∷ 1 ∷ 2 ∷ []) (1 ∷ 2 ∷ []) eid_any false
    ∷ sent false [] (3 ∷ []) eid_any false
    ∷ heard true (4 ∷ []) eid_any false
    ∷ []

run-totals_example :
    ((run stats_clear calls).bytes_out ≡ 3)
    × ((run stats_clear calls).bytes_in ≡ 1)
    × ((run stats_clear calls).errors_out ≡ 1)
run-totals_example = run-totals calls
