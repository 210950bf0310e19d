-- ===== src/Loopback/Tests.antt =====
-- com_loopback.h at a concrete run.
use decom.Base.{List, [], ◌∷◌, ◌++◌, true, false, ◌≡◌, refl, length}
use decom.Layer.{eid_any}
use decom.Loopback.{init, open_layer, send, register_loopback, worker, work}
use decom.Loopback.Order.{Event, opened, put, registered, round, run, accepted, delivers, run-queue}

-- Two messages are sent before the worker comes to its round.
abbrev events : List Event
events =
    registered
    ∷ opened true
    ∷ put ((1 ∷ []) ∷ (3 ∷ []) ∷ []) eid_any false
    ∷ put ((2 ∷ []) ∷ []) eid_any false
    ∷ round
    ∷ round
    ∷ []

run-queue_example :
    (run init events).1 ++ delivers (run init events).0.send_queue
    ≡ delivers (init.send_queue ++ accepted init events)
run-queue_example = run-queue init events

-- The second one waits, however many rounds there are.
one_waits : length (run init events).0.send_queue ≡ 1
unfolding init open_layer send register_loopback worker work
one_waits = refl
