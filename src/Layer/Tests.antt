-- ===== src/Layer/Tests.antt =====
-- The theorems on the order of identifiers at concrete ones.
use decom.Base.{none, some, List, [], ◌∷◌, ◌+◌, ◌≡◌, true, refl}
use decom.Layer.{Eid, eid_any, eid_of_port, eid_lt}
use decom.Layer.Stack.{
  Stack, construct_communicator, receive_path, send_path, Change, build, destroy, run, shape,
}
use decom.Layer.Changes.{run-paths}

abbrev far : Eid
far = record { addr0 = 7; addr1 = 1; port = 3 }

any_first : eid_lt eid_any (eid_of_port 80) ≡ true
unfolding eid_lt eid_of_port
any_first = refl

port_first : eid_lt (eid_of_port 80) far ≡ true
unfolding eid_lt eid_of_port
port_first = refl

abbrev no_layers : Stack
no_layers = record { lower_ = λ layer. none; upper_ = λ layer. none }

-- Two layers on a communicator, a third one between the communicator and them, which goes away.
abbrev changes : List Change
changes = build 1 0 ∷ build 2 1 ∷ build 3 0 ∷ destroy 1 ∷ []

changes-shape : shape (0 ∷ []) changes ≡ 0 ∷ 3 ∷ 2 ∷ []
changes-shape = refl

run-paths_example :
    (receive_path (3 + 0) (run (construct_communicator no_layers 0) changes) (some 0)
      ≡ 0 ∷ 3 ∷ 2 ∷ [])
    × (send_path (3 + 0) (run (construct_communicator no_layers 0) changes) (some 2)
        ≡ 2 ∷ 3 ∷ 0 ∷ [])
run-paths_example = run-paths no_layers 0 changes 0 refl
