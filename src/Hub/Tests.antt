-- ===== src/Hub/Tests.antt =====
-- The theorems of prot_hub.h at concrete layers.
use decom.Base.{ℕ, List, [], ◌∷◌, true, false, ◌≡◌, ◌≢◌, refl, some, arith, length, ap}
use decom.Layer.{eid_any, eid_of_port, eid_eq, is_any}
use decom.Hub.Dispatch.{UpperLayer, takes, receive}
use decom.Hub.Receive.{takers, shares, receive-takers}

abbrev any_layer : UpperLayer
any_layer = record { layer = 0; id = eid_any; include = true }

abbrev port_layer : UpperLayer
port_layer = record { layer = 1; id = eid_of_port 80; include = true }

abbrev other_layer : UpperLayer
other_layer = record { layer = 2; id = eid_of_port 81; include = true }

abbrev layers : List UpperLayer
layers = other_layer ∷ port_layer ∷ any_layer ∷ []

abbrev forget : ℕ → List ℕ → List ℕ
forget layer bytes = []

two_take : takers layers (eid_of_port 80) ≡ port_layer ∷ any_layer ∷ []
unfolding takes eid_eq is_any eid_of_port
two_take = refl

someone : takers layers (eid_of_port 80) ≢ []
someone none_take = omega (arith, ap length two_take, ap length none_take)

no_one : takers (other_layer ∷ []) (eid_of_port 80) ≡ []
unfolding takes eid_eq is_any eid_of_port
no_one = refl

receive-takers_example :
    receive forget layers ((1 ∷ []) ∷ (2 ∷ []) ∷ []) (eid_of_port 80) false
    ≡ some (
        shares
          (takers layers (eid_of_port 80))
          layers
          ((1 ∷ []) ∷ (2 ∷ []) ∷ [])
          (eid_of_port 80)
          false)
receive-takers_example =
    receive-takers forget layers ((1 ∷ []) ∷ (2 ∷ []) ∷ []) (eid_of_port 80) false someone
