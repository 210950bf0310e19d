-- ===== src/Delay/Tests.antt =====
-- prot_delay.h at a concrete sequence of events.
use decom.Msg.Pages.{kept}
use decom.Base.{List, [], ◌∷◌, true, false, ◌≡◌, refl, none}
use decom.Layer.{eid_any, eid_of_port, to_lower}
use decom.Delay.{send, timer_callback, set_delay}
use decom.Delay.Buffer.{
  Event, put, adjust, wait, answered, called, run, buffer, holding, run-buffer,
}

abbrev two_puts : List Event
two_puts =
    put ((1 ∷ 2 ∷ []) ∷ (5 ∷ []) ∷ []) (eid_of_port 4) true
    ∷ adjust 9
    ∷ put ((3 ∷ []) ∷ []) eid_any false
    ∷ wait
    ∷ []

two_puts_seen :
    run (holding none 0 5 eid_any false) two_puts
    ≡ answered true ∷ answered false ∷ called (to_lower (1 ∷ 2 ∷ []) (eid_of_port 4) true) ∷ []
unfolding kept send timer_callback set_delay
two_puts_seen = refl

run-buffer_example : run (holding none 0 5 eid_any false) two_puts ≡ buffer none two_puts
unfolding kept
run-buffer_example = run-buffer two_puts none 0 5 eid_any false tt (refl, (refl, tt))
