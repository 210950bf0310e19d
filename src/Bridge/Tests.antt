-- ===== src/Bridge/Tests.antt =====
-- dev_bridge.h and dev_echo.h at concrete packets.
use decom.Base.{ℕ, ◌≡◌, List, [], ◌∷◌, refl, true}
use decom.Layer.{eid_any}
use decom.Slip.{Slip, init, rcv_idle, receive}
use decom.Slip.Frame.{wire}
use decom.Slip.RoundTrip.{at_state, send_packets}
use decom.Bridge as Bridge
use decom.Bridge.Gateway.{relay, gateway-stream}

abbrev opened : Slip
opened = record init { is_open = true }

-- A packet with both special bytes, and one byte.
abbrev packets : List (List ℕ)
packets = (0xC0 ∷ 0xDB ∷ []) ∷ (7 ∷ []) ∷ []

gateway-stream_example :
    (let stream = wire (send_packets opened packets eid_any).1 in
      let (r, heard) = receive (at_state rcv_idle [] []) stream in
      let (t', out) =
        relay (Bridge.receive (Bridge.register_bridge Bridge.init true)) opened heard in
      (t' ≡ opened) × (wire out ≡ stream))
gateway-stream_example =
    gateway-stream packets opened opened eid_any [] refl refl refl refl ((λ e. cc), ((λ e. cc), tt))
