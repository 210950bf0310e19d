-- ===== src/Slip/Tests.antt =====
-- Runs of prot_slip.h, and its theorems at concrete packets.
use decom.Base.{ℕ, List, [], ◌∷◌, true, false, ◌≡◌, refl}
use decom.Layer.{eid_any}
use decom.Slip.{Slip, init, rcv_idle, rcv_data, end_byte, stuff_byte, stuff, send, receive}
use decom.Slip.Frame.{wire}
use decom.Slip.RoundTrip.{at_state, send_packets, deliver, send_packets-receive}
use decom.Slip.Resync.{stray_end_loses_packets}

abbrev opened : Slip
opened = record init { is_open = true }

-- Packets that hold both special bytes.
abbrev two_packets : List (List ℕ)
two_packets = (1 ∷ 0xC0 ∷ 2 ∷ []) ∷ (0xDB ∷ 0xDC ∷ []) ∷ []

wire_bytes :
    wire (send_packets opened two_packets eid_any).1
    ≡ 0xC0 ∷ 1 ∷ 0xDB ∷ 0xDC ∷ 2 ∷ 0xC0 ∷ 0xC0 ∷ 0xDB ∷ 0xDD ∷ 0xDC ∷ 0xC0 ∷ []
unfolding send stuff stuff_byte
wire_bytes = refl

not_open : (send true init (1 ∷ []) eid_any false).1 ≡ false
unfolding send stuff stuff_byte
not_open = refl

send_packets-receive_example :
    ((send_packets opened two_packets eid_any).0 ≡ opened)
    × (receive (at_state rcv_idle [] []) (wire (send_packets opened two_packets eid_any).1)
        ≡ (at_state rcv_idle [] [], deliver two_packets))
send_packets-receive_example =
    send_packets-receive two_packets opened eid_any [] refl refl ((λ e. cc), ((λ e. cc), tt))

stray_end_loses_packets_example :
    receive (at_state rcv_idle [] []) (end_byte ∷ wire (send_packets opened two_packets eid_any).1)
    ≡ (at_state rcv_data [] [], [])
stray_end_loses_packets_example = stray_end_loses_packets two_packets opened eid_any [] refl refl
