-- ===== src/Slip/Resync.antt =====
-- A receiver of prot_slip.h that is one delimiter out of step.
use decom.Base.{ℕ, List, [], ◌∷◌, ◌++◌, true, ◌≡◌, refl, ◌≢◌, All, ==_ne, append_assoc, ◌∙◌}
use decom.Layer.{Eid}
use decom.Slip.{Slip, rcv_idle, rcv_data, end_byte, in_data, rx_byte, rx_loop, receive}
use decom.Slip.Frame.{wire, escape, frame, escape_no_end, send-frame}
use decom.Slip.RoundTrip.{at_state, send_packets}

-- In state RCV_IDLE all bytes up to the next delimiter are dropped.
rx_idle :
    (xs rest m tx : List ℕ)
    → All (λ b. b ≢ end_byte) xs
    → rx_loop (at_state rcv_idle m tx) (xs ++ rest) ≡ rx_loop (at_state rcv_idle m tx) rest
unfolding rx_loop rx_byte
rx_idle [] rest m tx h = refl
rx_idle (x ∷ xs) rest m tx h = rw (==_ne x end_byte h.0) (rx_idle xs rest m tx h.1)

rx_end_empty :
    (rest tx : List ℕ)
    → rx_loop (at_state rcv_data [] tx) (end_byte ∷ rest) ≡ rx_loop (at_state rcv_idle [] tx) rest
unfolding rx_loop rx_byte in_data
rx_end_empty rest tx = refl

rx_opens :
    (rest tx : List ℕ)
    → rx_loop (at_state rcv_idle [] tx) (end_byte ∷ rest) ≡ rx_loop (at_state rcv_data [] tx) rest
unfolding rx_loop rx_byte
rx_opens rest tx = refl

rx_nil : (tx : List ℕ) → rx_loop (at_state rcv_data [] tx) [] ≡ (at_state rcv_data [] tx, [])
unfolding rx_loop
rx_nil tx = refl

-- A frame that meets the receiver in state RCV_DATA with an empty buffer is lost: its first
-- delimiter closes an empty packet, its data are skipped, and its last delimiter opens a packet.
pub rx_frame_lost :
    (packet rest tx : List ℕ)
    → rx_loop (at_state rcv_data [] tx) (frame packet ++ rest)
      ≡ rx_loop (at_state rcv_data [] tx) rest
rx_frame_lost packet rest tx = rw append_assoc (
    rx_end_empty (escape packet ++ (end_byte ∷ rest)) tx
    ∙ rx_idle (escape packet) (end_byte ∷ rest) [] tx (escape_no_end packet)
    ∙ rx_opens rest tx)

-- One stray delimiter puts the receiver out of step for good: after it, of all the packets that an
-- open sender with an empty buffer sends, whatever their number and contents, none is delivered.
pub stray_end_loses_packets :
    (packets : List (List ℕ)) (s : Slip) (id : Eid) (tx : List ℕ)
    → s.is_open ≡ true
    → s.tx_msg ≡ []
    → receive (at_state rcv_idle [] tx) (end_byte ∷ wire (send_packets s packets id).1)
      ≡ (at_state rcv_data [] tx, [])
unfolding receive
stray_end_loses_packets packets s id tx o e =
    rx_opens (wire (send_packets s packets id).1) tx ∙ lost packets
  where
    lost :
        (packets : List (List ℕ))
        → rx_loop (at_state rcv_data [] tx) (wire (send_packets s packets id).1)
          ≡ (at_state rcv_data [] tx, [])
    lost [] = rx_nil tx
    lost (packet ∷ packets) =
        rw (send-frame true s packet id o e)
          (rx_frame_lost packet (wire (send_packets s packets id).1) tx ∙ lost packets)
