-- ===== src/Bridge/Gateway.antt =====
-- dev_bridge.h and dev_echo.h over prot_slip.h: what a device on one SLIP layer makes another one send.
use decom.Base.{ℕ, ◌≡◌, ◌≢◌, refl, ap, sym, ◌∙◌, Bool, true, false, List, [], ◌∷◌, ◌++◌, All}
use decom.Layer.{Eid, eid_any, Effect, to_lower, to_upper, indicate, close_lower}
use decom.Slip.{Slip, rcv_idle, send, receive}
use decom.Slip.Frame.{wire, frame, send-frame}
use decom.Slip.RoundTrip.{at_state, send_packets, deliver, send_packets-receive}
use decom.Bridge as Bridge
use decom.Echo as Echo

-- What a SLIP layer does with the calls of its upper layer.
abbrev pub hand_down : Slip → List Effect → Slip × List Effect
hand_down t [] = (t, [])
hand_down t (to_lower bytes id more ∷ calls) =
    let (t', ok, out) = send true t bytes id more in
    let (t'', out') = hand_down t' calls in (t'', out ++ out')
hand_down t (to_upper bytes id more ∷ calls) = hand_down t calls
hand_down t (indicate code id ∷ calls) = hand_down t calls
hand_down t (close_lower id ∷ calls) = hand_down t calls

-- A device handles what a layer below it hands up, and the SLIP layer `t` what the device hands down.
abbrev pub relay :
    (device : List ℕ → Eid → Bool → List Effect) → Slip → List Effect → Slip × List Effect
relay device t [] = (t, [])
relay device t (to_upper bytes id more ∷ heard) =
    let (t', out) = hand_down t (device bytes id more) in
    let (t'', out') = relay device t' heard in (t'', out ++ out')
relay device t (to_lower bytes id more ∷ heard) = relay device t heard
relay device t (indicate code id ∷ heard) = relay device t heard
relay device t (close_lower id ∷ heard) = relay device t heard

-- The frames of packets.
abbrev frames : List (List ℕ) → List ℕ
frames [] = []
frames (packet ∷ packets) = frame packet ++ frames packets

wire-send_packets :
    (packets : List (List ℕ)) (s : Slip) (id : Eid)
    → s.is_open ≡ true
    → s.tx_msg ≡ []
    → wire (send_packets s packets id).1 ≡ frames packets
wire-send_packets [] s id o e = refl
wire-send_packets (packet ∷ packets) s id o e =
    rw (send-frame true s packet id o e)
      (ap (λ l. frame packet ++ l) (wire-send_packets packets s id o e))

hand_down-frame :
    (t : Slip) (packet : List ℕ) (id : Eid)
    → t.is_open ≡ true
    → t.tx_msg ≡ []
    → hand_down t (to_lower packet id false ∷ []) ≡ (t, to_lower (frame packet) id false ∷ [])
hand_down-frame t packet id o e = rw (send-frame true t packet id o e) refl

-- The rest of `relay`.
abbrev and_relay :
    (device : List ℕ → Eid → Bool → List Effect)
    → List Effect
    → Slip × List Effect
    → Slip × List Effect
and_relay device heard (t', out) = let (t'', out') = relay device t' heard in (t'', out ++ out')

-- A device that hands every message down once, as it is.
relay-deliver :
    (device : List ℕ → Eid → Bool → List Effect)
    → ((bytes : List ℕ) (id : Eid) (more : Bool)
        → device bytes id more ≡ to_lower bytes id more ∷ [])
    → (packets : List (List ℕ)) (t : Slip) → t.is_open ≡ true
    → t.tx_msg ≡ []
    → ((relay device t (deliver packets)).0 ≡ t)
      × (wire (relay device t (deliver packets)).1 ≡ frames packets)
relay-deliver device hands [] t o e = (refl, refl)
relay-deliver device hands (packet ∷ packets) t o e =
    let rest = relay-deliver device hands packets t o e in
    let one : relay device t (deliver (packet ∷ packets))
        ≡ and_relay device (deliver packets) (t, to_lower (frame packet) eid_any false ∷ []) =
      ap (and_relay device (deliver packets))
        (ap (hand_down t) (hands packet eid_any false) ∙ hand_down-frame t packet eid_any o e) in
    (ap (λ q. q.0) one ∙ rest.0, ap (λ q. wire q.1) one ∙ ap (λ l. frame packet ++ l) rest.1)

module _ (packets : List (List ℕ)) (s t : Slip) (id : Eid) (tx : List ℕ)
    (sender_open : s.is_open ≡ true) (sender_free : s.tx_msg ≡ []) (open_too : t.is_open ≡ true)
    (free_too : t.tx_msg ≡ []) (some_bytes : All (λ p. p ≢ []) packets) where
  relay-stream :
      (device : List ℕ → Eid → Bool → List Effect)
      → ((bytes : List ℕ) (id : Eid) (more : Bool)
          → device bytes id more ≡ to_lower bytes id more ∷ [])
      → (let stream = wire (send_packets s packets id).1 in
          let (r, heard) = receive (at_state rcv_idle [] tx) stream in
          let (t', out) = relay device t heard in (t' ≡ t) × (wire out ≡ stream))
  relay-stream device hands =
      let heard = (send_packets-receive packets s id tx sender_open sender_free some_bytes).1 in
      let relayed = relay-deliver device hands packets t open_too free_too in
      (
        ap (λ q. (relay device t q.1).0) heard ∙ relayed.0,
        ap (λ q. wire (relay device t q.1).1) heard
            ∙ (relayed.1 ∙ sym (wire-send_packets packets s id sender_open sender_free)),
      )

  -- A gateway of two bridges between two SLIP layers: packets that are not empty, sent one after the other
  -- by an open sender with an empty buffer to the one layer, which waits for a packet, leave the other
  -- one, which is open with an empty buffer, as the same stream of bytes.
  pub gateway-stream :
      (let stream = wire (send_packets s packets id).1 in
        let (r, heard) = receive (at_state rcv_idle [] tx) stream in
        let (t', out) = relay (Bridge.receive (Bridge.register_bridge Bridge.init true)) t heard in
        (t' ≡ t) × (wire out ≡ stream))
  unfolding Bridge.receive Bridge.register_bridge
  gateway-stream =
      relay-stream (Bridge.receive (Bridge.register_bridge Bridge.init true))
        (λ bytes id more. refl)

  -- The same stream comes back from an echo device above a SLIP layer.
  pub echo-stream :
      (let stream = wire (send_packets s packets id).1 in
        let (r, heard) = receive (at_state rcv_idle [] tx) stream in
        let (t', out) = relay Echo.receive t heard in (t' ≡ t) × (wire out ≡ stream))
  unfolding Echo.receive
  echo-stream = relay-stream Echo.receive (λ bytes id more. refl)
