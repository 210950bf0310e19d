-- ===== src/Slip.antt =====
-- src/prot/prot_slip.h: SLIP framing after RFC 1055.
-- A message is the sequence of its bytes; the results of the calls of the lower layer are arguments.
pub mod Frame
pub mod RoundTrip
pub mod Resync
mod Tests
use decom.Base.{ℕ, List, [], ◌∷◌, ◌++◌, Bool, true, false, not, ◌==◌, if◌then◌else◌, is_empty, snoc}
use decom.Layer.{Eid, eid_any, Effect, to_lower, to_upper, indicate, close_lower, tx_done}

abbrev pub end_byte : ℕ
end_byte = 0xC0

abbrev pub esc : ℕ
esc = 0xDB

abbrev pub esc_end : ℕ
esc_end = 0xDC

abbrev pub esc_esc : ℕ
esc_esc = 0xDD

-- `rx_state_type`
pub data RxState : Type 0 where
  rcv_idle rcv_data rcv_esc : RxState

pub record Slip : Type 0 where
  pub rx_state : RxState
  pub is_open : Bool
  pub rx_msg : List ℕ
  pub tx_msg : List ℕ

-- The constructor.
abbrev pub init : Slip
init = record { rx_state = rcv_idle; is_open = false; rx_msg = []; tx_msg = [] }

-- `open`: `upper` tells that an upper layer is registered, `lower` is the lower layer's answer.
pub open_layer : (upper lower : Bool) → Slip → Slip × Bool
open_layer upper lower s =
    if not upper then (s, false) else (record s { is_open = lower; rx_state = rcv_idle }, lower)

pub close : Slip → Eid → Slip × List Effect
close s id = (
  record s { is_open = false; rx_msg = []; tx_msg = []; rx_state = rcv_idle },
  close_lower id ∷ [],
)

-- The bytes that one data byte is sent as.
pub stuff_byte : ℕ → List ℕ
stuff_byte it =
    if it == end_byte then esc ∷ esc_end ∷ [] else if it == esc then esc ∷ esc_esc ∷ [] else it ∷ []

-- The loop over the packet.
pub stuff : List ℕ → List ℕ → List ℕ
stuff tx [] = tx
stuff tx (it ∷ packet) = stuff (tx ++ stuff_byte it) packet

-- `send`: `lower` is the answer of the lower layer, if it is asked.
pub send : (lower : Bool) → Slip → List ℕ → Eid → (more : Bool) → Slip × Bool × List Effect
send lower s packet id more =
    if not s.is_open
    then (s, false, [])
    else let tx = stuff (if is_empty s.tx_msg then end_byte ∷ s.tx_msg else s.tx_msg) packet in
      if not more
      then (record s { tx_msg = [] }, lower, to_lower (snoc tx end_byte) id false ∷ [])
      else (record s { tx_msg = tx }, true, indicate tx_done id ∷ [])

-- One byte in state RCV_DATA.
pub in_data : Slip → ℕ → Slip × List Effect
in_data s it =
    if it == esc
    then (record s { rx_state = rcv_esc }, [])
    else if it == end_byte
    then (if not (is_empty s.rx_msg)
        then (record s { rx_state = rcv_idle; rx_msg = [] }, to_upper s.rx_msg eid_any false ∷ [])
        else (record s { rx_state = rcv_idle }, []))
    else (record s { rx_msg = snoc s.rx_msg it }, [])

-- One byte in state RCV_ESC.
pub in_esc : Slip → ℕ → Slip × List Effect
in_esc s it =
    if it == esc_end
    then (record s { rx_msg = snoc s.rx_msg end_byte; rx_state = rcv_data }, [])
    else if it == esc_esc
    then (record s { rx_msg = snoc s.rx_msg esc; rx_state = rcv_data }, [])
    else (record s { rx_msg = []; rx_state = rcv_idle }, [])

pub rx_byte : RxState → Slip → ℕ → Slip × List Effect
rx_byte rcv_idle s it = if it == end_byte then (record s { rx_state = rcv_data }, []) else (s, [])
rx_byte rcv_data s it = in_data s it
rx_byte rcv_esc s it = in_esc s it

-- The loop over the received bytes.
pub rx_loop : Slip → List ℕ → Slip × List Effect
rx_loop s [] = (s, [])
rx_loop s (it ∷ rest) =
    let (s', out) = rx_byte s.rx_state s it in
    let (s'', out') = rx_loop s' rest in (s'', out ++ out')

pub receive : Slip → List ℕ → Slip × List Effect
receive s stream = if not s.is_open then (s, []) else rx_loop s stream
