-- ===== src/Xmodem/Bounds.antt =====
-- prot_xmodem.cpp: the offset of the next block stays within the message.
use decom.Msg.Pages.{Pages}
use decom.Base.{
  ℕ, ◌≤◌, ◌≡◌, refl, ap, ◌∙◌, Bool, false, Option, none, some, List, [], ◌∷◌, ltb, length, arith,
  Bool-cases, inl, inr,
}
use decom.Layer.{Eid, Effect}
use decom.Xmodem.Machine.{
  Xmodem, XmodemState, idle, recv_wait, recv, xmit_wait, xmit, xmit_eot, nak, ack, is_single, send,
  send_block, on_ack, on_failure, on_state, on_timer, receive, start, close, timer_rx_func,
}

-- What happens to the layer.
pub data Input : Type 0 where
  heard : List ℕ → Input
  given : Pages → Eid → (more : Bool) → Input
  started : (receive : Bool) → Input
  timed : Input
  closed : Eid → Input

abbrev pub state_of : Option (Xmodem × List Effect) → Option Xmodem
state_of none = none
state_of (some (s, out)) = some s

abbrev pub react : Xmodem → Input → Option Xmodem
react s (heard bytes) = state_of (receive s bytes)
react s (given data_ id more) = some (send s data_ id more).0
react s (started receiving) = some (start s receiving).0
react s timed = some (timer_rx_func s).0
react s (closed id) = some (close s id).0

abbrev pub run : Xmodem → List Input → Option Xmodem
run s [] = some s
run s (i ∷ inputs) = elim (react s i) [ none ↦ none | some s' ↦ run s' inputs ]

abbrev pub IsInside : Xmodem → Type 0
IsInside s = s.tx_offset ≤ length s.tx_buffer

-- A result that has not failed, and stays inside.
abbrev pub Stays : Option Xmodem → Type 0
Stays none = ⊥
Stays (some s) = IsInside s

send_block-Stays : (s : Xmodem) → IsInside s → Stays (state_of (send_block s))
unfolding send_block
send_block-Stays s h = rw (send_block, within) (ground arith)
  where
    within : ltb (length s.tx_buffer) s.tx_offset ≡ false
    within = ground (arith, h)

on_ack-Stays : (s : Xmodem) → IsInside s → Stays (state_of (on_ack s))
unfolding on_ack
on_ack-Stays s h = ground (arith, send_block-Stays s h)

on_failure-Stays : (s : Xmodem) → IsInside s → Stays (state_of (on_failure s))
unfolding on_failure
on_failure-Stays s h = ground arith

on_state-Stays :
    (st : XmodemState) (s : Xmodem) (bytes : List ℕ)
    → IsInside s
    → Stays (state_of (on_state st s bytes))
unfolding on_state
on_state-Stays idle s bytes h = h
on_state-Stays recv_wait s bytes h = h
on_state-Stays recv s bytes h = h
on_state-Stays xmit_wait s bytes h = elim (Bool-cases (is_single bytes nak)) [
  | inl asked ↦ rw asked (send_block-Stays (record s { state = xmit }) h)
  | inr other ↦ rw other h
]
on_state-Stays xmit_eot s bytes h = elim (Bool-cases (is_single bytes ack)) [
  | inl agreed ↦ rw agreed (on_ack-Stays s h)
  | inr other ↦ rw other (on_failure-Stays s h)
]
on_state-Stays xmit s bytes h = elim (Bool-cases (is_single bytes ack)) [
  | inl agreed ↦ rw agreed (on_ack-Stays s h)
  | inr other ↦ rw other (on_failure-Stays s h)
]

on_timer-IsInside : (st : XmodemState) (s : Xmodem) → IsInside s → IsInside (on_timer st s).0
unfolding on_timer
on_timer-IsInside idle s h = h
on_timer-IsInside recv_wait s h = h
on_timer-IsInside recv s h = h
on_timer-IsInside xmit_wait s h = h
on_timer-IsInside xmit_eot s h = h
on_timer-IsInside xmit s h = h

send-IsInside :
    (s : Xmodem) (data_ : Pages) (id : Eid) (more : Bool)
    → IsInside s
    → IsInside (send s data_ id more).0
unfolding send
send-IsInside s data_ id more h = ground arith

start-IsInside : (s : Xmodem) (receiving : Bool) → IsInside s → IsInside (start s receiving).0
unfolding start
start-IsInside s receiving h = ground arith

react-Stays : (s : Xmodem) (i : Input) → IsInside s → Stays (react s i)
unfolding receive timer_rx_func close
react-Stays s (heard bytes) h = on_state-Stays s.state (record s { timer_rx = none }) bytes h
react-Stays s (given data_ id more) h = send-IsInside s data_ id more h
react-Stays s (started receiving) h = start-IsInside s receiving h
react-Stays s timed h = on_timer-IsInside s.state (record s { timer_rx = none }) h
react-Stays s (closed id) h = h

Stays-some : (r : Option Xmodem) → Stays r → (s : Xmodem) × (r ≡ some s) × IsInside s
Stays-some none h = absurd h
Stays-some (some s) h = (s, refl, h)

-- If the offset of the next block is within the message, then it stays so over any sequence of
-- messages heard, messages to send, starts, timeouts and closings, and none of them makes the code
-- iterate behind the end of a message.
pub run-IsInside :
    (s : Xmodem) (inputs : List Input)
    → IsInside s
    → (s' : Xmodem) × (run s inputs ≡ some s') × IsInside s'
run-IsInside s [] h = (s, refl, h)
run-IsInside s (i ∷ inputs) h =
    let (s1, e1, h1) = Stays-some (react s i) (react-Stays s i h) in
    let (s2, e2, h2) = run-IsInside s1 inputs h1 in
    (s2, ap (λ r. elim r [ none ↦ none | some s' ↦ run s' inputs ]) e1 ∙ e2, h2)
