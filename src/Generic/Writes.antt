-- ===== src/Generic/Writes.antt =====
-- dev_generic.h: a write is refused while the last one is not confirmed.
use decom.Msg.Pages.{Pages}
use decom.Base.{
  Bool, true, false, none, List, [], ◌∷◌, ◌++◌, ℕ, ◌+◌, ◌≤◌, ◌≡◌, if◌then◌else◌, arith,
}
use decom.Layer.{
  Eid, Effect, to_lower, to_upper, indicate, close_lower, Status, connected, disconnected, tx_done,
  tx_error, tx_timeout, tx_overrun, rx_error, rx_timeout, rx_overrun,
}
use decom.Generic.Device.{
  Generic, open_device, close, receive, indication, on_status, write, read, take_message,
}

-- What happens to the device: calls of the application and of the lower layer.
pub data Event : Type 0 where
  opened : (lower : Bool) → Eid → Event
  closed : Eid → Event
  put : (lower : Bool) → List ℕ → Eid → (more blocking : Bool) → Event
  indicated : Status → Eid → Event
  received : Pages → Eid → (more : Bool) → Event
  fetched : (memory : ℕ → ℕ) → Event

abbrev pub react : (Pages → Pages) → Generic → Event → Generic × List Effect
react change s (opened lower id) = let (s', ok) = open_device lower s id in (s', [])
react change s (closed id) = close s id
react change s (put lower bytes id more blocking) =
    let (s', out, course) = write lower s bytes id more blocking in (s', out)
react change s (indicated code id) = (indication s code id, [])
react change s (received data_ id more) =
    let (s', call) = receive change s data_ id more in (s', [])
react change s (fetched memory) = let (s', got) = read memory none s in (s', [])

abbrev pub run : (Pages → Pages) → Generic → List Event → List Effect
run change s [] = []
run change s (e ∷ events) = let (s', out) = react change s e in out ++ run change s' events

-- The messages that go to the lower layer.
abbrev pub sends : List Effect → ℕ
sends [] = 0
sends (to_lower bytes id more ∷ out) = 1 + sends out
sends (to_upper bytes id more ∷ out) = sends out
sends (indicate code id ∷ out) = sends out
sends (close_lower id ∷ out) = sends out

-- Whether a status tells that a transmission has ended.
abbrev pub is_end : Status → Bool
is_end connected = false
is_end disconnected = false
is_end tx_done = true
is_end tx_error = true
is_end tx_timeout = true
is_end tx_overrun = true
is_end rx_error = false
is_end rx_timeout = false
is_end rx_overrun = false

abbrev pub credit : Bool → ℕ
credit ready = if ready then 1 else 0

-- The indications that a transmission has ended.
abbrev pub ends : Event → ℕ
ends (opened lower id) = 0
ends (closed id) = 0
ends (put lower bytes id more blocking) = 0
ends (indicated code id) = credit (is_end code)
ends (received data_ id more) = 0
ends (fetched memory) = 0

abbrev pub confirms : List Event → ℕ
confirms [] = 0
confirms (e ∷ events) = ends e + confirms events

write-credit :
    (lower : Bool) (s : Generic) (bytes : List ℕ) (id : Eid) (more blocking : Bool)
    → sends (write lower s bytes id more blocking).1
        + credit (write lower s bytes id more blocking).0.tx_ev
      ≤ credit s.tx_ev
unfolding write
write-credit lower s bytes id more blocking = ground arith

on_status-credit :
    (s : Generic) (code : Status)
    → credit (on_status s code).tx_ev ≤ credit s.tx_ev + credit (is_end code)
unfolding on_status
on_status-credit s connected = ground arith
on_status-credit s disconnected = ground arith
on_status-credit s tx_done = ground arith
on_status-credit s tx_error = ground arith
on_status-credit s tx_timeout = ground arith
on_status-credit s tx_overrun = ground arith
on_status-credit s rx_error = ground arith
on_status-credit s rx_timeout = ground arith
on_status-credit s rx_overrun = ground arith

indication-credit :
    (s : Generic) (code : Status) (id : Eid)
    → credit (indication s code id).tx_ev ≤ credit s.tx_ev + credit (is_end code)
unfolding indication
indication-credit s code id = ground (arith, on_status-credit s code)

-- A step sends no more than the event allows and the confirmations give back.
react-credit :
    (change : Pages → Pages) (s : Generic) (e : Event)
    → sends (react change s e).1 + credit (react change s e).0.tx_ev ≤ credit s.tx_ev + ends e
unfolding open_device close receive read take_message
react-credit change s (opened lower id) = ground arith
react-credit change s (closed id) = ground arith
react-credit change s (put lower bytes id more blocking) =
    omega (arith, write-credit lower s bytes id more blocking)
react-credit change s (indicated code id) = omega (arith, indication-credit s code id)
react-credit change s (received data_ id more) = ground arith
react-credit change s (fetched memory) = ground arith

sends-append : (out out' : List Effect) → sends (out ++ out') ≡ sends out + sends out'
sends-append [] out' = omega arith
sends-append (to_lower bytes id more ∷ out) out' = omega (arith, sends-append out out')
sends-append (to_upper bytes id more ∷ out) out' = sends-append out out'
sends-append (indicate code id ∷ out) out' = sends-append out out'
sends-append (close_lower id ∷ out) out' = sends-append out out'

-- Whatever the application and the lower layer do, the device hands at most one message more to the
-- lower layer than the lower layer has indicated ends of transmissions, and none more while the
-- transmit event is not set.
pub run-sends :
    (change : Pages → Pages) (s : Generic) (events : List Event)
    → sends (run change s events) ≤ credit s.tx_ev + confirms events
run-sends change s [] = omega arith
run-sends change s (e ∷ events) = omega (
  arith,
  sends-append (react change s e).1 (run change (react change s e).0 events),
  react-credit change s e,
  run-sends change (react change s e).0 events,
)
