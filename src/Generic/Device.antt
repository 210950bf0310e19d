-- ===== src/Generic/Device.antt =====
-- dev_generic.h: the state of the device and its handlers. A message that is received is the list of its
-- pages, one that is written the sequence of its bytes.
use decom.Msg.Pages.{Pages, whole, walk}
use decom.Base.{
  Bool, true, false, not, ◌&&◌, Option, none, some, List, [], ◌∷◌, ◌++◌, ℕ, is_empty, if◌then◌else◌,
}
use decom.Layer.{
  Eid, eid_any, eid_eq, is_any, Effect, to_lower, close_lower, Status, connected, disconnected,
  tx_done, tx_error, tx_timeout, tx_overrun, rx_error, rx_timeout, rx_overrun,
}

-- The data members of class `generic`, without `rx_more_`, which the code does not use, and the argument
-- of the callback. An event is whether it is set.
pub record Generic : Type 0 where
  pub receive_last_more : Bool
  pub is_open : Bool
  pub is_connected : Bool
  pub eid : Eid
  pub rx_msg : Pages
  pub rx_eid : Eid
  pub rx_ev : Bool
  pub tx_ev : Bool
  pub con_ev : Bool
  pub tx_status : Status
  pub has_callback : Bool

-- The constructor.
unfoldable pub init : Generic
init = record {
  receive_last_more = false;
  is_open = false;
  is_connected = false;
  eid = eid_any;
  rx_msg = [] ∷ [];
  rx_eid = eid_any;
  rx_ev = false;
  tx_ev = true;
  con_ev = false;
  tx_status = disconnected;
  has_callback = false;
}

-- `open`: `lower` is the lower layer's answer.
unfoldable pub open_device : (lower : Bool) → Generic → Eid → Generic × Bool
open_device lower s id =
    if s.is_open then (s, false) else (record s { eid = id; is_open = lower }, lower)

unfoldable pub close : Generic → Eid → Generic × List Effect
close s id = (record s { is_open = false }, close_lower id ∷ [])

-- The test of an identifier against the one that was opened.
unfoldable pub is_foreign : Generic → Eid → Bool
is_foreign s id = not (eid_eq id s.eid) && not (is_any id)

-- What `receive` leaves in the buffer before the callback.
unfoldable pub collect : Generic → Pages → Pages
collect s data_ = if s.receive_last_more then s.rx_msg ++ data_ else data_

-- `receive`, with what the callback is given; `change` is what it leaves of the message.
unfoldable pub receive :
    (change : Pages → Pages)
    → Generic
    → Pages
    → Eid
    → (more : Bool) → Generic × Option (Pages × Eid)
receive change s data_ id more =
    let got = collect s data_ in
    let stored = record s { rx_msg = got; receive_last_more = more } in
    if not s.is_open
    then (s, none)
    else if is_foreign s id
    then (s, none)
    else if more
    then (stored, none)
    else if s.has_callback
    then (record stored { rx_msg = change got; rx_ev = true }, some (got, id))
    else (record stored { rx_ev = true }, none)

-- The switch over the code in `indication`.
unfoldable pub on_status : Generic → Status → Generic
on_status s connected = record s { is_connected = true; con_ev = true }
on_status s disconnected = record s { is_connected = false; con_ev = false }
on_status s tx_done = record s { tx_status = tx_done; tx_ev = true }
on_status s tx_error = record s { tx_status = tx_error; tx_ev = true }
on_status s tx_timeout = record s { tx_status = tx_timeout; tx_ev = true }
on_status s tx_overrun = record s { tx_status = tx_overrun; tx_ev = true }
on_status s rx_error = s
on_status s rx_timeout = s
on_status s rx_overrun = s

unfoldable pub indication : Generic → Status → Eid → Generic
indication s code id = if is_foreign s id then s else on_status s code

-- How `write` goes on: it returns, or it waits for the event.
pub data Course : Type 0 where
  returns : Bool → Course
  waits : Course

-- `write` up to its wait: `lower` is the lower layer's answer.
unfoldable pub write :
    (lower : Bool)
    → Generic
    → List ℕ
    → Eid
    → (more blocking : Bool) → Generic × List Effect × Course
write lower s bytes id more blocking =
    let sending = record s { tx_ev = false } in
    if not s.is_open
    then (s, [], returns false)
    else if not s.is_connected
    then (s, [], returns false)
    else if not s.tx_ev
    then (s, [], returns false)
    else (
      sending,
      to_lower bytes id more ∷ [],
      (if blocking then (if lower then waits else returns false) else returns lower),
    )

abbrev pub is_tx_done : Status → Bool
is_tx_done connected = false
is_tx_done disconnected = false
is_tx_done tx_done = true
is_tx_done tx_error = false
is_tx_done tx_timeout = false
is_tx_done tx_overrun = false
is_tx_done rx_error = false
is_tx_done rx_timeout = false
is_tx_done rx_overrun = false

-- The end of a `write` that waits, which comes when the event is set.
unfoldable pub written : Generic → Option Bool
written s = if s.tx_ev then some (is_tx_done s.tx_status) else none

-- `read` behind its wait: `memory` are the bytes that the walk over the message meets where a page has
-- none.
unfoldable pub take_message : (memory : ℕ → ℕ) → Generic → Generic × Option (List ℕ × Eid)
take_message memory s =
    (record s { rx_msg = [] ∷ []; rx_ev = false }, some (walk memory s.rx_msg, s.rx_eid))

-- `read`: `signalled` is the state of the device when the event that it waits for is set, if that is
-- before the timeout.
unfoldable pub read :
    (memory : ℕ → ℕ) → (signalled : Option Generic) → Generic → Generic × Option (List ℕ × Eid)
read memory none s =
    if is_empty (whole s.rx_msg) && not s.rx_ev then (s, none) else take_message memory s
read memory (some s') s =
    if is_empty (whole s.rx_msg) && not s.rx_ev
    then take_message memory s'
    else take_message memory s

unfoldable pub set_receive_callback : Generic → (callback : Bool) → Generic
set_receive_callback s callback = record s { has_callback = callback }
