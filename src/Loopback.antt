-- ===== src/Loopback.antt =====
-- src/com/com_loopback.h: a communicator that hands what is sent to the upper layer of another one. A
-- message that waits is the sequence of its bytes, one that is to be sent the list of its pages.
use decom.Msg.Pages.{Pages, kept}
use decom.Base.{
  Bool, true, false, not, ◌&&◌, ◌||◌, Option, none, some, List, [], ◌∷◌, ◌++◌, ℕ, if◌then◌else◌,
  snoc,
}
use decom.Layer.{Eid, eid_any, Effect, to_upper, indicate, connected, tx_done}
mod Order
mod Tests

-- `txdata_type`
pub record TxData : Type 0 where
  pub data_ : List ℕ
  pub id : Eid
  pub more : Bool

-- The data members of class `loopback`; `counter_loopback` is whether the pointer is set, and
-- `notified` whether the worker, which waits for the condition variable, was woken.
pub record Loopback : Type 0 where
  pub is_open : Bool
  pub worker_end : Bool
  pub send_queue : List TxData
  pub counter_loopback : Bool
  pub notified : Bool

-- The constructor, with the worker at its wait.
unfoldable pub init : Loopback
init = record {
  is_open = false;
  worker_end = false;
  send_queue = [];
  counter_loopback = false;
  notified = false;
}

-- The destructor up to the wait for the thread's end.
unfoldable pub destroy : Loopback → Loopback
destroy s = record s { is_open = false; worker_end = true; notified = true }

-- `open`: `upper` tells that an upper layer is registered.
unfoldable pub open_layer : (upper : Bool) → Loopback → Loopback × List Effect × Bool
open_layer upper s =
    if not upper || not s.counter_loopback
    then (s, [], false)
    else (record s { is_open = true }, indicate connected eid_any ∷ [], true)

unfoldable pub close : Loopback → Loopback
close s = record s { is_open = false }

-- `send`: the queue holds deep copies. The further copies, when the message is taken, are those of a
-- message with one page.
unfoldable pub send : Loopback → Pages → Eid → (more : Bool) → Loopback × List Effect × Bool
send s data_ id more =
    let item : TxData = record { data_ = kept data_; id = id; more = more } in
    if s.is_open && s.counter_loopback
    then (
      record s { send_queue = snoc s.send_queue item; notified = true },
      indicate tx_done id ∷ [],
      true,
    )
    else (s, indicate tx_done id ∷ [], false)

unfoldable pub register_loopback : Loopback → Loopback
register_loopback s = record s { counter_loopback = true }

-- What the other loopback's upper layer receives.
unfoldable pub deliver : TxData → Effect
deliver item = to_upper item.data_ item.id item.more

-- The body of `worker` behind its wait.
unfoldable pub work : Loopback → List TxData → Loopback × List Effect
work s [] = (s, [])
work s (item ∷ items) =
    if s.is_open then (record s { send_queue = items }, deliver item ∷ []) else (s, [])

-- A round of `worker`: nothing happens while it waits.
unfoldable pub worker : Loopback → Loopback × List Effect
worker s = if s.notified then work (record s { notified = false }) s.send_queue else (s, [])
