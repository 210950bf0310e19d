-- ===== src/ComGeneric.antt =====
-- src/com/com_generic.h: a communicator whose other side is the application. A message that was copied
-- is the sequence of its bytes, one that is to be sent the list of its pages.
use decom.Msg.Pages.{Pages, kept}
use decom.Base.{
  ℕ, Bool, true, false, not, ◌||◌, Option, none, some, List, [], ◌∷◌, is_empty, if◌then◌else◌,
}
use decom.Layer.{Eid, eid_any, Effect, to_upper, indicate, connected, disconnected, tx_done}
mod Slot
mod Tests

-- What was received, as `read` hands it over.
pub record Item : Type 0 where
  pub data_ : List ℕ
  pub id : Eid
  pub more : Bool

-- The data members of class `generic`, without the lock, the condition and the callback's argument;
-- `has_callback` is whether the pointer is set.
pub record ComGeneric : Type 0 where
  pub is_open : Bool
  pub rx_buffer : List ℕ
  pub rx_eid : Eid
  pub rx_more : Bool
  pub has_callback : Bool

-- The constructor.
unfoldable pub init : ComGeneric
init = record {
  is_open = false;
  rx_buffer = [];
  rx_eid = eid_any;
  rx_more = false;
  has_callback = false;
}

unfoldable pub open_layer : ComGeneric → Eid → ComGeneric × List Effect × Bool
open_layer s id = (record s { is_open = true; rx_buffer = [] }, indicate connected id ∷ [], true)

unfoldable pub close : ComGeneric → Eid → ComGeneric × List Effect
close s id = (record s { is_open = false }, indicate disconnected id ∷ [])

-- `send`, with what the callback is given: the buffer is a deep copy.
unfoldable pub send :
    ComGeneric → Pages → Eid → (more : Bool) → ComGeneric × List Effect × Option Item × Bool
send s data_ id more =
    let stored : ComGeneric = record s { rx_buffer = kept data_; rx_eid = id; rx_more = more } in
    let item : Item = record { data_ = kept data_; id = id; more = more } in
    if not s.is_open
    then (s, [], none, false)
    else if s.has_callback
    then (record stored { rx_buffer = [] }, indicate tx_done id ∷ [], some item, true)
    else (stored, indicate tx_done id ∷ [], none, true)

-- `write` of a message, of which those of a container and of a byte are special cases.
unfoldable pub write : ComGeneric → List ℕ → Eid → List Effect × Bool
write s bytes id = if not s.is_open then ([], false) else (to_upper bytes id false ∷ [], true)

unfoldable pub write_byte : ComGeneric → ℕ → Eid → List Effect × Bool
write_byte s byte id = write s (byte ∷ []) id

-- `read`: the copy of the buffer, which has one page, is complete.
unfoldable pub read : ComGeneric → ComGeneric × Option Item
read s = if s.has_callback || (not s.is_open || is_empty s.rx_buffer) then (s, none) else (
  record s { rx_buffer = [] },
  some (record { data_ = s.rx_buffer; id = s.rx_eid; more = s.rx_more }),
)

unfoldable pub set_receive_callback : ComGeneric → (callback : Bool) → ComGeneric
set_receive_callback s callback = record s { has_callback = callback }
