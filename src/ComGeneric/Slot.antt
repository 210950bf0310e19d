-- ===== src/ComGeneric/Slot.antt =====
-- com_generic.h: what the application reads.
use decom.Msg.Pages.{Pages, kept}
use decom.Base.{Bool, true, false, Option, none, some, List, [], ◌∷◌, ◌++◌, is_empty, if◌then◌else◌}
use decom.Layer.{Eid}
use decom.ComGeneric.{ComGeneric, Item, open_layer, close, send, read}

-- What happens without a callback.
pub data Event : Type 0 where
  opened : Eid → Event
  closed : Eid → Event
  put : Pages → Eid → (more : Bool) → Event
  taken : Event

abbrev item_of : Option Item → List Item
item_of none = []
item_of (some item) = item ∷ []

-- The state behind an event, and what is read.
abbrev pub react : ComGeneric → Event → ComGeneric × List Item
react s (opened id) = ((open_layer s id).0, [])
react s (closed id) = ((close s id).0, [])
react s (put data_ id more) = ((send s data_ id more).0, [])
react s taken = let (s', got) = read s in (s', item_of got)

abbrev pub run : ComGeneric → List Event → List Item
run s [] = []
run s (e ∷ events) = let (s', got) = react s e in got ++ run s' events

-- The contract: while it is open, a slot for the first page of the last message, if that has bytes.
pub record Slot : Type 0 where
  pub is_open : Bool
  pub item : Option Item

abbrev pub filled : Item → Option Item
filled item = if is_empty item.data_ then none else some item

abbrev pub slot_react : Slot → Event → Slot × List Item
slot_react v (opened id) = (record { is_open = true; item = none }, [])
slot_react v (closed id) = (record v { is_open = false }, [])
slot_react v (put data_ id more) = (
  (if v.is_open
      then record v { item = filled (record { data_ = kept data_; id = id; more = more }) }
      else v),
  [],
)
slot_react v taken = if v.is_open then (record v { item = none }, item_of v.item) else (v, [])

abbrev pub slot_run : Slot → List Event → List Item
slot_run v [] = []
slot_run v (e ∷ events) = let (v', got) = slot_react v e in got ++ slot_run v' events

-- The slot of a communicator.
abbrev pub view : ComGeneric → Slot
view s = record {
  is_open = s.is_open;
  item = filled (record { data_ = s.rx_buffer; id = s.rx_eid; more = s.rx_more });
}

abbrev seen : ComGeneric × List Item → Slot × List Item
seen (s, got) = (view s, got)
