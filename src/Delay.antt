-- ===== src/Delay.antt =====
-- src/prot/prot_delay.h: a layer that sends a message after a delay. A message is the sequence of its
-- bytes, that is to be sent the list of its pages.
use decom.Msg.Pages.{Pages, kept}
use decom.Base.{
  ℕ, Bool, true, false, not, Option, none, some, List, [], ◌∷◌, is_empty, if◌then◌else◌,
}
use decom.Layer.{Eid, eid_any, Effect, to_lower, close_lower}
pub mod Buffer
mod Tests

-- The data members of class `delay`; the timer is the period that it was started with, or `none`.
pub record Delay : Type 0 where
  pub tx_buffer : List ℕ
  pub tx_eid : Eid
  pub tx_more : Bool
  pub tx_timer : Option ℕ
  pub tx_delay : ℕ

-- The constructor: `memory` is what the member that it does not set holds.
unfoldable pub init : (memory : Bool) → (delay : ℕ) → Delay
init memory delay = record {
  tx_buffer = [];
  tx_eid = eid_any;
  tx_more = memory;
  tx_timer = none;
  tx_delay = delay;
}

-- `open`: `upper` tells that an upper layer is registered, `lower` is the lower layer's answer.
unfoldable pub open_layer : (upper lower : Bool) → Delay → Delay × Bool
open_layer upper lower s = if not upper then (s, false) else (s, lower)

unfoldable pub close : Delay → Delay × List Effect
close s = (s, close_lower eid_any ∷ [])

-- `send`: the buffer is a deep copy.
unfoldable pub send : Delay → Pages → Eid → (more : Bool) → Delay × Bool
send s data_ id more = if not (is_empty s.tx_buffer) then (s, false) else (
  record s { tx_buffer = kept data_; tx_eid = id; tx_more = more; tx_timer = some s.tx_delay },
  true,
)

-- `timer_callback`; the timer was started once and is then no longer running. The lower layer's answer
-- is not looked at by the code.
unfoldable pub timer_callback : Delay → Delay × List Effect
timer_callback s =
    (record s { tx_buffer = []; tx_timer = none }, to_lower s.tx_buffer s.tx_eid s.tx_more ∷ [])

unfoldable pub set_delay : ℕ → Delay → Delay
set_delay delay s = record s { tx_delay = delay }
