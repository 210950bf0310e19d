-- ===== src/Bridge.antt =====
-- src/dev/dev_bridge.h: a device that hands what it receives to the stack of another one. A message is the
-- sequence of its bytes.
use decom.Base.{ℕ, Bool, true, false, not, List, [], ◌∷◌, if◌then◌else◌}
use decom.Layer.{Eid, Status, Effect, to_lower, close_lower}
mod Gateway
mod Tests

-- The data member of class `bridge`: whether the pointer is set.
pub record Bridge : Type 0 where
  pub counter_bridge : Bool

-- The constructor.
unfoldable pub init : Bridge
init = record { counter_bridge = false }

-- `open`: `lower` is the lower layer's answer.
unfoldable pub open_device : (lower : Bool) → Bridge → Bool
open_device lower s = if not s.counter_bridge then false else lower

unfoldable pub close : Bridge → Eid → List Effect
close s id = close_lower id ∷ []

-- What the other bridge calls of its lower layer.
unfoldable pub receive : Bridge → List ℕ → Eid → (more : Bool) → List Effect
receive s bytes id more = if s.counter_bridge then to_lower bytes id more ∷ [] else []

unfoldable pub indication : Bridge → Status → Eid → Bridge
indication s code id = s

unfoldable pub register_bridge : Bridge → (counter_bridge : Bool) → Bridge
register_bridge s counter_bridge = record s { counter_bridge = counter_bridge }
