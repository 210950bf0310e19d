-- ===== src/Echo.antt =====
-- src/dev/dev_echo.h: a device that sends back what it receives. A message is the sequence of its bytes;
-- the text for the log is left out.
use decom.Base.{ℕ, Bool, List, [], ◌∷◌}
use decom.Layer.{Eid, Effect, to_lower}

unfoldable pub receive : List ℕ → Eid → (more : Bool) → List Effect
receive bytes id more = to_lower bytes id more ∷ []
