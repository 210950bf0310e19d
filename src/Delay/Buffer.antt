-- ===== src/Delay/Buffer.antt =====
-- prot_delay.h as a buffer with one place.
use decom.Msg.Pages.{Pages, kept}
use decom.Base.{
  ℕ, ◌≡◌, refl, ap, Bool, true, false, Option, none, some, List, [], ◌∷◌, ◌++◌, is_empty,
}
use decom.Layer.{Eid, Effect, to_lower}
use decom.Delay.{Delay, send, timer_callback, set_delay}

-- What happens to the layer: the upper layer sends or sets the delay, or time passes, after which a
-- running timer has fired.
pub data Event : Type 0 where
  put : Pages → Eid → (more : Bool) → Event
  adjust : ℕ → Event
  wait : Event

-- What is seen of it: the answers of `send` and the calls of the lower layer.
pub data Seen : Type 0 where
  answered : Bool → Seen
  called : Effect → Seen

abbrev pub seen_calls : List Effect → List Seen
seen_calls [] = []
seen_calls (e ∷ es) = called e ∷ seen_calls es

abbrev pub fire : Delay → Option ℕ → Delay × List Seen
fire s none = (s, [])
fire s (some period) = let (s', out) = timer_callback s in (s', seen_calls out)

abbrev pub react : Delay → Event → Delay × List Seen
react s (put data_ id more) = let (s', ok) = send s data_ id more in (s', answered ok ∷ [])
react s (adjust delay) = (set_delay delay s, [])
react s wait = fire s s.tx_timer

abbrev pub run : Delay → List Event → List Seen
run s [] = []
run s (e ∷ events) = let (s', out) = react s e in out ++ run s' events

-- The buffer: the first page of a message is taken if the place is free, and goes out when time passes.
abbrev pub Place : Type 0
Place = Option (List ℕ × Eid × Bool)

abbrev pub buffer : Place → List Event → List Seen
buffer place [] = []
buffer none (put data_ id more ∷ events) =
    answered true ∷ buffer (some (kept data_, id, more)) events
buffer (some m) (put data_ id more ∷ events) = answered false ∷ buffer (some m) events
buffer place (adjust delay ∷ events) = buffer place events
buffer none (wait ∷ events) = buffer none events
buffer (some (bytes, id, more)) (wait ∷ events) =
    called (to_lower bytes id more) ∷ buffer none events

-- The messages have a byte on their first page.
abbrev pub IsFilled : List Event → Type 0
IsFilled [] = Unit {0}
IsFilled (put data_ id more ∷ events) = (is_empty (kept data_) ≡ false) × IsFilled events
IsFilled (adjust delay ∷ events) = IsFilled events
IsFilled (wait ∷ events) = IsFilled events

-- A message that stands in the place has at least one byte.
abbrev pub IsPlace : Place → Type 0
IsPlace none = Unit {0}
IsPlace (some (bytes, id, more)) = is_empty bytes ≡ false

-- The layer with the given place; `period`, `id` and `more` are what its other members then hold.
abbrev pub holding : Place → (period delay : ℕ) → Eid → Bool → Delay
holding none period delay id more = record {
  tx_buffer = [];
  tx_eid = id;
  tx_more = more;
  tx_timer = none;
  tx_delay = delay;
}
holding (some (bytes, id', more')) period delay id more = record {
  tx_buffer = bytes;
  tx_eid = id';
  tx_more = more';
  tx_timer = some period;
  tx_delay = delay;
}

-- A layer that holds no message, or one with at least one byte whose timer runs, answers and calls its
-- lower layer as a buffer with one place does, over every sequence of messages with a byte on their first
-- page, new delays and pauses: a message is refused while another one waits, and otherwise its first page
-- goes out once, unchanged; its other pages are lost.
pub run-buffer :
    (events : List Event) (place : Place) (period delay : ℕ) (id : Eid) (more : Bool)
    → IsPlace place
    → IsFilled events
    → run (holding place period delay id more) events ≡ buffer place events
unfolding send timer_callback set_delay
run-buffer [] place period delay id more held filled = refl
run-buffer (put data_ id' more' ∷ events) none period delay id more held (some_bytes, filled) =
    ap (λ seen. answered true ∷ seen)
      (run-buffer events (some (kept data_, id', more')) delay delay id more some_bytes filled)
run-buffer (put data_ id' more' ∷ events) (some (bytes', id'', more'')) period delay id more held
      (some_bytes, filled) =
    rw (send, held)
      (ap (λ seen. answered false ∷ seen)
        (run-buffer events (some (bytes', id'', more'')) period delay id more held filled))
run-buffer (adjust delay' ∷ events) none period delay id more held filled =
    run-buffer events none period delay' id more held filled
run-buffer (adjust delay' ∷ events) (some (bytes, id', more')) period delay id more held filled =
    run-buffer events (some (bytes, id', more')) period delay' id more held filled
run-buffer (wait ∷ events) none period delay id more held filled =
    run-buffer events none period delay id more held filled
run-buffer (wait ∷ events) (some (bytes, id', more')) period delay id more held filled =
    ap (λ seen. called (to_lower bytes id' more') ∷ seen)
      (run-buffer events none period delay id' more' tt filled)
