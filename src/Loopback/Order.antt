-- ===== src/Loopback/Order.antt =====
-- com_loopback.h: what arrives, and in which order.
use decom.Msg.Pages.{Pages, kept}
use decom.Base.{
  Bool, false, not, ◌&&◌, ◌||◌, List, [], ◌∷◌, ◌++◌, if◌then◌else◌, ◌≡◌, refl, ap, sym, ◌∙◌,
  append_assoc, append-nil, Bool-cases, inl, inr,
}
use decom.Layer.{Eid, Effect}
use decom.Loopback.{
  TxData, Loopback, open_layer, close, send, register_loopback, deliver, work, worker,
}

-- What happens, in any order: calls of the upper layer, and rounds of the worker's thread.
pub data Event : Type 0 where
  opened : (upper : Bool) → Event
  closed : Event
  put : Pages → Eid → (more : Bool) → Event
  registered : Event
  round : Event

-- The first pages of the messages that a step accepts.
abbrev pub accepts : Loopback → Event → List TxData
accepts s (opened upper) = []
accepts s closed = []
accepts s (put data_ id more) =
    if s.is_open && s.counter_loopback
    then record { data_ = kept data_; id = id; more = more } ∷ []
    else []
accepts s registered = []
accepts s round = []

-- The state behind a step, and what it delivers to the other side.
abbrev pub react : Loopback → Event → Loopback × List Effect
react s (opened upper) = let (s', out, ok) = open_layer upper s in (s', [])
react s closed = (close s, [])
react s (put data_ id more) = let (s', out, ok) = send s data_ id more in (s', [])
react s registered = (register_loopback s, [])
react s round = worker s

abbrev pub run : Loopback → List Event → Loopback × List Effect
run s [] = (s, [])
run s (e ∷ events) =
    let (s', out) = react s e in let (s'', out') = run s' events in (s'', out ++ out')

abbrev pub accepted : Loopback → List Event → List TxData
accepted s [] = []
accepted s (e ∷ events) = accepts s e ++ accepted (react s e).0 events

abbrev pub delivers : List TxData → List Effect
delivers [] = []
delivers (item ∷ items) = deliver item ∷ delivers items

delivers-append : (xs ys : List TxData) → delivers (xs ++ ys) ≡ delivers xs ++ delivers ys
delivers-append [] ys = refl
delivers-append (x ∷ xs) ys = ap (λ l. deliver x ∷ l) (delivers-append xs ys)

work-queue :
    (s : Loopback) (items : List TxData)
    → s.send_queue ≡ items
    → (work s items).1 ++ delivers (work s items).0.send_queue ≡ delivers items
unfolding work
work-queue s [] e = ap delivers e
work-queue s (item ∷ items) e = elim (Bool-cases s.is_open) [
  | inl is ↦ rw is refl
  | inr not_open ↦ rw not_open (ap delivers e)
]

worker-queue :
    (s : Loopback) → (worker s).1 ++ delivers (worker s).0.send_queue ≡ delivers s.send_queue
unfolding worker
worker-queue s = elim (Bool-cases s.notified) [
  | inl e ↦ rw e (work-queue (record s { notified = false }) s.send_queue refl)
  | inr ne ↦ rw ne refl
]

send-queue :
    (s : Loopback) (data_ : Pages) (id : Eid) (more : Bool)
    → delivers (send s data_ id more).0.send_queue
      ≡ delivers (s.send_queue ++ accepts s (put data_ id more))
unfolding send
send-queue s data_ id more = elim (Bool-cases (s.is_open && s.counter_loopback)) [
  | inl e ↦ rw e refl
  | inr ne ↦ rw ne (ap delivers (sym (append-nil s.send_queue)))
]

open_layer-queue : (upper : Bool) (s : Loopback) → (open_layer upper s).0.send_queue ≡ s.send_queue
unfolding open_layer
open_layer-queue upper s = elim (Bool-cases (not upper || not s.counter_loopback)) [
  | inl e ↦ rw e refl
  | inr ne ↦ rw ne refl
]

-- A step: what is delivered and what stays in the queue is what was in the queue and what is accepted.
react-queue :
    (s : Loopback) (e : Event)
    → (react s e).1 ++ delivers (react s e).0.send_queue ≡ delivers (s.send_queue ++ accepts s e)
unfolding close register_loopback
react-queue s (opened upper) =
    ap delivers (open_layer-queue upper s ∙ sym (append-nil s.send_queue))
react-queue s closed = ap delivers (sym (append-nil s.send_queue))
react-queue s (put data_ id more) = send-queue s data_ id more
react-queue s registered = ap delivers (sym (append-nil s.send_queue))
react-queue s round = worker-queue s ∙ ap delivers (sym (append-nil s.send_queue))

-- In every interleaving of the upper layer's calls and the worker's rounds, what has been delivered to
-- the other side and then what still waits in the queue is what waited at the start and then the first
-- pages of the messages that were accepted, in this order: no message is lost, repeated or reordered, but
-- all pages but the first one are.
pub run-queue :
    (s : Loopback) (events : List Event)
    → (run s events).1 ++ delivers (run s events).0.send_queue
      ≡ delivers (s.send_queue ++ accepted s events)
run-queue s [] = ap delivers (sym (append-nil s.send_queue))
run-queue s (e ∷ events) =
    let rest = accepted (react s e).0 events in
    append_assoc (react s e).1 (run (react s e).0 events).1
      (delivers (run (react s e).0 events).0.send_queue)
    ∙ (ap (λ l. (react s e).1 ++ l)
          (run-queue (react s e).0 events ∙ delivers-append (react s e).0.send_queue rest)
        ∙ (sym (append_assoc (react s e).1 (delivers (react s e).0.send_queue) (delivers rest))
            ∙ (ap (λ l. l ++ delivers rest) (react-queue s e)
                ∙ (sym (delivers-append (s.send_queue ++ accepts s e) rest)
                    ∙ ap delivers (append_assoc s.send_queue (accepts s e) rest)))))
