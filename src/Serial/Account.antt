-- ===== src/Serial/Account.antt =====
-- com_serial.h: the messages that are accepted, and those that are reported to the upper layer.
use decom.Base.{
  ℕ, ◌+◌, ◌≡◌, refl, Bool, true, false, Option, none, some, List, [], ◌∷◌, ◌++◌, if◌then◌else◌,
  Bool-cases, inl, inr, arith,
}
use decom.Layer.{Effect, to_lower, to_upper, indicate, close_lower, Status, tx_done, tx_error}
use decom.Serial.{
  Serial, WriteAnswer, ReadAnswer, Woken, transmit, send, round, issue_read, on_event, delivery,
  got, read_pending, read_failed, terminate, received, other,
}

-- What happens while the port is open: the upper layer sends a message, or the worker takes a round.
pub data Event : Type 0 where
  put : WriteAnswer → (x : ℕ) → (xs : List ℕ) → Event
  wake : ReadAnswer → Woken → Event

abbrev taken : Serial → Option (Serial × Bool) → Serial × ℕ
taken s none = (s, 0)
taken s (some (s', ok)) = (s', if ok then 1 else 0)

abbrev pub reports_end : Status → Bool
reports_end tx_done = true
reports_end tx_error = true
reports_end code = false

abbrev pub reports : List Effect → ℕ
reports [] = 0
reports (to_lower bytes id more ∷ out) = reports out
reports (to_upper bytes id more ∷ out) = reports out
reports (indicate code id ∷ out) = (if reports_end code then 1 else 0) + reports out
reports (close_lower id ∷ out) = reports out

-- The state behind an event, how many messages it accepts, and how many ends of one it reports.
abbrev pub react : Serial → Event → Serial × ℕ × ℕ
react s (put answer x xs) = let (s', n) = taken s (send answer s (x ∷ xs)) in (s', n, 0)
react s (wake answer woken) = let (s', out, goes_on) = round answer woken s in (s', 0, reports out)

abbrev pub run : Serial → List Event → Serial × ℕ × ℕ
run s [] = (s, 0, 0)
run s (e ∷ events) =
    let (s', a, r) = react s e in let (s'', a', r') = run s' events in (s'', a + a', r + r')

-- The system signals the end of a transmission only while one is in progress.
abbrev pub IsFair : Serial → Event → Type 0
IsFair s (wake answer (transmit result)) = s.tx_busy ≡ true
IsFair s e = Unit {0}

abbrev pub AreFair : Serial → List Event → Type 0
AreFair s [] = Unit {0}
AreFair s (e ∷ events) = IsFair s e × AreFair (react s e).0 events

abbrev pub pending : Serial → ℕ
pending s = if s.tx_busy then 1 else 0

reports-append : (xs ys : List Effect) → reports (xs ++ ys) ≡ reports xs + reports ys
reports-append [] ys = omega arith
reports-append (to_lower bytes id more ∷ xs) ys = reports-append xs ys
reports-append (to_upper bytes id more ∷ xs) ys = reports-append xs ys
reports-append (indicate code id ∷ xs) ys = omega (arith, reports-append xs ys)
reports-append (close_lower id ∷ xs) ys = reports-append xs ys

reports-delivery : (bytes : List ℕ) → reports (delivery bytes) ≡ 0
reports-delivery [] = refl
reports-delivery (x ∷ xs) = refl

pub issue_read-reports : (answer : ReadAnswer) (s : Serial) → reports (issue_read answer s).1 ≡ 0
unfolding issue_read
issue_read-reports (got bytes) s = elim (Bool-cases s.rx_busy) [
  | inl e ↦ rw e refl
  | inr ne ↦ rw ne (reports-delivery bytes)
]
issue_read-reports read_pending s = refl
issue_read-reports read_failed s = refl

issue_read-pending :
    (answer : ReadAnswer) (s : Serial) → (issue_read answer s).0.tx_busy ≡ s.tx_busy
unfolding issue_read
issue_read-pending (got bytes) s = ground arith
issue_read-pending read_pending s = refl
issue_read-pending read_failed s = refl

on_event-pending :
    (answer : ReadAnswer) (woken : Woken) (s s' : Serial)
    → IsFair s (wake answer woken)
    → s'.tx_busy ≡ s.tx_busy
    → pending s ≡ reports (on_event woken s').1 + pending (on_event woken s').0
unfolding on_event
on_event-pending answer terminate s s' fair e = ground arith
on_event-pending answer (transmit true) s s' fair e = ground arith
on_event-pending answer (transmit false) s s' fair e = ground arith
on_event-pending answer (received bytes) s s' fair e = ground (arith, reports-delivery bytes)
on_event-pending answer other s s' fair e = ground arith

react-pending :
    (s : Serial) (e : Event)
    → IsFair s e
    → pending s + (react s e).1 ≡ (react s e).2 + pending (react s e).0
unfolding send round issue_read on_event
react-pending s (put answer x xs) fair = ground arith
react-pending s (wake answer woken) fair =
    let s' = (issue_read answer s).0 in
    omega (
      arith,
      on_event-pending answer woken s s' fair (issue_read-pending answer s),
      reports-append (issue_read answer s).1 (on_event woken s').1,
      issue_read-reports answer s,
    )

-- Over any messages to send and rounds of the worker, if the system signals an end only of a transmission
-- that is in progress: the messages that are accepted, and the one in progress before, are as many as the
-- ends that are reported to the upper layer, and the one in progress behind.
pub run-pending :
    (s : Serial) (events : List Event)
    → AreFair s events
    → (let (s', accepted, reported) = run s events in pending s + accepted ≡ reported + pending s')
run-pending s [] fair = omega arith
run-pending s (e ∷ events) fair =
    omega (arith, react-pending s e fair.0, run-pending (react s e).0 events fair.1)
