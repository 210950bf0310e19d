-- ===== src/Serial/Reopened.antt =====
-- com_serial.h: a port that is opened again.
use decom.Base.{
  ℕ, ◌≡◌, refl, ap, ◌∙◌, Bool, true, false, Option, none, some, List, [], ◌∷◌, append-nil, arith,
}
use decom.Serial.{
  Serial, Answers, ReadAnswer, Woken, terminate, send, round, issue_read, on_event, got,
  read_pending, read_failed, transmit, received, other, stop_thread, close, give_up, set_up,
  open_layer,
}
use decom.Serial.Account.{Event, react, reports, issue_read-reports, put, wake}

-- What happens to a port.
pub data Call : Type 0 where
  opened : Answers → (upper : Bool) → (address : Option (List ℕ)) → Call
  closed : Call
  during : Event → Call

abbrev pub after : Serial → List Call → Serial
after s [] = s
after s (opened answers upper address ∷ calls) = after (open_layer answers upper s address).0 calls
after s (closed ∷ calls) = after (close s).0 calls
after s (during e ∷ calls) = after (react s e).0 calls

close-terminate : (s : Serial) → s.terminate_set ≡ true → (close s).0.terminate_set ≡ true
unfolding close stop_thread
close-terminate s h = ground arith

open_layer-terminate :
    (a : Answers) (upper : Bool) (s : Serial) (address : Option (List ℕ))
    → s.terminate_set ≡ true
    → (open_layer a upper s address).0.terminate_set ≡ true
unfolding open_layer set_up give_up close stop_thread
open_layer-terminate a upper s none h = h
open_layer-terminate a upper s (some chars) h = ground arith

issue_read-terminate :
    (answer : ReadAnswer) (s : Serial) → (issue_read answer s).0.terminate_set ≡ s.terminate_set
unfolding issue_read
issue_read-terminate (got bytes) s = ground arith
issue_read-terminate read_pending s = refl
issue_read-terminate read_failed s = refl

on_event-terminate :
    (woken : Woken) (s : Serial) → (on_event woken s).0.terminate_set ≡ s.terminate_set
unfolding on_event
on_event-terminate terminate s = refl
on_event-terminate (transmit result) s = refl
on_event-terminate (received bytes) s = refl
on_event-terminate other s = refl

react-terminate :
    (s : Serial) (e : Event) → s.terminate_set ≡ true → (react s e).0.terminate_set ≡ true
unfolding send round issue_read on_event
react-terminate s (put answer x xs) h = ground arith
react-terminate s (wake answer woken) h =
    on_event-terminate woken (issue_read answer s).0 ∙ (issue_read-terminate answer s ∙ h)

after-terminate :
    (s : Serial) (calls : List Call) → s.terminate_set ≡ true → (after s calls).terminate_set ≡ true
after-terminate s [] h = h
after-terminate s (opened answers upper address ∷ calls) h =
    after-terminate (open_layer answers upper s address).0 calls
      (open_layer-terminate answers upper s address h)
after-terminate s (closed ∷ calls) h = after-terminate (close s).0 calls (close-terminate s h)
after-terminate s (during e ∷ calls) h = after-terminate (react s e).0 calls (react-terminate s e h)

close-running : (s : Serial) → s.thread_handle ≡ true → (close s).0.terminate_set ≡ true
unfolding close stop_thread
close-running s h = ground arith

-- A port with a worker was closed once. If the wait for several events gives the event that ends the
-- worker whenever that is set, then whatever is called afterwards, `open` included, the first round of a
-- worker ends it, without a report of a sent message.
pub after-round :
    (s : Serial) (calls : List Call) (answer : ReadAnswer) (woken : Woken)
    → s.thread_handle ≡ true
    → ((after (close s).0 calls).terminate_set ≡ true → woken ≡ terminate)
    → (let (s', out, goes_on) = round answer woken (after (close s).0 calls) in
        (goes_on ≡ false) × (reports out ≡ 0))
unfolding round on_event
after-round s calls answer woken running lowest_first =
    let ends : woken ≡ terminate =
      lowest_first (after-terminate (close s).0 calls (close-running s running)) in
    rw ends (
      refl,
      ap reports (append-nil (issue_read answer (after (close s).0 calls)).1)
          ∙ issue_read-reports answer (after (close s).0 calls),
    )
