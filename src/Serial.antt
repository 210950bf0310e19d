-- ===== src/Serial.antt =====
-- src/impl/windows/com/com_serial.h: a communicator for a serial port. A message is the sequence of its
-- bytes, and what the operating system answers is an argument.
use decom.Base.{
  ℕ, Bool, true, false, not, ◌&&◌, ◌||◌, Option, none, some, List, [], ◌∷◌, ◌++◌, ◌==◌, length,
  is_empty, if◌then◌else◌,
}
use decom.Layer.{
  Eid, eid_any, Effect, to_upper, indicate, connected, disconnected, tx_done, tx_error,
}
use decom.Serial.Param.{Params, Dcb, dcb_of}
mod Param
mod Opening
mod Account
mod Reopened
mod Tests

-- The data members of class `serial`: whether the two handles are not INVALID_HANDLE_VALUE, and whether
-- the last call on the event `ev_terminate` set it.
pub record Serial : Type 0 where
  pub params : Params
  pub com_handle : Bool
  pub thread_handle : Bool
  pub terminate_set : Bool
  pub tx_buf : List ℕ
  pub tx_busy : Bool
  pub rx_busy : Bool

-- The constructor.
unfoldable pub init : Params → Serial
init params = record {
  params = params;
  com_handle = false;
  thread_handle = false;
  terminate_set = false;
  tx_buf = [];
  tx_busy = false;
  rx_busy = false;
}

-- What the system answers to the calls that `open` makes; `accepts` to `SetCommState`.
pub record Answers : Type 0 where
  pub create_file : Bool
  pub accepts : Dcb → Bool
  pub set_timeouts : Bool
  pub begin_thread : Bool

unfoldable pub set_param : (accepts : Dcb → Bool) → Serial → Params → Bool
set_param accepts s params = s.com_handle && accepts (dcb_of params)

unfoldable pub flush : (answer : Bool) → Serial → Bool
flush answer s = s.com_handle && answer

unfoldable pub purge : (answer : Bool) → Serial → Bool
purge answer s = s.com_handle && answer

-- `close` down to the event that ends the worker, and then the port.
unfoldable pub stop_thread : Serial → Serial
stop_thread s =
    if s.thread_handle then record s { terminate_set = true; thread_handle = false } else s

unfoldable pub close : Serial → Serial × List Effect
close s =
    let s' = stop_thread s in
    if s'.com_handle
    then (record s' { com_handle = false }, indicate disconnected eid_any ∷ [])
    else (s', [])

-- The end of an `open` that fails.
unfoldable pub give_up : Serial → Serial × List Effect × Bool
give_up s = let (s', out) = close s in (s', out, false)

-- `open` with the port's handle. A thread that could not be created has the handle 0, which `close` takes
-- for that of a thread.
unfoldable pub set_up : Answers → Serial → Serial × List Effect × Bool
set_up answers s =
    let ready : Serial = record s { tx_busy = false; thread_handle = true } in
    if not (set_param answers.accepts s s.params)
    then give_up s
    else if not answers.set_timeouts
    then give_up s
    else if not answers.begin_thread
    then give_up ready
    else (ready, indicate connected eid_any ∷ [], true)

-- `open`: `upper` tells that an upper layer is registered; `address` is a pointer to characters.
unfoldable pub open_layer :
    Answers → (upper : Bool) → Serial → (address : Option (List ℕ)) → Serial × List Effect × Bool
open_layer answers upper s none = (s, [], false)
open_layer answers upper s (some chars) =
    let (s', out) = close s in
    let (s'', out', ok) = set_up answers (record s' { com_handle = true }) in
    if not upper || is_empty chars
    then (s, [], false)
    else if not answers.create_file
    then (s', out, false)
    else (s'', out ++ out', ok)

-- What the system answers to `WriteFile`, and to `ReadFile`.
pub data WriteAnswer : Type 0 where
  written : (count : ℕ) → WriteAnswer
  write_pending : WriteAnswer
  write_failed : WriteAnswer

pub data ReadAnswer : Type 0 where
  got : (bytes : List ℕ) → ReadAnswer
  read_pending : ReadAnswer
  read_failed : ReadAnswer

unfoldable pub is_accepted : (size : ℕ) → WriteAnswer → Bool
is_accepted size (written count) = count == size
is_accepted size write_pending = true
is_accepted size write_failed = false

-- `send`: there is no first element of a buffer without bytes, so that there is no result.
unfoldable pub send : WriteAnswer → Serial → List ℕ → Option (Serial × Bool)
send answer s bytes =
    if not s.com_handle
    then some (s, false)
    else if s.tx_busy
    then some (s, false)
    else if is_empty bytes
    then none
    else (let ok = is_accepted (length bytes) answer in
        some (record s { tx_buf = bytes; tx_busy = ok }, ok))

-- What ends the wait of the worker.
pub data Woken : Type 0 where
  terminate : Woken
  transmit : (result : Bool) → Woken
  received : (bytes : List ℕ) → Woken
  other : Woken

abbrev pub delivery : List ℕ → List Effect
delivery [] = []
delivery (x ∷ xs) = to_upper (x ∷ xs) eid_any false ∷ []

-- The read operation that a round of the worker issues.
unfoldable pub issue_read : ReadAnswer → Serial → Serial × List Effect
issue_read (got bytes) s = if s.rx_busy then (s, []) else (s, delivery bytes)
issue_read read_pending s = (record s { rx_busy = true }, [])
issue_read read_failed s = (s, [])

-- The switch over the event: whether the worker goes on.
unfoldable pub on_event : Woken → Serial → Serial × List Effect × Bool
on_event terminate s = (s, [], false)
on_event (transmit result) s = (
  record s { tx_busy = false },
  indicate (if result then tx_done else tx_error) eid_any ∷ [],
  true,
)
on_event (received bytes) s = (record s { rx_busy = false }, delivery bytes, true)
on_event other s = (s, [], true)

-- A round of `worker_thread`; `received []` stands for a read without bytes or a failed one.
unfoldable pub round : ReadAnswer → Woken → Serial → Serial × List Effect × Bool
round answer woken s =
    let (s', out) = issue_read answer s in
    let (s'', out', goes_on) = on_event woken s' in (s'', out ++ out', goes_on)
