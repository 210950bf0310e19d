-- ===== src/Serial/Tests.antt =====
-- com_serial.h at a concrete port.
use decom.Base.{◌+◌, ◌≡◌, refl, true, false, some, [], ◌∷◌, ◌&&◌}
use decom.Serial.{
  Serial, init, is_accepted, Answers, open_layer, close, send, round, write_pending, read_pending,
  transmit, terminate,
}
use decom.Serial.Param.{Params, parity_none, stopbit_1, flowctrl_none, dcb_of}
use decom.Serial.Opening.{open_layer_lem}
use decom.Serial.Account.{put, wake, run, pending, reports, run-pending}
use decom.Serial.Reopened.{opened, after, after-round}

abbrev params : Params
params = record {
  baudrate = 9600;
  databits = 8;
  parity = parity_none;
  stopbits = stopbit_1;
  handshake = flowctrl_none;
}

-- One stop bit has the system's number 0.
stop_bits_one : (dcb_of params).stop_bits ≡ 0
unfolding dcb_of
stop_bits_one = refl

abbrev all_right : Answers
all_right = record {
  create_file = true;
  accepts = λ dcb. true;
  set_timeouts = true;
  begin_thread = true;
}

-- A port that is open.
abbrev port : Serial
port = record (init params) { com_handle = true; thread_handle = true }

open_layer_lem_example :
    (let (s', out, ok) = open_layer all_right true (init params) (some (67 ∷ [])) in
      (ok ≡ true)
      × (s'.com_handle ≡ true)
      × (s'.thread_handle ≡ true)
      × ((s'.tx_busy && true) ≡ false))
unfolding init
open_layer_lem_example = open_layer_lem all_right (init params) 67 []

run-pending_example :
    pending port + (run port (put write_pending 1 [] ∷ wake read_pending (transmit true) ∷ [])).1
    ≡ (run port (put write_pending 1 [] ∷ wake read_pending (transmit true) ∷ [])).2
      + pending (run port (put write_pending 1 [] ∷ wake read_pending (transmit true) ∷ [])).0
unfolding init send is_accepted
run-pending_example =
    run-pending port (put write_pending 1 [] ∷ wake read_pending (transmit true) ∷ [])
      (tt, (refl, tt))

after-round_example :
    ((round read_pending terminate
        (after (close port).0 (opened all_right true (some (67 ∷ [])) ∷ []))).2
      ≡ false)
    × (reports
          (round read_pending terminate
            (after (close port).0 (opened all_right true (some (67 ∷ [])) ∷ []))).1
        ≡ 0)
unfolding init
after-round_example =
    after-round port (opened all_right true (some (67 ∷ [])) ∷ []) read_pending terminate refl
      (λ e. refl)
