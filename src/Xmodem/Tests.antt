-- ===== src/Xmodem/Tests.antt =====
-- The theorems of prot_xmodem.cpp at concrete messages.
use decom.Base.{ℕ, ◌≡◌, false, none, some, List, [], ◌∷◌, replicate, arith}
use decom.Layer.{eid_any}
use decom.Xmodem.Machine.{Xmodem, xmodem_chk, recv_wait, xmit_wait, xmit_eot, nak, frame}
use decom.Xmodem.Bounds.{heard, given, timed, IsInside, run, run-IsInside}

abbrev ready : Xmodem
ready = record {
  state = xmit_wait;
  protocol_type = xmodem_chk;
  rx_msg = [];
  tx_eid = eid_any;
  tx_offset = 0;
  tx_more = false;
  tx_packet_number = 0;
  tx_retries = 0;
  tx_buffer = [];
  tx_block = [];
  timer_rx = none;
}

-- A page of two blocks, of a message of two pages; the first block is refused once, the end is refused once.
abbrev long : List ℕ
long = replicate 130 7

abbrev refused_once : List (List ℕ)
refused_once = (nak ∷ []) ∷ []

run-IsInside_example :
    (s' : Xmodem) × (run ready (given (long ∷ []) eid_any false ∷ heard (nak ∷ []) ∷ timed ∷ [])
      ≡ some s')
    × IsInside s'
run-IsInside_example =
    run-IsInside ready (given (long ∷ []) eid_any false ∷ heard (nak ∷ []) ∷ timed ∷ [])
      (omega arith)

abbrev dirty : Xmodem
dirty = record ready { tx_offset = 5 }

abbrev listening : Xmodem
listening = record ready { state = recv_wait }

abbrev first_block : List ℕ
first_block = frame xmodem_chk 1 (replicate 128 7)

abbrev finished : Xmodem
finished = record ready { state = xmit_eot; tx_buffer = 1 ∷ []; tx_offset = 1 }
