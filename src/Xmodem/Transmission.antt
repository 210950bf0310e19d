-- ===== src/Xmodem/Transmission.antt =====
-- A whole transmission of prot_xmodem.cpp.
use decom.Msg.Pages.{Pages}
use decom.Base.{ℕ, false, List}
use decom.Layer.{Eid}
use decom.Xmodem.Machine.{Xmodem, xmit_wait}

module _ (s : Xmodem) (bytes : List ℕ) (id : Eid) where
  -- The layer that waits for the receiver with a message.
  abbrev waiting : Xmodem
  waiting = record s {
    tx_buffer = bytes;
    tx_offset = 0;
    tx_packet_number = 1;
    tx_eid = id;
    tx_more = false;
    state = xmit_wait;
  }
