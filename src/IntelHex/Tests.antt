-- ===== src/IntelHex/Tests.antt =====
-- Runs of prot_intel_hex.h, and its theorem at a concrete file.
use decom.Base.{ℕ, List, [], ◌∷◌, true, false, ◌≡◌, refl, some, arith}
use decom.Layer.{eid_any, eid_of_port, to_lower, tx_done}
use decom.Util.{hex2int, hex_from}
use decom.IntelHex.Reader.{
  IntelHex, start_code_st, Lower, in_state, in_data, in_checksum, process_record, back_to_start,
  take_char, go_on, send_loop, send_data, send_eof, finish, send, indication,
}
use decom.IntelHex.Text.{HexRecord, data_record, linear_address, file_text, sent}
use decom.IntelHex.Delivery.{send-file_text}

abbrev reader : IntelHex
reader = record {
  state = start_code_st;
  data_ = [];
  hex0 = 0;
  hex1 = 0;
  nibble = false;
  address = 0;
  offset = 0;
  byte_count = 0;
  record_type = 0;
  checksum = 0;
  tx_eof = false;
  tx_status = tx_done;
}

abbrev willing : Lower
willing bytes id = some tx_done

-- The line `:00000001FF` of the format's description
eof_text :
    file_text [] ≡ 0x3A ∷ 0x30 ∷ 0x30 ∷ 0x30 ∷ 0x30 ∷ 0x30 ∷ 0x30 ∷ 0x30 ∷ 0x31 ∷ 0x46 ∷ 0x46 ∷ []
eof_text = refl

-- Two records, each with a line end before it.
abbrev small_file : List (List ℕ × HexRecord)
small_file =
    (13 ∷ 10 ∷ [], linear_address 0x0801) ∷ (10 ∷ [], data_record 0x10 (0xDE ∷ 0xAD ∷ [])) ∷ []

small_file_sent :
    (send willing reader (file_text small_file) eid_any).2
    ≡ to_lower (0xDE ∷ 0xAD ∷ []) (eid_of_port 0x08010010) true
      ∷ to_lower [] (eid_of_port 0) false
      ∷ []
unfolding send finish send_loop go_on take_char in_state in_data in_checksum back_to_start
    process_record send_eof send_data indication hex2int hex_from
small_file_sent = refl

send-file_text_example :
    (s' : IntelHex) × (send willing reader (file_text small_file) eid_any
      ≡ (s', true, sent 0 small_file))
send-file_text_example =
    send-file_text willing reader small_file 0 eid_any (λ bytes id. refl)
      (record { state = refl; base = refl; read = refl })
      (
        ((λ e. omega (arith, e)), ((λ e. omega (arith, e)), tt)),
        omega arith,
        (
          ((λ e. omega (arith, e)), tt),
          (omega arith, omega arith, (omega arith, (omega arith, tt))),
          tt,
        ),
      )
