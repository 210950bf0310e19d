-- ===== src/IntelHex/Delivery.antt =====
-- prot_intel_hex.h: `send` on the text of a whole file.
use decom.Base.{
  ℕ, ◌+◌, ◌*◌, ◌/◌, ◌%◌, ◌^◌, ◌≡◌, ◌≢◌, refl, ap, ◌∙◌, true, false, not, ◌||◌, none, some, List, [],
  ◌∷◌, ◌++◌, ◌==◌, if◌then◌else◌, arith, ==_ne, Bool-cases, inl, inr, All,
}
use decom.Layer.{Eid, tx_done}
use decom.Util.{hex2int}
use decom.IntelHex.Reader.{
  byte_count_st, IntelHex, start_code_st, Lower, Step, colon, in_state, take_char, go_on, send_loop,
  finish, send,
}
use decom.IntelHex.Text.{
  start_code, HexRecord, data_record, segment_address, linear_address, text_of, file_text,
  next_base, sent_for, sent, IsRecord, IsFile,
}
use decom.IntelHex.Record.{IsWaiting}
use decom.IntelHex.File.{send_loop-record}
use decom.IntelHex.Process.{
  Confirms, process_record-data, process_record-segment, process_record-linear, process_record-eof,
}

-- One record of a file.
send_loop-text_of :
    (lower : Lower) (confirms : Confirms lower) (s : IntelHex) (r : HexRecord) (base : ℕ)
    (text : List ℕ)
    → IsWaiting base s
    → IsRecord r
    → (s' : IntelHex) × IsWaiting (next_base base r) s'
      × (send_loop lower s (text_of r ++ text)
          ≡ go_on (s', none, sent_for base r) (λ s''. send_loop lower s'' text))
send_loop-text_of lower confirms s (data_record offset bytes) base text w (ho, hl, all) =
    let (s', whole, e) =
      send_loop-record {type = 0} {offset = offset} lower s bytes text w ho hl (omega arith) all in
    (
      record s' { tx_eof = false; tx_status = tx_done; data_ = []; state = start_code_st },
      record { state = refl; base = whole.base; read = refl },
      e
          ∙ ap (λ st. go_on st (λ s''. send_loop lower s'' text))
              (process_record-data lower confirms s' whole),
    )
send_loop-text_of lower confirms s (segment_address a) base text w ha =
    let (s', whole, e) =
      send_loop-record {type = 2} {offset = 0} lower s ((a / 256) ∷ (a % 256) ∷ []) text w
        (omega arith) (omega arith) (omega arith) (omega arith, (omega arith, tt)) in
    (
      record s' {
        address = ((a / 256) * 2 ^ 12 + (a % 256) * 2 ^ 4) % 2 ^ 32;
        data_ = [];
        state = start_code_st;
      },
      record { state = refl; base = omega arith; read = refl },
      e
          ∙ ap (λ st. go_on st (λ s''. send_loop lower s'' text))
              (process_record-segment lower confirms s' (a / 256) (a % 256) whole),
    )
send_loop-text_of lower confirms s (linear_address a) base text w ha =
    let (s', whole, e) =
      send_loop-record {type = 4} {offset = 0} lower s ((a / 256) ∷ (a % 256) ∷ []) text w
        (omega arith) (omega arith) (omega arith) (omega arith, (omega arith, tt)) in
    (
      record s' {
        address = ((a / 256) * 2 ^ 24 + (a % 256) * 2 ^ 16) % 2 ^ 32;
        data_ = [];
        state = start_code_st;
      },
      record { state = refl; base = omega arith; read = refl },
      e
          ∙ ap (λ st. go_on st (λ s''. send_loop lower s'' text))
              (process_record-linear lower confirms s' (a / 256) (a % 256) whole),
    )

-- The digits after one more character, and the checksum with it.
abbrev moved : IntelHex → ℕ → IntelHex
moved s c = record s { hex0 = s.hex1; hex1 = c; nibble = not s.nibble }

abbrev taken : IntelHex → ℕ → IntelHex
taken s c = record (moved s c) { checksum = (s.checksum + hex2int (s.hex1 ∷ c ∷ [])) % 2 ^ 8 }

-- A character between two records is skipped.
take_char-gap :
    (lower : Lower) (s : IntelHex) (c base : ℕ)
    → IsWaiting base s
    → c ≢ start_code
    → (s' : IntelHex) × IsWaiting base s' × (take_char lower s c ≡ (s', none, []))
unfolding take_char in_state
take_char-gap lower s c base w ne = elim (Bool-cases s.nibble) [
  | inl odd ↦ (
    taken s c,
    record { state = w.state; base = w.base; read = w.read },
    ap
          (λ b.
            if b || c == colon
            then in_state s.state lower (taken s c) c (hex2int (s.hex1 ∷ c ∷ []))
            else (moved s c, none, []))
          odd
        ∙ ap (λ st. in_state st lower (taken s c) c (hex2int (s.hex1 ∷ c ∷ []))) w.state
        ∙ ap
            (λ b.
              if b
              then (
                record (taken s c) { nibble = false; checksum = 0; state = byte_count_st },
                none,
                [],
              )
              else (taken s c, none, []))
            (==_ne c colon ne),
  )
  | inr even ↦ (
    moved s c,
    record { state = w.state; base = w.base; read = w.read },
    ap
        (λ b.
          if b
          then in_state s.state lower (taken s c) c (hex2int (s.hex1 ∷ c ∷ []))
          else (moved s c, none, []))
        (ap (λ b. b || c == colon) even ∙ ==_ne c colon ne),
  )
]

-- What stands between two records is skipped.
send_loop-gap :
    (lower : Lower) (s : IntelHex) (gap : List ℕ) (base : ℕ) (text : List ℕ)
    → IsWaiting base s
    → All (λ c. c ≢ start_code) gap
    → (s' : IntelHex) × IsWaiting base s'
      × (send_loop lower s (gap ++ text) ≡ send_loop lower s' text)
unfolding send_loop go_on
send_loop-gap lower s [] base text w none_there = (s, w, refl)
send_loop-gap lower s (c ∷ gap) base text w (ne, none_there) =
    let (s1, w1, skips) = take_char-gap lower s c base w ne in
    let (s', w', e) = send_loop-gap lower s1 gap base text w1 none_there in
    (s', w', ap (λ st. go_on st (λ s''. send_loop lower s'' (gap ++ text))) skips ∙ e)

-- The loop of `send` on the text of a file.
send_loop-file_text :
    (lower : Lower) (confirms : Confirms lower) (s : IntelHex) (lines : List (List ℕ × HexRecord))
    (base : ℕ)
    → IsWaiting base s
    → IsFile lines
    → (s' : IntelHex) × (send_loop lower s (file_text lines) ≡ (s', some true, sent base lines))
unfolding go_on
send_loop-file_text lower confirms s [] base w valid =
    let (s', whole, e) =
      send_loop-record {type = 1} {offset = 0} lower s [] [] w (omega arith) (omega arith)
        (omega arith) tt in
    (
      record s' { tx_eof = true },
      e
          ∙ ap (λ st. go_on st (λ s''. send_loop lower s'' []))
              (process_record-eof lower confirms s' whole),
    )
send_loop-file_text lower confirms s ((gap, r) ∷ lines) base w (skip, valid, rest) =
    let (s1, w1, e1) = send_loop-gap lower s gap base (text_of r ++ file_text lines) w skip in
    let (s2, w2, e2) = send_loop-text_of lower confirms s1 r base (file_text lines) w1 valid in
    let (s3, e3) = send_loop-file_text lower confirms s2 lines (next_base base r) w2 rest in
    (s3, e1 ∙ e2 ∙ ap (λ (st : Step). (st.0, st.1, sent_for base r ++ st.2)) e3)

-- The text of an Intel HEX file of data records, segment address records and linear address records
-- and of the end-of-file record, with anything but start codes between the records, is given in one
-- message to a layer that waits for a record, over a lower layer that accepts and confirms every
-- message. Then `send` returns true, and has sent the bytes of each data record in order, addressed
-- by the record's offset from the last base address, and at the end an empty last message.
pub send-file_text :
    (lower : Lower) (s : IntelHex) (lines : List (List ℕ × HexRecord)) (base : ℕ) (id : Eid)
    → Confirms lower
    → IsWaiting base s
    → IsFile lines
    → (s' : IntelHex) × (send lower s (file_text lines) id ≡ (s', true, sent base lines))
unfolding send finish
send-file_text lower s lines base id confirms w valid =
    let (s', e) = send_loop-file_text lower confirms s lines base w valid in
    (s', ap (λ st. finish st id) e)
