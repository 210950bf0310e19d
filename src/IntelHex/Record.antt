-- ===== src/IntelHex/Record.antt =====
-- prot_intel_hex.h: what the text of one record does to the reader.
use decom.Base.{
  total, ℕ, suc, ◌+◌, ◌*◌, ◌%◌, ◌^◌, ◌<◌, ◌≡◌, refl, ap, sym, ◌∙◌, false, List, [], ◌∷◌, ◌++◌, ◌==◌,
  length, arith, ==_ne, Bool-cases, inl, inr, snoc, All, append_assoc, append-nil,
}
use decom.IntelHex.Reader.{
  IntelHex, start_code_st, byte_count_st, offset1_st, offset2_st, record_type_st, data_st, Lower,
  in_state, in_data, take_char, go_on, send_loop,
}
use decom.IntelHex.Text.{byte_text, bytes_text, start_code}
use decom.IntelHex.Digits.{got, send_loop-byte_text}

-- The reader is inside a record: `count` data bytes are missing, and the bytes so far sum up to `sum`.
pub record Reading (type offset address count sum : ℕ) (bytes : List ℕ) (s : IntelHex)
    : Type 0 where
  pub state : s.state ≡ data_st
  pub even : s.nibble ≡ false
  pub type_read : s.record_type ≡ type
  pub offset_read : s.offset ≡ offset
  pub base : s.address ≡ address
  pub missing : s.byte_count ≡ count
  pub summed : s.checksum ≡ sum % 256
  pub read : s.data_ ≡ bytes

-- The reader waits for a record, with the base address `address`.
pub record IsWaiting (address : ℕ) (s : IntelHex) : Type 0 where
  pub state : s.state ≡ start_code_st
  pub base : s.address ≡ address
  pub read : s.data_ ≡ []

send_loop-start_code :
    (lower : Lower) (s : IntelHex) (text : List ℕ)
    → s.state ≡ start_code_st
    → send_loop lower s (start_code ∷ text)
      ≡ send_loop lower
          (record s {
            hex0 = s.hex1;
            hex1 = start_code;
            nibble = false;
            checksum = 0;
            state = byte_count_st;
          })
          text
unfolding send_loop take_char go_on in_state
send_loop-start_code lower s text start = elim (Bool-cases s.nibble) [
  | inl odd ↦ rw (send_loop, take_char, odd, start) refl
  | inr even ↦ rw (send_loop, take_char, even, start) refl
]

-- The reader behind the four bytes of a record's head.
abbrev pub headed : IntelHex → (count o1 o2 type : ℕ) → IntelHex
headed s count o1 o2 type =
    let s1 =
      record (got
        (record s {
          hex0 = s.hex1;
          hex1 = start_code;
          nibble = false;
          checksum = 0;
          state = byte_count_st;
        })
        count) { byte_count = count; state = offset1_st } in
    let s2 = record (got s1 o1) { offset = o1; state = offset2_st } in
    let s3 = record (got s2 o2) { offset = (o1 * 2 ^ 8 + o2) % 2 ^ 32; state = record_type_st } in
    record (got s3 type) { record_type = type; state = data_st }

pub send_loop-head :
    (lower : Lower) (s : IntelHex) (count o1 o2 type : ℕ) (text : List ℕ)
    → s.state ≡ start_code_st
    → count < 256
    → o1 < 256
    → o2 < 256
    → type < 256
    → send_loop lower s (
        start_code
        ∷ (byte_text count ++ (byte_text o1 ++ (byte_text o2 ++ (byte_text type ++ text)))))
      ≡ send_loop lower (headed s count o1 o2 type) text
unfolding in_state go_on
send_loop-head lower s count o1 o2 type text start h h1 h2 ht =
    send_loop-start_code lower s
      (byte_text count ++ (byte_text o1 ++ (byte_text o2 ++ (byte_text type ++ text)))) start
    ∙ send_loop-byte_text lower
        (record s {
          hex0 = s.hex1;
          hex1 = start_code;
          nibble = false;
          checksum = 0;
          state = byte_count_st;
        })
        count (byte_text o1 ++ (byte_text o2 ++ (byte_text type ++ text))) refl h
    ∙ send_loop-byte_text lower s1 o1 (byte_text o2 ++ (byte_text type ++ text)) refl h1
    ∙ send_loop-byte_text lower s2 o2 (byte_text type ++ text) refl h2
    ∙ send_loop-byte_text lower s3 type text refl ht
  where
    s1 : IntelHex
    s1 =
        record (got
          (record s {
            hex0 = s.hex1;
            hex1 = start_code;
            nibble = false;
            checksum = 0;
            state = byte_count_st;
          })
          count) { byte_count = count; state = offset1_st }

    s2 : IntelHex
    s2 = record (got s1 o1) { offset = o1; state = offset2_st }

    s3 : IntelHex
    s3 = record (got s2 o2) { offset = (o1 * 2 ^ 8 + o2) % 2 ^ 32; state = record_type_st }

-- One data byte.
abbrev stored : IntelHex → ℕ → IntelHex
stored s b = record (got s b) { byte_count = (s.byte_count + 255) % 2 ^ 8; data_ = snoc s.data_ b }

module _ {type offset address : ℕ} where
  send_loop-data_byte :
      (lower : Lower) (s : IntelHex) (b count sum : ℕ) (bytes text : List ℕ)
      → Reading type offset address (suc count) sum bytes s
      → b < 256
      → send_loop lower s (byte_text b ++ text) ≡ send_loop lower (stored s b) text
  unfolding in_state in_data go_on
  send_loop-data_byte lower s b count sum bytes text r h =
      send_loop-byte_text lower s b text r.even h ∙ rw (r.state, in_state, in_data, some_left) refl
    where
      some_left : (s.byte_count == 0) ≡ false
      some_left = rw r.missing (==_ne (suc count) 0 (λ e. omega (arith, e)))

  stored-Reading :
      (s : IntelHex) (b count sum : ℕ) (bytes : List ℕ)
      → Reading type offset address (suc count) sum bytes s
      → suc count < 256
      → Reading type offset address count (sum + b) (snoc bytes b) (stored s b)
  stored-Reading s b count sum bytes r h = record {
    state = r.state;
    even = refl;
    type_read = r.type_read;
    offset_read = r.offset_read;
    base = r.base;
    missing = omega (arith, r.missing);
    summed = omega (arith, r.summed);
    read = ap (λ bs. snoc bs b) r.read;
  }

  -- All data bytes.
  pub send_loop-data :
      (lower : Lower) (s : IntelHex) (more : List ℕ) (sum : ℕ) (bytes text : List ℕ)
      → Reading type offset address (length more) sum bytes s
      → length more < 256
      → All (λ b. b < 256) more
      → (s' : IntelHex) × Reading type offset address 0 (sum + total more) (bytes ++ more) s'
        × (send_loop lower s (bytes_text more ++ text) ≡ send_loop lower s' text)
  send_loop-data lower s [] sum bytes text r h all = (s, rw (append-nil, zero_right) r, refl)
    where
      zero_right : sum + 0 ≡ sum
      zero_right = omega arith
  send_loop-data lower s (b ∷ more) sum bytes text r h (hb, all) =
      let (s', r', e) =
        send_loop-data lower (stored s b) more (sum + b) (snoc bytes b) text
          (stored-Reading s b (length more) sum bytes r h) (omega arith) all in
      (
        s',
        rw (sum_assoc, sym (append_assoc bytes (b ∷ []) more)) r',
        send_loop-data_byte lower s b (length more) sum bytes (bytes_text more ++ text) r hb ∙ e,
      )
    where
      sum_assoc : sum + (b + total more) ≡ (sum + b) + total more
      sum_assoc = omega arith
