-- ===== src/IntelHex/File.antt =====
-- prot_intel_hex.h: a whole file, read by `send` and sent to the lower layer.
use decom.Base.{
  total, ℕ, ◌+◌, ◌-◌, ◌/◌, ◌%◌, ◌^◌, ◌<◌, ◌≡◌, refl, ap, subst, ◌∙◌, true, List, [], ◌∷◌, ◌++◌,
  ◌==◌, length, arith, ==_refl, All, append_assoc,
}
use decom.IntelHex.Reader.{
  IntelHex, checksum_st, Lower, in_state, in_data, in_checksum, process_record, back_to_start,
  go_on, send_loop,
}
use decom.IntelHex.Text.{byte_text, bytes_text, record_bytes, checksum_of, record_text, start_code}
use decom.IntelHex.Digits.{got, send_loop-byte_text}
use decom.IntelHex.Record.{Reading, IsWaiting, headed, send_loop-head, send_loop-data}

-- A complete record with a right checksum has been read.
pub record Whole (type offset address : ℕ) (bytes : List ℕ) (s : IntelHex) : Type 0 where
  pub type_read : s.record_type ≡ type
  pub offset_read : s.offset ≡ offset
  pub base : s.address ≡ address
  pub read : s.data_ ≡ bytes

abbrev closed : IntelHex → ℕ → IntelHex
closed s c = record (got s c) {
  byte_count = (s.byte_count + 255) % 2 ^ 8;
  checksum = ((s.checksum + c) % 2 ^ 8 + 256 - c) % 2 ^ 8;
  state = checksum_st;
}

module _ {type offset address : ℕ} where
  send_loop-checksum :
      (lower : Lower) (s : IntelHex) (sum : ℕ) (bytes text : List ℕ)
      → Reading type offset address 0 sum bytes s
      → send_loop lower s (byte_text (checksum_of sum) ++ text)
        ≡ go_on
            (back_to_start (process_record lower (closed s (checksum_of sum))))
            (λ s'. send_loop lower s' text)
  unfolding in_state in_data in_checksum
  send_loop-checksum lower s sum bytes text r =
      send_loop-byte_text lower s (checksum_of sum) text r.even (omega arith)
      ∙ rw (r.state, in_state, in_data, in_checksum, r.missing, matches) refl
    where
      matches :
          (((s.checksum + checksum_of sum) % 2 ^ 8 + 256 - checksum_of sum) % 2 ^ 8
            == (255 - checksum_of sum + 1) % 2 ^ 8)
          ≡ true
      matches = rw same (==_refl ((255 - checksum_of sum + 1) % 2 ^ 8))
        where
          same :
              ((s.checksum + checksum_of sum) % 2 ^ 8 + 256 - checksum_of sum) % 2 ^ 8
              ≡ (255 - checksum_of sum + 1) % 2 ^ 8
          same = omega (arith, r.summed)

module _ {type offset address : ℕ} (lower : Lower) (s : IntelHex) where
  headed-Reading :
      (bytes : List ℕ)
      → IsWaiting address s
      → offset < 65536
      → length bytes < 256
      → type < 256
      → Reading type offset address
          (length bytes)
          (length bytes + (offset / 256 + (offset % 256 + type)))
          []
          (headed s (length bytes) (offset / 256) (offset % 256) type)
  headed-Reading bytes w ho hl ht = record {
    state = refl;
    even = refl;
    type_read = refl;
    offset_read = omega arith;
    base = w.base;
    missing = refl;
    summed = omega arith;
    read = w.read;
  }

  -- The text of a record makes the reader process it.
  pub send_loop-record :
      (bytes text : List ℕ)
      → IsWaiting address s
      → offset < 65536
      → length bytes < 256
      → type < 256
      → All (λ b. b < 256) bytes
      → (s' : IntelHex) × Whole type offset address bytes s'
        × (send_loop lower s (record_text type offset bytes ++ text)
            ≡ go_on (back_to_start (process_record lower s')) (λ s''. send_loop lower s'' text))
  send_loop-record bytes text w ho hl ht all =
      let (s', r, e) =
        send_loop-data lower start bytes head [] (byte_text check ++ text)
          (headed-Reading bytes w ho hl ht) hl all in
      (
        closed s' check,
        record {
          type_read = r.type_read;
          offset_read = r.offset_read;
          base = r.base;
          read = r.read;
        },
        regroup
            ∙ send_loop-head lower s (length bytes) (offset / 256) (offset % 256) type
                (bytes_text bytes ++ (byte_text check ++ text)) w.state hl (omega arith)
                (omega arith) ht
            ∙ e
            ∙ send_loop-checksum lower s' (total (record_bytes type offset bytes)) bytes text
                (subst (λ sum. Reading type offset address 0 sum bytes s') sums r),
      )
    where
      head : ℕ
      head = length bytes + (offset / 256 + (offset % 256 + type))

      check : ℕ
      check = checksum_of (total (record_bytes type offset bytes))

      start : IntelHex
      start = headed s (length bytes) (offset / 256) (offset % 256) type

      sums : head + total bytes ≡ total (record_bytes type offset bytes)
      sums = omega arith

      regroup :
          send_loop lower s (record_text type offset bytes ++ text)
          ≡ send_loop lower s (
              start_code
              ∷ (byte_text (length bytes)
                  ++ (byte_text (offset / 256)
                      ++ (byte_text (offset % 256)
                          ++ (byte_text type ++ (bytes_text bytes ++ (byte_text check ++ text)))))))
      regroup =
          ap
            (λ t. send_loop lower s (
              start_code
              ∷ (byte_text (length bytes)
                  ++ (byte_text (offset / 256)
                      ++ (byte_text (offset % 256) ++ (byte_text type ++ t))))))
            (append_assoc (bytes_text bytes) (byte_text check) text)
