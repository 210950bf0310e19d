-- ===== src/IntelHex/Process.antt =====
-- prot_intel_hex.h: what the reader does with a complete record.
use decom.Base.{
  ℕ, ◌+◌, ◌*◌, ◌%◌, ◌^◌, ◌≡◌, refl, ap, ◌∙◌, true, false, none, some, List, [], ◌∷◌, get_or,
}
use decom.Layer.{Eid, tx_done, eid_of_port, to_lower}
use decom.IntelHex.Reader.{
  IntelHex, start_code_st, Lower, process_record, back_to_start, send_data, send_eof, indication,
}
use decom.IntelHex.File.{Whole}

-- The lower layer accepts and confirms every message.
abbrev pub Confirms : Lower → Type 0
Confirms lower = (bytes : List ℕ) (id : Eid) → lower bytes id ≡ some tx_done

module _ (lower : Lower) (confirms : Confirms lower) (s : IntelHex) where
  send_data-confirmed : send_data lower s ≡ (
    record s { tx_eof = false; tx_status = tx_done; data_ = [] },
    none,
    to_lower s.data_ (eid_of_port ((s.address + s.offset) % 2 ^ 32)) true ∷ [],
  )
  unfolding send_data indication
  send_data-confirmed =
      rw (send_data, confirms s.data_ (eid_of_port ((s.address + s.offset) % 2 ^ 32))) refl

  send_eof-confirmed :
      send_eof lower s
      ≡ (record s { tx_eof = true }, some true, to_lower s.data_ (eid_of_port 0) false ∷ [])
  unfolding send_eof
  send_eof-confirmed = rw (send_eof, confirms s.data_ (eid_of_port 0)) refl

  pub process_record-data :
      {offset address : ℕ} {bytes : List ℕ}
      → Whole 0 offset address bytes s
      → back_to_start (process_record lower s) ≡ (
        record s { tx_eof = false; tx_status = tx_done; data_ = []; state = start_code_st },
        none,
        to_lower bytes (eid_of_port ((address + offset) % 2 ^ 32)) true ∷ [],
      )
  unfolding process_record back_to_start
  process_record-data {offset} {address} {bytes} w =
      ap back_to_start (is_data ∙ send_data-confirmed)
      ∙ ap
          (λ f. (
            record s { tx_eof = false; tx_status = tx_done; data_ = []; state = start_code_st },
            none,
            f ∷ [],
          ))
          same
    where
      is_data : process_record lower s ≡ send_data lower s
      is_data = rw (process_record, w.type_read) refl

      same :
          to_lower s.data_ (eid_of_port ((s.address + s.offset) % 2 ^ 32)) true
          ≡ to_lower bytes (eid_of_port ((address + offset) % 2 ^ 32)) true
      same = rw (w.read, w.base, w.offset_read) refl

  pub process_record-segment :
      {offset address : ℕ} (d0 d1 : ℕ)
      → Whole 2 offset address (d0 ∷ d1 ∷ []) s
      → back_to_start (process_record lower s) ≡ (
        record s {
          address = (d0 * 2 ^ 12 + d1 * 2 ^ 4) % 2 ^ 32;
          data_ = [];
          state = start_code_st;
        },
        none,
        [],
      )
  unfolding process_record back_to_start
  process_record-segment d0 d1 w =
      ap back_to_start new_base
      ∙ ap
          (λ bytes. (
            record s {
              address = (get_or bytes 0 0xCC * 2 ^ 12 + get_or bytes 1 0xCC * 2 ^ 4) % 2 ^ 32;
              data_ = [];
              state = start_code_st;
            },
            none,
            [],
          ))
          w.read
    where
      new_base : process_record lower s ≡ (
        record s {
          address = (get_or s.data_ 0 0xCC * 2 ^ 12 + get_or s.data_ 1 0xCC * 2 ^ 4) % 2 ^ 32;
          data_ = [];
        },
        none,
        [],
      )
      new_base = simp (process_record, w.type_read) refl

  pub process_record-linear :
      {offset address : ℕ} (d0 d1 : ℕ)
      → Whole 4 offset address (d0 ∷ d1 ∷ []) s
      → back_to_start (process_record lower s) ≡ (
        record s {
          address = (d0 * 2 ^ 24 + d1 * 2 ^ 16) % 2 ^ 32;
          data_ = [];
          state = start_code_st;
        },
        none,
        [],
      )
  unfolding process_record back_to_start
  process_record-linear d0 d1 w =
      ap back_to_start new_base
      ∙ ap
          (λ bytes. (
            record s {
              address = (get_or bytes 0 0xCC * 2 ^ 24 + get_or bytes 1 0xCC * 2 ^ 16) % 2 ^ 32;
              data_ = [];
              state = start_code_st;
            },
            none,
            [],
          ))
          w.read
    where
      new_base : process_record lower s ≡ (
        record s {
          address = (get_or s.data_ 0 0xCC * 2 ^ 24 + get_or s.data_ 1 0xCC * 2 ^ 16) % 2 ^ 32;
          data_ = [];
        },
        none,
        [],
      )
      new_base = simp (process_record, w.type_read) refl

  pub process_record-eof :
      {offset address : ℕ}
      → Whole 1 offset address [] s
      → back_to_start (process_record lower s)
        ≡ (record s { tx_eof = true }, some true, to_lower [] (eid_of_port 0) false ∷ [])
  unfolding process_record back_to_start
  process_record-eof w =
      ap back_to_start (is_eof ∙ send_eof-confirmed)
      ∙ ap
          (λ bytes.
            (record s { tx_eof = true }, some true, to_lower bytes (eid_of_port 0) false ∷ []))
          w.read
    where
      is_eof : process_record lower s ≡ send_eof lower s
      is_eof = rw (process_record, w.type_read) refl
