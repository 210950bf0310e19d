-- ===== src/Iso15765/Single.antt =====
-- A transfer of prot_iso15765.h in a single frame, from `send` to delivery.
use decom.Base.{
  ℕ, ◌+◌, ◌-◌, ◌≤◌, ◌≡◌, refl, ap, ◌∙◌, true, false, List, [], ◌∷◌, ◌++◌, ltb, leb, length,
  replicate, arith, append-nil, length-append, take_all, take-append_le,
}
use decom.Layer.{Eid, to_lower, to_upper, indicate, tx_done}
use decom.Iso15765.Types.{
  Iso, npci_single_frame, npci_invalid, sf_datalength, low_nibble, high_nibble, resize, addressed,
  padded,
}
use decom.Iso15765.Transmit.{on_tx_done, indication, send, send_single}
use decom.Iso15765.Receive.{receive_single, receive_frame, receive}
use decom.Iso15765.Transfer.{Tuned, receive-addressed, padded-addressed, pad_length}

-- The frame of a short message, without the address.
abbrev short_frame : List ℕ → List ℕ
short_frame bytes = (npci_single_frame + low_nibble (length bytes)) ∷ bytes

-- Two layers that are ready for a transfer of `bytes` from `a` to `b` in one frame.
pub record IsShort (bytes : List ℕ) (a b : Iso) : Type 0 where
  pub there : Tuned a b
  pub idle : a.tx_frame ≡ npci_invalid
  pub short : length bytes ≤ sf_datalength a.use_ext_adr
  pub sendable : length bytes ≤ a.cf_max_dl

resize-append : (bytes zeros : List ℕ) → resize (length bytes) (bytes ++ zeros) ≡ bytes
resize-append bytes zeros =
    rw
      (
        take-append_le (length bytes) bytes zeros (omega arith),
        take_all (length bytes) bytes (omega arith),
        none_missing,
      )
      (append-nil bytes)
  where
    none_missing : length bytes - length (bytes ++ zeros) ≡ 0
    none_missing = omega (arith, length-append bytes zeros)

module _ {bytes : List ℕ} {a b : Iso} (r : IsShort bytes a b) (id : Eid) where
  short-le : length bytes ≤ 7
  short-le = ground (arith, r.short)

  receive_single-short :
      (zeros : List ℕ)
      → receive_frame b (short_frame bytes ++ zeros) id
        ≡ (record b { cf_dl = 0 }, to_upper bytes id false ∷ [])
  unfolding receive_frame receive_single
  receive_single-short zeros =
      rw (receive_frame, npci, receive_single, sf_dl, fits, all_there, resize-append bytes zeros)
        refl
    where
      npci : high_nibble (npci_single_frame + low_nibble (length bytes)) ≡ 0
      npci = omega arith

      sf_dl : low_nibble (npci_single_frame + low_nibble (length bytes)) ≡ length bytes
      sf_dl = omega (arith, short-le)

      fits : ltb (sf_datalength b.use_ext_adr) (length bytes) ≡ false
      fits = rw r.there.mode (ground (arith, r.short))

      all_there : leb (length (short_frame bytes ++ zeros)) (length bytes) ≡ false
      all_there = ground (arith, length-append bytes zeros)

  receive-short :
      receive b (padded a (addressed a (short_frame bytes))) id
      ≡ (record b { cf_dl = 0 }, to_upper bytes id false ∷ [])
  receive-short =
      ap (λ f. receive b f id) (padded-addressed a (short_frame bytes))
      ∙ receive-addressed (short_frame bytes ++ replicate (pad_length a (short_frame bytes)) 0) id
          r.there
      ∙ receive_single-short (replicate (pad_length a (short_frame bytes)) 0)

  send-short : send true a bytes id ≡ (
    record a { tx_frame = npci_single_frame },
    true,
    to_lower (padded a (addressed a (short_frame bytes))) id false ∷ [],
  )
  unfolding send send_single
  send-short = rw (send, fits, r.idle, single, send_single) refl
    where
      fits : ltb a.cf_max_dl (length bytes) ≡ false
      fits = ground (arith, r.sendable)

      single : leb (length bytes) (sf_datalength a.use_ext_adr) ≡ true
      single = ground (arith, r.short)

-- A message that fits a single frame, and may be empty, is accepted by an idle sender, which hands one
-- frame down. A tuned receiver that gets the frame delivers exactly the message, and ends an own
-- reception. When the lower layer confirms the frame, the sender reports tx_done and is idle again.
-- This holds under normal and under extended addressing, with and without padding.
pub single_round_trip :
    (bytes : List ℕ) (a b : Iso) (id : Eid)
    → IsShort bytes a b
    → (frame : List ℕ) × (send true a bytes id
        ≡ (record a { tx_frame = npci_single_frame }, true, to_lower frame id false ∷ []))
      × (receive b frame id ≡ (record b { cf_dl = 0 }, to_upper bytes id false ∷ []))
      × (indication (record a { tx_frame = npci_single_frame }) tx_done id
          ≡ (record a { tx_frame = npci_invalid }, indicate tx_done id ∷ []))
unfolding indication on_tx_done
single_round_trip bytes a b id r =
    (padded a (addressed a (short_frame bytes)), send-short r id, receive-short r id, refl)
