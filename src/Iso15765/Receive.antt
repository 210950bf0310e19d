-- ===== src/Iso15765/Receive.antt =====
-- prot_iso15765.h: the handlers that receive. The lower layer's answer to a flow control frame is
-- not looked at by the code.
use decom.Base.{
  ℕ, ◌+◌, ◌-◌, ◌*◌, ◌%◌, ◌^◌, Bool, false, not, ◌&&◌, ◌||◌, none, some, List, [], ◌∷◌, ◌++◌, ltb,
  leb, ◌==◌, length, drop, if◌then◌else◌,
}
use decom.Layer.{Eid, Effect, to_lower, to_upper, indicate, rx_error}
use decom.Iso15765.Types.{
  Iso, npci_single_frame, npci_first_frame, npci_consecutive_frame, npci_flow_control,
  sf_datalength, ff_datalength, fc_datalength, fc_cts, n_cr, low_nibble, high_nibble, byte_at,
  resize, addressed, padded,
}
use decom.Iso15765.Transmit.{drop_frame}

-- `send_FC`
unfoldable pub send_fc : Iso → ℕ → Eid → Iso × List Effect
send_fc s fs id =
    let fc =
      padded s (addressed s ((npci_flow_control + low_nibble fs) ∷ s.cf_bs ∷ s.cf_stmin ∷ [])) in
    (record s { tx_frame = npci_flow_control }, to_lower fc id false ∷ [])

unfoldable pub receive_single : Iso → List ℕ → Eid → Iso × List Effect
receive_single s bytes id =
    let s' = record s { cf_dl = 0 } in
    let sf_dl = low_nibble (byte_at bytes 0) in
    if ltb (sf_datalength s.use_ext_adr) sf_dl || leb (length bytes) sf_dl
    then (s', indicate rx_error id ∷ [])
    else (s', to_upper (resize sf_dl (drop 1 bytes)) id false ∷ [])

unfoldable pub receive_first : Iso → List ℕ → Eid → Iso × List Effect
receive_first s bytes id =
    let dl = low_nibble (byte_at bytes 0) * 2 ^ 8 + byte_at bytes 1 in
    if ltb dl (ff_datalength s.use_ext_adr + 2)
    then (drop_frame s, indicate rx_error id ∷ [])
    else if ltb s.cf_max_dl dl
    then (drop_frame s, indicate rx_error id ∷ [])
    else let s' = record s {
      cf_dl = dl;
      cf_frame = resize (ff_datalength s.use_ext_adr) (drop 2 bytes);
      cf_sn = 1;
      cf_bs_cnt = 0;
    } in
      let (s'', out) = send_fc s' fc_cts id in (record s'' { timer_rx_cf = some n_cr }, out)

-- A consecutive frame with the expected sequence number: its data are appended.
unfoldable pub take_consecutive : Iso → List ℕ → Eid → Iso × List Effect
take_consecutive s bytes id =
    let frame = s.cf_frame ++ drop 1 bytes in
    let s' = record s { cf_sn = (s.cf_sn + 1) % 16; cf_frame = frame } in
    if leb s.cf_dl (length frame)
    then (drop_frame s', to_upper (resize s.cf_dl frame) id false ∷ [])
    else if s.cf_bs == 0
    then (record s' { timer_rx_cf = some n_cr }, [])
    else let cnt = (s.cf_bs_cnt + 1) % 2 ^ 8 in
      if leb s.cf_bs cnt
      then (let (s'', out) = send_fc (record s' { cf_bs_cnt = 0 }) fc_cts id in
          (record s'' { timer_rx_cf = some n_cr }, out))
      else (record s' { cf_bs_cnt = cnt; timer_rx_cf = some n_cr }, [])

-- `SN != CF_SN_ - 1U` in unsigned arithmetic
abbrev pub not_previous : ℕ → ℕ → Bool
not_previous sn cf_sn = not (sn == (cf_sn + (2 ^ 32 - 1)) % 2 ^ 32)

unfoldable pub receive_consecutive : Iso → List ℕ → Eid → Iso × List Effect
receive_consecutive s bytes id =
    let s' = record s { timer_rx_cf = none } in
    let sn = low_nibble (byte_at bytes 0) in
    if s.cf_dl == 0
    then (s', indicate rx_error id ∷ [])
    else if sn == s.cf_sn
    then take_consecutive s' bytes id
    else if not_previous sn s.cf_sn || (sn == 0x0F && s.cf_sn == 0)
    then (s', [])
    else (drop_frame s', indicate rx_error id ∷ [])

unfoldable pub receive_flow_control : Iso → List ℕ → Eid → Iso × List Effect
receive_flow_control s bytes id =
    let s' = record s { timer_tx_fc = none } in
    if ltb (length bytes) fc_datalength
    then (s', indicate rx_error id ∷ [])
    else if ltb 1 (low_nibble (byte_at bytes 0))
    then (s', indicate rx_error id ∷ [])
    else let fs = byte_at bytes 0 % 2 in
      let s'' = record s' {
        fc_fs = fs;
        fc_bs = byte_at bytes 1;
        fc_stmin = byte_at bytes 2;
        cf_bs_cnt = 0;
      } in
      (if fs == 0 then record s'' { timer_tx_cf = some (byte_at bytes 2) } else s'', [])

-- The switch over the frame type, behind the check of the address.
unfoldable pub receive_frame : Iso → List ℕ → Eid → Iso × List Effect
receive_frame s bytes id =
    let npci = high_nibble (byte_at bytes 0) in
    if npci == npci_single_frame
    then receive_single s bytes id
    else if npci == npci_first_frame
    then receive_first s bytes id
    else if npci == npci_consecutive_frame
    then receive_consecutive s bytes id
    else if npci == npci_flow_control
    then receive_flow_control s bytes id
    else (s, indicate rx_error id ∷ [])

unfoldable pub receive : Iso → List ℕ → Eid → Iso × List Effect
receive s bytes id =
    if s.use_ext_adr
    then (if byte_at bytes 0 == s.ext_source_adr
        then receive_frame s (drop 1 bytes) id
        else (s, []))
    else receive_frame s bytes id
