-- ===== src/Iso15765/Transmit.antt =====
-- prot_iso15765.h: the handlers that send. `lower` is the answer of the lower layer, if it is asked.
use decom.Base.{
  ℕ, ◌+◌, ◌/◌, ◌%◌, ◌^◌, Bool, true, false, not, none, some, List, [], ◌∷◌, ◌++◌, ltb, leb, ◌==◌,
  length, take, drop, if◌then◌else◌,
}
use decom.Layer.{
  Eid, eid_any, Effect, to_lower, indicate, close_lower, Status, connected, disconnected, tx_done,
  tx_error, tx_timeout, tx_overrun, rx_error, rx_timeout, rx_overrun,
}
use decom.Iso15765.Types.{
  Iso, npci_single_frame, npci_first_frame, npci_consecutive_frame, npci_invalid, sf_datalength,
  ff_datalength, cf_datalength, n_bs, low_nibble, addressed, padded,
}

-- `open`: `upper` tells that an upper layer is registered.
unfoldable pub open_layer : (upper lower : Bool) → Iso → Iso × Bool
open_layer upper lower s =
    if not upper then (s, false) else (record s { tx_frame = npci_invalid }, lower)

unfoldable pub close : Iso → Eid → Iso × List Effect
close s id =
    (record s { timer_tx_cf = none; timer_tx_fc = none; timer_rx_cf = none }, close_lower id ∷ [])

-- `CF_frame_.clear(); CF_DL_ = 0;`
abbrev pub drop_frame : Iso → Iso
drop_frame s = record s { cf_frame = []; cf_dl = 0 }

unfoldable pub send_single : (lower : Bool) → Iso → List ℕ → Eid → Iso × Bool × List Effect
send_single lower s bytes id =
    let sf = padded s (addressed s ((npci_single_frame + low_nibble (length bytes)) ∷ bytes)) in
    (record s { tx_frame = npci_single_frame }, lower, to_lower sf id false ∷ [])

-- The state when the first frame goes out.
abbrev pub start_frame : Iso → List ℕ → Eid → Iso
start_frame s bytes id = record s {
  cf_frame = bytes;
  cf_sn = 1;
  cf_dl = ff_datalength s.use_ext_adr;
  cf_size = length bytes % 2 ^ 16;
  cf_bs_cnt = 0;
  cf_eid = id;
  tx_frame = npci_first_frame;
}

abbrev pub first_frame : Iso → List ℕ → List ℕ
first_frame s bytes =
    let size = length bytes % 2 ^ 16 in
    addressed s (
      (npci_first_frame + low_nibble (size / 2 ^ 8))
      ∷ (size % 2 ^ 8)
      ∷ take (ff_datalength s.use_ext_adr) bytes)

unfoldable pub send_first : (lower : Bool) → Iso → List ℕ → Eid → Iso × Bool × List Effect
send_first lower s bytes id =
    let s' = start_frame s bytes id in
    let out = to_lower (first_frame s bytes) id false ∷ [] in
    if lower
    then (record s' { timer_tx_fc = some n_bs }, true, out)
    else (drop_frame s', false, out)

unfoldable pub send : (lower : Bool) → Iso → List ℕ → Eid → Iso × Bool × List Effect
send lower s bytes id =
    if ltb s.cf_max_dl (length bytes)
    then (s, false, [])
    else if not (s.tx_frame == npci_invalid)
    then (s, false, [])
    else if leb (length bytes) (sf_datalength s.use_ext_adr)
    then send_single lower s bytes id
    else send_first lower s bytes id

-- The bytes of the next consecutive frame.
abbrev pub consecutive_frame : Iso → List ℕ
consecutive_frame s = padded s (
    addressed s (
      (npci_consecutive_frame + low_nibble s.cf_sn)
      ∷ take (cf_datalength s.use_ext_adr) (drop s.cf_dl s.cf_frame)))

-- `send_CF`, where CF_DL_ is within the frame
unfoldable pub send_cf : (lower : Bool) → Iso → Iso × List Effect
send_cf lower s =
    let out = to_lower (consecutive_frame s) s.cf_eid false ∷ [] in
    let s' = record s { tx_frame = npci_consecutive_frame } in
    if lower then (s', out) else (drop_frame s', out ++ (indicate tx_error eid_any ∷ []))

-- `send_CF_abort`
unfoldable pub send_cf_abort : Iso → Iso × List Effect
send_cf_abort s = (drop_frame s, indicate rx_timeout eid_any ∷ [])

-- `confirm_CF`
unfoldable pub confirm_cf : Iso → Iso × Bool
confirm_cf s =
    let dl = (s.cf_dl + cf_datalength s.use_ext_adr) % 2 ^ 16 in
    let s' = record s { cf_sn = (s.cf_sn + 1) % 2 ^ 8; cf_dl = dl } in
    if leb s.cf_size dl
    then (drop_frame s', true)
    else if s.fc_bs == 0
    then (record s' { timer_tx_cf = some s.fc_stmin }, false)
    else let s'' = record s' { cf_bs_cnt = (s.cf_bs_cnt + 1) % 2 ^ 8 } in
      if leb s.fc_bs s.cf_bs_cnt
      then (record s'' { timer_tx_fc = some n_bs }, false)
      else (record s'' { timer_tx_cf = some s.fc_stmin }, false)

-- `indication` of tx_done
unfoldable pub on_tx_done : Iso → Eid → Iso × List Effect
on_tx_done s id =
    if s.tx_frame == npci_single_frame
    then (record s { tx_frame = npci_invalid }, indicate tx_done id ∷ [])
    else if s.tx_frame == npci_consecutive_frame
    then (let (s', done) = confirm_cf s in
        (record s' { tx_frame = npci_invalid }, if done then indicate tx_done id ∷ [] else []))
    else (record s { tx_frame = npci_invalid }, [])

unfoldable pub indication : Iso → Status → Eid → Iso × List Effect
indication s connected id = (s, indicate connected id ∷ [])
indication s disconnected id = (s, indicate disconnected id ∷ [])
indication s tx_done id = on_tx_done s id
indication s tx_error id = (record s { tx_frame = npci_invalid }, [])
indication s tx_timeout id = (record s { tx_frame = npci_invalid }, [])
indication s tx_overrun id = (record s { tx_frame = npci_invalid }, [])
indication s rx_error id = (record s { tx_frame = npci_invalid }, [])
indication s rx_timeout id = (record s { tx_frame = npci_invalid }, [])
indication s rx_overrun id = (record s { tx_frame = npci_invalid }, [])

-- The timers' callbacks; a timer that was started once is then no longer running.
unfoldable pub timer_func_tx_cf : (lower : Bool) → Iso → Iso × List Effect
timer_func_tx_cf lower s = send_cf lower (record s { timer_tx_cf = none })

unfoldable pub timer_func_tx_fc : Iso → Iso × List Effect
timer_func_tx_fc s = send_cf_abort (record s { timer_tx_fc = none })

unfoldable pub timer_func_rx_cf : Iso → Iso × List Effect
timer_func_rx_cf s = send_cf_abort (record s { timer_rx_cf = none })
