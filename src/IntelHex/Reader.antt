-- ===== src/IntelHex/Reader.antt =====
-- prot_intel_hex.h: the state of the layer and its handlers.
use decom.Base.{
  ℕ, ◌+◌, ◌-◌, ◌*◌, ◌%◌, ◌^◌, Bool, true, false, not, ◌||◌, Option, none, some, List, [], ◌∷◌, ◌++◌,
  ◌==◌, get_or, if◌then◌else◌, snoc,
}
use decom.Layer.{
  Eid, eid_of_port, Effect, to_lower, indicate, close_lower, Status, connected, disconnected,
  tx_done, tx_error, tx_timeout, tx_overrun, rx_error, rx_timeout, rx_overrun,
}
use decom.Util.{hex2int}

pub data HexState : Type 0 where
  start_code_st byte_count_st offset1_st offset2_st record_type_st data_st checksum_st : HexState

-- The data members of class `intel_hex`; `hex0` and `hex1` are the two digits in `hex_`.
pub record IntelHex : Type 0 where
  pub state : HexState
  pub data_ : List ℕ
  pub hex0 : ℕ
  pub hex1 : ℕ
  pub nibble : Bool
  pub address : ℕ
  pub offset : ℕ
  pub byte_count : ℕ
  pub record_type : ℕ
  pub checksum : ℕ
  pub tx_eof : Bool
  pub tx_status : Status

-- The constructor: the members that it does not set keep what the memory held.
unfoldable pub init : IntelHex → IntelHex
init memory = record memory { data_ = []; nibble = false; address = 0; state = start_code_st }

-- `open`: `upper` tells that an upper layer is registered, `lower` is the lower layer's answer.
unfoldable pub open_layer : (upper lower : Bool) → IntelHex → IntelHex × Bool
open_layer upper lower s =
    if not upper then (s, false) else (record s { address = 0; state = start_code_st }, lower)

unfoldable pub close : IntelHex → Eid → IntelHex × List Effect
close s id = (s, close_lower id ∷ [])

abbrev pub is_tx : Status → Bool
is_tx connected = false
is_tx disconnected = false
is_tx tx_done = true
is_tx tx_error = true
is_tx tx_timeout = true
is_tx tx_overrun = true
is_tx rx_error = false
is_tx rx_timeout = false
is_tx rx_overrun = false

unfoldable pub indication : IntelHex → Status → Eid → IntelHex × List Effect
indication s code id = (
  if is_tx code then record s { tx_status = code } else s,
  if s.tx_eof then indicate code id ∷ [] else [],
)

abbrev pub is_tx_done : Status → Bool
is_tx_done connected = false
is_tx_done disconnected = false
is_tx_done tx_done = true
is_tx_done tx_error = false
is_tx_done tx_timeout = false
is_tx_done tx_overrun = false
is_tx_done rx_error = false
is_tx_done rx_timeout = false
is_tx_done rx_overrun = false

-- What a part of `send` did: it may have returned.
abbrev pub Step : Type 0
Step = IntelHex × Option Bool × List Effect

-- The lower layer: `none` if it refuses a message, or the status that it indicates for it.
abbrev pub Lower : Type 0
Lower = List ℕ → Eid → Option Status

-- `wait`, with the indication that ends it, and the test of the status
abbrev pub confirmed : IntelHex → Eid → Status → List Effect → Step
confirmed s id code out =
    let (s', up) = indication s code id in
    if is_tx_done s'.tx_status
    then (record s' { data_ = [] }, none, out ++ up)
    else (s', some false, out ++ up)

-- A data record goes out.
unfoldable pub send_data : Lower → IntelHex → Step
send_data lower s =
    let id = eid_of_port ((s.address + s.offset) % 2 ^ 32) in
    let out = to_lower s.data_ id true ∷ [] in
    let s' = record s { tx_eof = false } in
    elim (lower s.data_ id) [ none ↦ (s', some false, out) | some code ↦ confirmed s' id code out ]

-- The end-of-file record goes out.
unfoldable pub send_eof : Lower → IntelHex → Step
send_eof lower s =
    let out = to_lower s.data_ (eid_of_port 0) false ∷ [] in
    elim (lower s.data_ (eid_of_port 0)) [
      | none ↦ (record s { tx_eof = true }, some false, out)
      | some code ↦ (record s { tx_eof = true }, some true, out)
    ]

-- The switch over the type of a record with a right checksum. `data_[i]` out of range is the illegal
-- reference of `msg::at`.
unfoldable pub process_record : Lower → IntelHex → Step
process_record lower s =
    let d0 = get_or s.data_ 0 0xCC in
    let d1 = get_or s.data_ 1 0xCC in
    if s.record_type == 0x00
    then send_data lower s
    else if s.record_type == 0x01
    then send_eof lower s
    else if s.record_type == 0x02
    then (record s { address = (d0 * 2 ^ 12 + d1 * 2 ^ 4) % 2 ^ 32; data_ = [] }, none, [])
    else if s.record_type == 0x04
    then (record s { address = (d0 * 2 ^ 24 + d1 * 2 ^ 16) % 2 ^ 32; data_ = [] }, none, [])
    else (s, none, [])

-- `state_ = start_code_st`, if the switch has not returned
unfoldable pub back_to_start : Step → Step
back_to_start (s, none, out) = (record s { state = start_code_st }, none, out)
back_to_start (s, some r, out) = (s, some r, out)

unfoldable pub in_checksum : Lower → IntelHex → ℕ → Step
in_checksum lower s val =
    back_to_start
      (if s.checksum == (255 - val + 1) % 2 ^ 8 then process_record lower s else (s, none, []))

-- The fall through into `checksum_st` comes when the byte count has run down.
unfoldable pub in_data : Lower → IntelHex → ℕ → Step
in_data lower s val =
    let s' = record s { byte_count = (s.byte_count + 255) % 2 ^ 8 } in
    if s.byte_count == 0
    then in_checksum lower
        (record s' { checksum = (s.checksum + 256 - val) % 2 ^ 8; state = checksum_st }) val
    else (record s' { data_ = snoc s.data_ val }, none, [])

abbrev pub colon : ℕ
colon = 0x3A

-- The switch over the state.
unfoldable pub in_state : HexState → Lower → IntelHex → (it val : ℕ) → Step
in_state start_code_st lower s it val =
    if it == colon
    then (record s { nibble = false; checksum = 0; state = byte_count_st }, none, [])
    else (s, none, [])
in_state byte_count_st lower s it val =
    (record s { byte_count = val; state = offset1_st }, none, [])
in_state offset1_st lower s it val = (record s { offset = val; state = offset2_st }, none, [])
in_state offset2_st lower s it val =
    (record s { offset = (s.offset * 2 ^ 8 + val) % 2 ^ 32; state = record_type_st }, none, [])
in_state record_type_st lower s it val = (record s { record_type = val; state = data_st }, none, [])
in_state data_st lower s it val = in_data lower s val
in_state checksum_st lower s it val = in_checksum lower s val

-- One round of the loop in `send`.
unfoldable pub take_char : Lower → IntelHex → ℕ → Step
take_char lower s it =
    let s' = record s { hex0 = s.hex1; hex1 = it; nibble = not s.nibble } in
    let val = hex2int (s.hex1 ∷ it ∷ []) in
    if s.nibble || it == colon
    then in_state s.state lower (record s' { checksum = (s.checksum + val) % 2 ^ 8 }) it val
    else (s', none, [])

-- Go on behind a part of `send` that has not returned.
unfoldable pub go_on : Step → (IntelHex → Step) → Step
go_on (s, some r, out) k = (s, some r, out)
go_on (s, none, out) k = let (s', r, out') = k s in (s', r, out ++ out')

unfoldable pub send_loop : Lower → IntelHex → List ℕ → Step
send_loop lower s [] = (s, none, [])
send_loop lower s (it ∷ text) = go_on (take_char lower s it) (λ s'. send_loop lower s' text)

-- The end of `send`, behind its loop.
unfoldable pub finish : Step → Eid → IntelHex × Bool × List Effect
finish (s, none, out) id = (s, true, snoc out (indicate tx_done id))
finish (s, some r, out) id = (s, r, out)

unfoldable pub send : Lower → IntelHex → List ℕ → Eid → IntelHex × Bool × List Effect
send lower s text id = finish (send_loop lower s text) id
