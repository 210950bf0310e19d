-- ===== src/Xmodem/Machine.antt =====
-- prot_xmodem.cpp: the state of the layer and its handlers. A handler has no result where the code
-- iterates behind the end of a message.
use decom.Msg.Pages.{Pages, kept}
use decom.Base.{
  ℕ, ◌+◌, ◌-◌, ◌%◌, ◌^◌, Bool, true, false, not, ◌&&◌, Option, none, some, List, [], ◌∷◌, ◌++◌, ltb,
  ◌==◌, length, get_or, take, drop, replicate, if◌then◌else◌, snoc,
}
use decom.Layer.{Eid, eid_any, Effect, to_lower, indicate, close_lower, Status, tx_done, tx_error}
use decom.Util.{hi_part, lo_part}

abbrev pub soh : ℕ
soh = 0x01

abbrev pub stx : ℕ
stx = 0x02

abbrev pub eot : ℕ
eot = 0x04

abbrev pub ack : ℕ
ack = 0x06

abbrev pub nak : ℕ
nak = 0x15

abbrev pub max_retries : ℕ
max_retries = 10

abbrev pub timeout_ack : ℕ
timeout_ack = 10

pub data ProtocolType : Type 0 where
  xmodem_chk xmodem_crc xmodem_1k : ProtocolType

pub data XmodemState : Type 0 where
  idle recv_wait recv xmit_wait xmit_eot xmit : XmodemState

-- The data members of class `xmodem`, without `rx_buffer_`, which the code does not use.
pub record Xmodem : Type 0 where
  pub state : XmodemState
  pub protocol_type : ProtocolType
  pub rx_msg : List ℕ
  pub tx_eid : Eid
  pub tx_offset : ℕ
  pub tx_more : Bool
  pub tx_packet_number : ℕ
  pub tx_retries : ℕ
  pub tx_buffer : List ℕ
  pub tx_block : List ℕ
  pub timer_rx : Option ℕ

-- The constructor: the members that it does not set keep what the memory held.
unfoldable pub init : Xmodem → ProtocolType → Xmodem
init memory protocol = record memory {
  protocol_type = protocol;
  state = idle;
  rx_msg = [];
  tx_eid = eid_any;
  tx_buffer = [];
  tx_block = [];
  timer_rx = none;
}

-- `open`: `upper` tells that an upper layer is registered, `lower` is the lower layer's answer.
unfoldable pub open_layer : (upper lower : Bool) → Xmodem → Xmodem × Bool
open_layer upper lower s = if not upper then (s, false) else (s, lower)

unfoldable pub close : Xmodem → Eid → Xmodem × List Effect
close s id = (record s { state = idle; timer_rx = none }, close_lower id ∷ [])

abbrev pub is_idle : XmodemState → Bool
is_idle idle = true
is_idle recv_wait = false
is_idle recv = false
is_idle xmit_wait = false
is_idle xmit_eot = false
is_idle xmit = false

abbrev pub is_xmit_wait : XmodemState → Bool
is_xmit_wait idle = false
is_xmit_wait recv_wait = false
is_xmit_wait recv = false
is_xmit_wait xmit_wait = true
is_xmit_wait xmit_eot = false
is_xmit_wait xmit = false

abbrev pub is_xmit : XmodemState → Bool
is_xmit idle = false
is_xmit recv_wait = false
is_xmit recv = false
is_xmit xmit_wait = false
is_xmit xmit_eot = false
is_xmit xmit = true

-- `send`: the buffer is a deep copy.
unfoldable pub send : Xmodem → Pages → Eid → (more : Bool) → Xmodem × Bool
send s data_ id more = if not (is_xmit_wait s.state) then (s, false) else (
  record s {
    tx_buffer = kept data_;
    tx_offset = 0;
    tx_packet_number = 1;
    tx_eid = id;
    tx_more = more;
    state = xmit_wait;
  },
  true,
)

-- `build_checksum`, the loop with the sum so far
unfoldable pub checksum_from : ℕ → List ℕ → ℕ
checksum_from sum [] = sum
checksum_from sum (b ∷ bytes) = checksum_from ((sum + b) % 2 ^ 8) bytes

-- `build_crc`: the body of its loop is empty.
unfoldable pub crc_from : ℕ → List ℕ → ℕ
crc_from crc [] = crc
crc_from crc (b ∷ bytes) = crc_from crc bytes

abbrev pub block_size : ProtocolType → ℕ
block_size xmodem_chk = 128
block_size xmodem_crc = 128
block_size xmodem_1k = 1024

-- The switch over the type: the block around its payload.
unfoldable pub frame : ProtocolType → (number : ℕ) → List ℕ → List ℕ
frame xmodem_chk number payload =
    soh ∷ number ∷ (255 - number) ∷ snoc payload (checksum_from 0 payload)
frame xmodem_crc number payload =
    let crc = crc_from 0 payload in
    soh ∷ number ∷ (255 - number) ∷ snoc (snoc payload (hi_part 8 crc)) (lo_part 8 crc)
frame xmodem_1k number payload =
    let crc = crc_from 0 payload in
    stx ∷ number ∷ (255 - number) ∷ snoc (snoc payload (hi_part 8 crc)) (lo_part 8 crc)

-- `length` in `send_block`, where the offset is not behind the end
abbrev pub payload_length : Xmodem → ℕ
payload_length s =
    let left = length s.tx_buffer - s.tx_offset in
    let size = block_size s.protocol_type in if ltb size left then size else left

-- The payload with its padding.
abbrev pub payload : Xmodem → List ℕ
payload s =
    let n = payload_length s in
    take n (drop s.tx_offset s.tx_buffer) ++ replicate (block_size s.protocol_type - n) 0

-- `send_block`. If the offset is behind the end, the difference of the sizes wraps around, and the
-- loop over a block's bytes starts behind the end.
unfoldable pub send_block : Xmodem → Option (Xmodem × List Effect)
send_block s =
    let block = frame s.protocol_type s.tx_packet_number (payload s) in
    if ltb (length s.tx_buffer) s.tx_offset
    then none
    else some (
      record s {
        tx_block = block;
        tx_offset = s.tx_offset + payload_length s;
        tx_retries = 0;
        timer_rx = some timeout_ack;
      },
      to_lower block s.tx_eid false ∷ [],
    )

-- `data.size() == 1U && data[0] == c`
abbrev pub is_single : List ℕ → ℕ → Bool
is_single bytes c = length bytes == 1 && get_or bytes 0 0xCC == c

-- An acknowledge. The assignment of `tx_packet_number_++` to `tx_packet_number_` leaves the old number.
unfoldable pub on_ack : Xmodem → Option (Xmodem × List Effect)
on_ack s =
    let ending = record s { state = xmit_eot; tx_block = eot ∷ []; timer_rx = some timeout_ack } in
    if length s.tx_buffer == s.tx_offset
    then (if not s.tx_more && is_xmit s.state
        then some (ending, to_lower (eot ∷ []) s.tx_eid false ∷ [])
        else some (s, indicate tx_done s.tx_eid ∷ []))
    else send_block s

-- Any other answer.
unfoldable pub on_failure : Xmodem → Option (Xmodem × List Effect)
on_failure s =
    let retries = (s.tx_retries + 1) % 2 ^ 8 in
    if ltb retries max_retries
    then some (
      record s { tx_retries = retries; timer_rx = some timeout_ack },
      to_lower s.tx_block s.tx_eid false ∷ [],
    )
    else some (record s { tx_retries = retries; state = idle }, indicate tx_error s.tx_eid ∷ [])

-- The switch over the state in `receive`.
unfoldable pub on_state : XmodemState → Xmodem → List ℕ → Option (Xmodem × List Effect)
on_state idle s bytes = some (s, [])
on_state recv_wait s bytes = some (record s { rx_msg = s.rx_msg ++ bytes }, [])
on_state recv s bytes = some (record s { rx_msg = s.rx_msg ++ bytes }, [])
on_state xmit_wait s bytes =
    if is_single bytes nak then send_block (record s { state = xmit }) else some (s, [])
on_state xmit_eot s bytes = if is_single bytes ack then on_ack s else on_failure s
on_state xmit s bytes = if is_single bytes ack then on_ack s else on_failure s

unfoldable pub receive : Xmodem → List ℕ → Option (Xmodem × List Effect)
receive s bytes = on_state s.state (record s { timer_rx = none }) bytes

unfoldable pub indication : Xmodem → Status → Eid → Xmodem × List Effect
indication s code id = (s, indicate code id ∷ [])

unfoldable pub start : Xmodem → (receive : Bool) → Xmodem × Bool
start s receive =
    if not (is_idle s.state)
    then (s, false)
    else if receive
    then (record s { state = recv_wait; timer_rx = some 1 }, true)
    else (record s { state = xmit_wait }, true)

-- `timer_rx_func`; the timer was started once and is then no longer running.
unfoldable pub on_timer : XmodemState → Xmodem → Xmodem × List Effect
on_timer idle s = (s, [])
on_timer recv_wait s =
    (record s { timer_rx = some timeout_ack }, to_lower (nak ∷ []) s.tx_eid false ∷ [])
on_timer recv s = (s, [])
on_timer xmit_wait s = (s, [])
on_timer xmit_eot s = (s, [])
on_timer xmit s = (s, [])

unfoldable pub timer_rx_func : Xmodem → Xmodem × List Effect
timer_rx_func s = on_timer s.state (record s { timer_rx = none })
