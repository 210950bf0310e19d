-- ===== src/Sntp/Client.antt =====
-- dev_sntp.h: the header of a message, and the device's handlers. A message is the sequence of its bytes,
-- the memory is little-endian, and a reading of the clock is an argument, in microseconds since 1970.
use decom.Base.{
  ℕ, ◌+◌, ◌-◌, ◌*◌, ◌/◌, ◌%◌, ◌^◌, Bool, true, false, not, ◌&&◌, ◌||◌, Option, none, some, List, [],
  ◌∷◌, ◌++◌, ltb, leb, ◌==◌, length, get_or, if◌then◌else◌,
}
use decom.Layer.{eid_any, Effect, to_lower}
use decom.Sntp.Time.{Fixpt, is_unset, sub, add, signed, get, set, ntoh}

abbrev pub mode_server : ℕ
mode_server = 4

abbrev pub header_len : ℕ
header_len = 48

abbrev pub header_ext_len : ℕ
header_ext_len = 68

abbrev pub max_retries : ℕ
max_retries = 3

abbrev pub response_timeout : ℕ
response_timeout = 2000

abbrev pub jan_1970 : ℕ
jan_1970 = 2208988800000000

-- `ntp_header_type`; the two members of 32 bits with a point are never taken apart.
pub record Header : Type 0 where
  pub mode : ℕ
  pub stratum : ℕ
  pub poll : ℕ
  pub precision : ℕ
  pub root_delay : ℕ
  pub root_dispersion : ℕ
  pub ref_id : ℕ
  pub ref_timestamp : Fixpt
  pub orig_timestamp : Fixpt
  pub recv_timestamp : Fixpt
  pub send_timestamp : Fixpt

-- The data members of class `sntp`; the timer is the period that it was started with, or `none`.
pub record Sntp : Type 0 where
  pub ntp_header : Header
  pub timer : Option ℕ
  pub rx_ev : Bool
  pub retries : ℕ
  pub dest_timestamp : Fixpt

-- The constructor: the members that it does not set keep what the memory held.
unfoldable pub init : Sntp → Sntp
init memory = record memory { timer = none; rx_ev = false; retries = 0 }

-- The address that `open` gives to the lower layer.
unfoldable pub host : List ℕ → List ℕ
host address = address ++ 0x3A ∷ 0x31 ∷ 0x32 ∷ 0x33 ∷ []

-- A word of 32 bits in memory, and such a word read from the bytes from index `i` on.
abbrev pub word_bytes : ℕ → List ℕ
word_bytes w = w % 2 ^ 8 ∷ w / 2 ^ 8 % 2 ^ 8 ∷ w / 2 ^ 16 % 2 ^ 8 ∷ w / 2 ^ 24 % 2 ^ 8 ∷ []

abbrev pub word_at : List ℕ → ℕ → ℕ
word_at bytes i =
    get_or bytes i 0
    + get_or bytes (i + 1) 0 * 2 ^ 8
    + get_or bytes (i + 2) 0 * 2 ^ 16
    + get_or bytes (i + 3) 0 * 2 ^ 24

abbrev pub stamp_bytes : Fixpt → List ℕ
stamp_bytes t = word_bytes t.integer ++ word_bytes t.fraction

abbrev pub stamp_at : List ℕ → ℕ → Fixpt
stamp_at bytes i = record { integer = word_at bytes i; fraction = word_at bytes (i + 4) }

-- The header as the bytes of its memory, and the header that bytes are copied to.
unfoldable pub header_bytes : Header → List ℕ
header_bytes h =
    (h.mode ∷ h.stratum ∷ h.poll ∷ h.precision ∷ [])
    ++ (word_bytes h.root_delay
        ++ (word_bytes h.root_dispersion
            ++ (word_bytes h.ref_id
                ++ (stamp_bytes h.ref_timestamp
                    ++ (stamp_bytes h.orig_timestamp
                        ++ (stamp_bytes h.recv_timestamp ++ stamp_bytes h.send_timestamp))))))

unfoldable pub header_of : List ℕ → Header
header_of bytes = record {
  mode = get_or bytes 0 0;
  stratum = get_or bytes 1 0;
  poll = get_or bytes 2 0;
  precision = get_or bytes 3 0;
  root_delay = word_at bytes 4;
  root_dispersion = word_at bytes 8;
  ref_id = word_at bytes 12;
  ref_timestamp = stamp_at bytes 16;
  orig_timestamp = stamp_at bytes 24;
  recv_timestamp = stamp_at bytes 32;
  send_timestamp = stamp_at bytes 40;
}

abbrev pub zero_stamp : Fixpt
zero_stamp = record { integer = 0; fraction = 0 }

-- The header of a request.
unfoldable pub request_header : (now : ℕ) → Header
request_header now = record {
  mode = 35;
  stratum = 0;
  poll = 0;
  precision = 0;
  root_delay = 0;
  root_dispersion = 0;
  ref_id = 0;
  ref_timestamp = zero_stamp;
  orig_timestamp = zero_stamp;
  recv_timestamp = zero_stamp;
  send_timestamp = ntoh (set (now + jan_1970));
}

-- `request`; its result is what the lower layer answers.
unfoldable pub request : Sntp → (now : ℕ) → Sntp × List Effect
request s now =
    let header = request_header now in
    (
      record s { ntp_header = header; timer = some response_timeout; rx_ev = false },
      to_lower (header_bytes header) eid_any false ∷ [],
    )

-- `timeout`, the timer's callback; the lower layer's answer is not looked at.
unfoldable pub timeout : Sntp → (now : ℕ) → Sntp × List Effect
timeout s now =
    let counted = record s { retries = (s.retries + 1) % 2 ^ 8 } in
    if ltb s.retries max_retries then request counted now else (record counted { rx_ev = true }, [])

-- The basic checks of a header.
unfoldable pub is_invalid : Header → Bool
is_invalid h =
    is_unset h.ref_timestamp
    || is_unset h.orig_timestamp
    || is_unset h.recv_timestamp
    || is_unset h.send_timestamp
    || not (h.mode % 8 == mode_server)

-- `receive` reads the clock, and again if it sends another request.
unfoldable pub receive : Sntp → List ℕ → (now later : ℕ) → Sntp × List Effect
receive s bytes now later =
    let stopped = record s { timer = none; dest_timestamp = set (now + jan_1970) } in
    let copied = record stopped { ntp_header = header_of bytes } in
    if not (length bytes == header_len) && not (length bytes == header_ext_len)
    then timeout stopped later
    else if is_invalid (header_of bytes)
    then timeout copied later
    else (record copied { rx_ev = true }, [])

-- `get_time` up to the wait for the event.
unfoldable pub get_time : (lower : Bool) → Sntp → (now : ℕ) → Sntp × List Effect × Bool
get_time lower s now = let (s', out) = request (record s { retries = 0 }) now in (s', out, lower)

unfoldable pub host_order : Header → Header
host_order h = record h {
  ref_timestamp = ntoh h.ref_timestamp;
  orig_timestamp = ntoh h.orig_timestamp;
  recv_timestamp = ntoh h.recv_timestamp;
  send_timestamp = ntoh h.send_timestamp;
}

unfoldable pub round_trip : Header → (dest : Fixpt) → Fixpt
round_trip h dest = sub (sub dest h.orig_timestamp) (sub h.send_timestamp h.recv_timestamp)

-- Twice the offset of the clock.
unfoldable pub offset : Header → (dest : Fixpt) → Fixpt
offset h dest = add (sub h.recv_timestamp h.orig_timestamp) (sub h.send_timestamp dest)

-- The half of a signed number of 64 bits, rounded towards 0.
unfoldable pub half : ℕ → ℕ
half n = if ltb n (2 ^ 63) then n / 2 else (2 ^ 64 - (2 ^ 64 - n) / 2) % 2 ^ 64

-- `get_time` behind the wait: the time, as the library's `to_time_t` gives it, and the result.
unfoldable pub got_time : (to_time_t : ℕ → ℕ) → Sntp → (now : ℕ) → Sntp × ℕ × Bool
got_time to_time_t s now =
    let h = host_order s.ntp_header in
    if leb max_retries s.retries then (s, 0, false) else (
      record s { ntp_header = h },
      to_time_t ((now + half (get signed (offset h s.dest_timestamp))) % 2 ^ 64),
      true,
    )
