-- ===== src/Sntp/Offset.antt =====
-- dev_sntp.h: the offset of the clock and the round trip that an answer gives.
use decom.Base.{ℕ, ◌+◌, ◌*◌, ◌%◌, ◌^◌, ◌-◌, ◌<◌, ◌≡◌, refl, ◌∙◌, arith}
use decom.Sntp.Time.{Fixpt, sub}
use decom.Sntp.Client.{Header, offset, round_trip}
use decom.Sntp.Arith.{value, IsFixpt, add-value, sub-value, sub-IsFixpt}

offset-value :
    (h : Header) (dest : Fixpt)
    → IsFixpt h.orig_timestamp
    → IsFixpt h.recv_timestamp
    → IsFixpt h.send_timestamp
    → IsFixpt dest
    → value (offset h dest)
      ≡ ((value h.recv_timestamp + 2 ^ 64 - value h.orig_timestamp) % 2 ^ 64
          + (value h.send_timestamp + 2 ^ 64 - value dest) % 2 ^ 64)
        % 2 ^ 64
unfolding offset
offset-value h dest ho hr hs hd =
    rw
      (
        add-value (sub h.recv_timestamp h.orig_timestamp) (sub h.send_timestamp dest)
            (sub-IsFixpt h.recv_timestamp h.orig_timestamp) (sub-IsFixpt h.send_timestamp dest),
        sub-value h.recv_timestamp h.orig_timestamp hr ho,
        sub-value h.send_timestamp dest hs hd,
      )
      refl

round_trip-value :
    (h : Header) (dest : Fixpt)
    → IsFixpt h.orig_timestamp
    → IsFixpt h.recv_timestamp
    → IsFixpt h.send_timestamp
    → IsFixpt dest
    → value (round_trip h dest)
      ≡ ((value dest + 2 ^ 64 - value h.orig_timestamp) % 2 ^ 64
          + 2 ^ 64
          - (value h.send_timestamp + 2 ^ 64 - value h.recv_timestamp) % 2 ^ 64)
        % 2 ^ 64
unfolding round_trip
round_trip-value h dest ho hr hs hd =
    rw
      (
        sub-value (sub dest h.orig_timestamp) (sub h.send_timestamp h.recv_timestamp)
            (sub-IsFixpt dest h.orig_timestamp) (sub-IsFixpt h.send_timestamp h.recv_timestamp),
        sub-value dest h.orig_timestamp hd ho,
        sub-value h.send_timestamp h.recv_timestamp hs hr,
      )
      refl

value_lt : (t : Fixpt) → IsFixpt t → value t < 2 ^ 64
value_lt t h = omega (arith, h.integer_lt, h.fraction_lt)

-- The arithmetic of an exchange between a client and a server whose clock is `ahead` of it.
module _ (o r s d ahead way pause : ℕ) (o_lt : o < 2 ^ 64) (r_is : r ≡ (o + ahead + way) % 2 ^ 64)
    (s_is : s ≡ (r + pause) % 2 ^ 64) (d_is : (d + ahead) % 2 ^ 64 ≡ (s + way) % 2 ^ 64)
    (d_lt : d < 2 ^ 64) where
  twice_ahead :
      ((r + 2 ^ 64 - o) % 2 ^ 64 + (s + 2 ^ 64 - d) % 2 ^ 64) % 2 ^ 64 ≡ (2 * ahead) % 2 ^ 64
  twice_ahead = omega arith

  twice_way :
      ((d + 2 ^ 64 - o) % 2 ^ 64 + 2 ^ 64 - (s + 2 ^ 64 - r) % 2 ^ 64) % 2 ^ 64 ≡ (2 * way) % 2 ^ 64
  twice_way = omega arith

-- If the server's clock is ahead of the client's, the request and the answer are on the way for the
-- same time, and the four stamps lie within their types and are those of these events, then the code
-- computes twice the time that the clock is ahead as the offset, and twice the time on the way as the
-- round trip, modulo 2^64 in units of 2^-32 seconds, however long the server takes to answer.
pub offset-symmetric :
    (h : Header) (dest : Fixpt) (ahead way pause : ℕ)
    → IsFixpt h.orig_timestamp
    → IsFixpt h.recv_timestamp
    → IsFixpt h.send_timestamp
    → IsFixpt dest
    → value h.recv_timestamp ≡ (value h.orig_timestamp + ahead + way) % 2 ^ 64
    → value h.send_timestamp ≡ (value h.recv_timestamp + pause) % 2 ^ 64
    → (value dest + ahead) % 2 ^ 64 ≡ (value h.send_timestamp + way) % 2 ^ 64
    → (value (offset h dest) ≡ (2 * ahead) % 2 ^ 64)
      × (value (round_trip h dest) ≡ (2 * way) % 2 ^ 64)
offset-symmetric h dest ahead way pause ho hr hs hd r_is s_is d_is =
    let o = value h.orig_timestamp in
    let r = value h.recv_timestamp in
    let s = value h.send_timestamp in
    let d = value dest in
    let o_lt = value_lt h.orig_timestamp ho in
    let d_lt = value_lt dest hd in
    (
      offset-value h dest ho hr hs hd
          ∙ twice_ahead o r s d ahead way pause o_lt r_is s_is d_is d_lt,
      round_trip-value h dest ho hr hs hd
          ∙ twice_way o r s d ahead way pause o_lt r_is s_is d_is d_lt,
    )
