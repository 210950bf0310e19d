-- ===== src/Sntp/Header.antt =====
-- dev_sntp.h: a header that is written to a message and copied out of it.
use decom.Base.{ℕ, ◌+◌, ◌*◌, ◌/◌, ◌%◌, ◌^◌, ◌<◌, ◌≡◌, refl, arith, length}
use decom.Sntp.Client.{Header, header_bytes, header_of}
use decom.Sntp.Arith.{IsFixpt}

-- The members of a header lie within their types.
pub record IsHeader (h : Header) : Type 0 where
  pub root_delay_lt : h.root_delay < 2 ^ 32
  pub root_dispersion_lt : h.root_dispersion < 2 ^ 32
  pub ref_id_lt : h.ref_id < 2 ^ 32
  pub ref_in : IsFixpt h.ref_timestamp
  pub orig_in : IsFixpt h.orig_timestamp
  pub recv_in : IsFixpt h.recv_timestamp
  pub send_in : IsFixpt h.send_timestamp

word_bytes_sum :
    (w : ℕ)
    → w < 2 ^ 32
    → w % 2 ^ 8
        + w / 2 ^ 8 % 2 ^ 8 * 2 ^ 8
        + w / 2 ^ 16 % 2 ^ 8 * 2 ^ 16
        + w / 2 ^ 24 % 2 ^ 8 * 2 ^ 24
      ≡ w
word_bytes_sum w h = omega arith

-- A header whose members lie within their types is the one that is copied out of its bytes, which are
-- as many as the shortest answer that is accepted.
pub header_of-header_bytes :
    (h : Header) → IsHeader h → (header_of (header_bytes h) ≡ h) × (length (header_bytes h) ≡ 48)
unfolding header_of header_bytes
header_of-header_bytes h v = (
  rw
      (
        word_bytes_sum h.root_delay v.root_delay_lt,
        word_bytes_sum h.root_dispersion v.root_dispersion_lt,
        word_bytes_sum h.ref_id v.ref_id_lt,
        word_bytes_sum h.ref_timestamp.integer v.ref_in.integer_lt,
        word_bytes_sum h.ref_timestamp.fraction v.ref_in.fraction_lt,
        word_bytes_sum h.orig_timestamp.integer v.orig_in.integer_lt,
        word_bytes_sum h.orig_timestamp.fraction v.orig_in.fraction_lt,
        word_bytes_sum h.recv_timestamp.integer v.recv_in.integer_lt,
        word_bytes_sum h.recv_timestamp.fraction v.recv_in.fraction_lt,
        word_bytes_sum h.send_timestamp.integer v.send_in.integer_lt,
        word_bytes_sum h.send_timestamp.fraction v.send_in.fraction_lt,
      )
      refl,
  refl,
)
