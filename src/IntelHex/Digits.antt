-- ===== src/IntelHex/Digits.antt =====
-- prot_intel_hex.h: what two hexadecimal digits of the text do to the reader.
use decom.Base.{ℕ, ◌+◌, ◌/◌, ◌%◌, ◌^◌, ◌<◌, ◌≡◌, refl, false, List, ◌++◌, ◌==◌, arith}
use decom.Util.{hex2int, hex_from, digit_value}
use decom.IntelHex.Reader.{IntelHex, Lower, colon, in_state, take_char, go_on, send_loop}
use decom.IntelHex.Text.{hex_digit, byte_text}

pub digit_value-hex_digit : (n : ℕ) → n < 16 → digit_value (hex_digit n) ≡ n
digit_value-hex_digit n h = ground arith

hex_digit_ne_zero : (n : ℕ) → (hex_digit n == 0) ≡ false
hex_digit_ne_zero n = ground arith

hex_digit_ne_colon : (n : ℕ) → n < 16 → (hex_digit n == colon) ≡ false
hex_digit_ne_colon n h = ground arith

pub hex2int-byte_text : (b : ℕ) → b < 256 → hex2int (byte_text b) ≡ b
unfolding hex2int hex_from
hex2int-byte_text b h =
    rw
      (
        hex_digit_ne_zero (b / 16),
        hex_digit_ne_zero (b % 16),
        digit_value-hex_digit (b / 16) (omega arith),
        digit_value-hex_digit (b % 16) (omega arith),
      )
      (omega arith)

-- The reader's state after the two digits of `b`.
abbrev pub got : IntelHex → ℕ → IntelHex
got s b = record s {
  hex0 = hex_digit (b / 16);
  hex1 = hex_digit (b % 16);
  nibble = false;
  checksum = (s.checksum + b) % 2 ^ 8;
}

pub send_loop-byte_text :
    (lower : Lower) (s : IntelHex) (b : ℕ) (text : List ℕ)
    → s.nibble ≡ false
    → b < 256
    → send_loop lower s (byte_text b ++ text)
      ≡ go_on
          (in_state s.state lower (got s b) (hex_digit (b % 16)) b)
          (λ s'. send_loop lower s' text)
unfolding send_loop take_char go_on
send_loop-byte_text lower s b text even h =
    rw
      (send_loop, take_char, even, hex_digit_ne_colon (b / 16) (omega arith), hex2int-byte_text b h)
      refl
