-- ===== src/Util.antt =====
-- src/util/util.h: the conversions between integers and from hexadecimal digits. A mask or a shift of
-- an unsigned value is written with `/` and `%`, an or of disjoint bits as a sum.
use decom.Base.{ℕ, ◌+◌, ◌-◌, ◌*◌, ◌/◌, ◌%◌, ◌^◌, List, [], ◌∷◌, leb, ◌==◌, if◌then◌else◌}
mod ByteOrder
mod Tests

-- `make_large`, for a `Short` of `digits` bits
abbrev pub make_large : (digits low high : ℕ) → ℕ
make_large digits low high = high * 2 ^ digits + low

-- `lo_part` and `hi_part`
abbrev pub lo_part : (digits arg : ℕ) → ℕ
lo_part digits arg = arg % 2 ^ digits

abbrev pub hi_part : (digits arg : ℕ) → ℕ
hi_part digits arg = arg / 2 ^ digits % 2 ^ digits

-- The value of one character in `hex2int`.
abbrev pub digit_value : ℕ → ℕ
digit_value c = if leb c 0x39 then c % 16 else 9 + c % 16

-- The loop of `hex2int<uint8_t>`: it stops at a zero character.
unfoldable pub hex_from : ℕ → List ℕ → ℕ
hex_from i [] = i
hex_from i (c ∷ hex) =
    let rest = hex_from ((i * 2 ^ 4 % 2 ^ 8 + digit_value c) % 2 ^ 8) hex in
    if c == 0 then i else rest

-- `hex2int<uint8_t>`
unfoldable pub hex2int : List ℕ → ℕ
hex2int hex = hex_from 0 hex

-- `ntoh` of 16, 32 and 64 bits on a little-endian machine, and `hton`, which is the same there
unfoldable pub ntoh16 : ℕ → ℕ
ntoh16 x = x % 2 ^ 8 * 2 ^ 8 + x / 2 ^ 8 % 2 ^ 8

unfoldable pub ntoh32 : ℕ → ℕ
ntoh32 x =
    x % 2 ^ 8 * 2 ^ 24
    + x / 2 ^ 8 % 2 ^ 8 * 2 ^ 16
    + x / 2 ^ 16 % 2 ^ 8 * 2 ^ 8
    + x / 2 ^ 24 % 2 ^ 8

unfoldable pub ntoh64 : ℕ → ℕ
ntoh64 x =
    x % 2 ^ 8 * 2 ^ 56
    + x / 2 ^ 8 % 2 ^ 8 * 2 ^ 48
    + x / 2 ^ 16 % 2 ^ 8 * 2 ^ 40
    + x / 2 ^ 24 % 2 ^ 8 * 2 ^ 32
    + x / 2 ^ 32 % 2 ^ 8 * 2 ^ 24
    + x / 2 ^ 40 % 2 ^ 8 * 2 ^ 16
    + x / 2 ^ 48 % 2 ^ 8 * 2 ^ 8
    + x / 2 ^ 56 % 2 ^ 8
