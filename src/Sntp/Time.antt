-- ===== src/Sntp/Time.antt =====
-- dev_sntp.h: fixed-point numbers with 32 bits on either side of the point, as the pair of their words.
-- A negative number is the bit pattern of its two's complement.
use decom.Base.{ℕ, ◌+◌, ◌-◌, ◌*◌, ◌/◌, ◌%◌, ◌^◌, Bool, ◌&&◌, ltb, ◌==◌, if◌then◌else◌}
use decom.Util.{ntoh32}

-- `part` of `fixpt_t` over 64 bits
pub record Fixpt : Type 0 where
  pub integer : ℕ
  pub fraction : ℕ

-- The comparison of `fixpt` with 0.
unfoldable pub is_unset : Fixpt → Bool
is_unset t = t.integer == 0 && t.fraction == 0

-- `operator-`
unfoldable pub sub : Fixpt → Fixpt → Fixpt
sub a b = record {
  integer =
      (a.integer + 2 ^ 32 - b.integer + 2 ^ 32 - (if ltb a.fraction b.fraction then 1 else 0))
      % 2 ^ 32;
  fraction = (a.fraction + 2 ^ 32 - b.fraction) % 2 ^ 32;
}

-- `operator+`
unfoldable pub add : Fixpt → Fixpt → Fixpt
add a b =
    let sum = (a.fraction + b.fraction) % 2 ^ 32 in
    record {
      integer =
          (a.integer + b.integer + (if ltb sum a.fraction && ltb sum b.fraction then 1 else 0))
          % 2 ^ 32;
      fraction = sum;
    }

-- The conversion of `integer` to 64 bits, where it is an unsigned number and where it is a signed one.
unfoldable pub unsigned : ℕ → ℕ
unsigned i = i

unfoldable pub signed : ℕ → ℕ
signed i = if ltb i (2 ^ 31) then i else i + 2 ^ 64 - 2 ^ 32

-- `get`: microseconds
unfoldable pub get : (widen : ℕ → ℕ) → Fixpt → ℕ
get widen t = (widen t.integer * 1000000 % 2 ^ 64 + t.fraction * 500000 % 2 ^ 64 / 2 ^ 31) % 2 ^ 64

-- `set`, for microseconds that are not negative
unfoldable pub set : ℕ → Fixpt
set time = record {
  integer = time / 1000000 % 2 ^ 32;
  fraction = time % 1000000 % 2 ^ 32 * 2 ^ 31 % 2 ^ 64 / 500000 % 2 ^ 32;
}

-- `ntoh` and `hton`
unfoldable pub ntoh : Fixpt → Fixpt
ntoh t = record { integer = ntoh32 t.integer; fraction = ntoh32 t.fraction }
