-- ===== src/Sntp/Arith.antt =====
-- dev_sntp.h: fixed-point numbers as numbers of 64 bits.
use decom.Base.{ℕ, ◌+◌, ◌-◌, ◌*◌, ◌/◌, ◌%◌, ◌^◌, ◌≤◌, ◌<◌, ◌≡◌, arith}
use decom.Sntp.Time.{Fixpt, sub, add, unsigned, get, set}

abbrev pub value : Fixpt → ℕ
value t = t.integer * 2 ^ 32 + t.fraction

-- The words have 32 bits.
pub record IsFixpt (t : Fixpt) : Type 0 where
  pub integer_lt : t.integer < 2 ^ 32
  pub fraction_lt : t.fraction < 2 ^ 32

pub add-value :
    (a b : Fixpt) → IsFixpt a → IsFixpt b → value (add a b) ≡ (value a + value b) % 2 ^ 64
unfolding add
add-value a b ha hb = ground (arith, ha.integer_lt, ha.fraction_lt, hb.integer_lt, hb.fraction_lt)

pub sub-value :
    (a b : Fixpt) → IsFixpt a → IsFixpt b → value (sub a b) ≡ (value a + 2 ^ 64 - value b) % 2 ^ 64
unfolding sub
sub-value a b ha hb = ground (arith, ha.integer_lt, ha.fraction_lt, hb.integer_lt, hb.fraction_lt)

pub get-value : (t : Fixpt) → IsFixpt t → get unsigned t ≡ value t * 1000000 / 2 ^ 32
unfolding get unsigned
get-value t h = omega (arith, h.integer_lt, h.fraction_lt)

pub set-IsFixpt : (time : ℕ) → IsFixpt (set time)
unfolding set
set-IsFixpt time = record { integer_lt = omega arith; fraction_lt = omega arith }

-- A time before the seconds leave 32 bits comes back from its fixed-point number exactly or one
-- microsecond too early.
pub get-set :
    (time : ℕ)
    → time < 1000000 * 2 ^ 32
    → (get unsigned (set time) ≤ time) × (time ≤ get unsigned (set time) + 1)
unfolding get set unsigned
get-set time h = (omega arith, omega arith)

pub sub-IsFixpt : (a b : Fixpt) → IsFixpt (sub a b)
unfolding sub
sub-IsFixpt a b = record { integer_lt = omega arith; fraction_lt = omega arith }

-- Addition and subtraction of fixed-point numbers whose words have 32 bits are those of numbers of 64
-- bits, with the carry and the borrow between the words.
pub fixpt_arithmetic :
    (a b : Fixpt)
    → IsFixpt a
    → IsFixpt b
    → (value (add a b) ≡ (value a + value b) % 2 ^ 64)
      × (value (sub a b) ≡ (value a + 2 ^ 64 - value b) % 2 ^ 64)
fixpt_arithmetic a b ha hb = (add-value a b ha hb, sub-value a b ha hb)
