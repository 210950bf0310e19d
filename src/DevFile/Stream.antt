-- ===== src/DevFile/Stream.antt =====
-- What dev_file.h uses of `std::ifstream` and `std::ofstream`. An offset is `none` where the library's
-- functions give -1.
use decom.Base.{
  ℕ, ◌-◌, Bool, true, false, not, ◌||◌, Option, none, some, List, [], ◌∷◌, ◌++◌, ◌==◌, length,
  if◌then◌else◌,
}

abbrev pub Offset : Type 0
Offset = Option ℕ

abbrev pub same_offset : Offset → Offset → Bool
same_offset none none = true
same_offset none (some b) = false
same_offset (some a) none = false
same_offset (some a) (some b) = a == b

-- `std::ifstream`: what the file holds, and what of it lies behind the position.
pub record Ifstream : Type 0 where
  pub is_open : Bool
  pub content : List ℕ
  pub rest : List ℕ
  pub eof : Bool
  pub fail : Bool

-- `open`: `found` is what the file holds, if it can be opened. A stream that is open stays as it is.
unfoldable pub open_in : Option (List ℕ) → Ifstream → Ifstream
open_in none f = record f { fail = true }
open_in (some content) f =
    if f.is_open
    then record f { fail = true }
    else record { is_open = true; content = content; rest = content; eof = false; fail = false }

unfoldable pub close_in : Ifstream → Ifstream
close_in f = if f.is_open then record f { is_open = false } else record f { fail = true }

-- `seekg(0, end)` and `seekg(0, beg)`
unfoldable pub seek_end : Ifstream → Ifstream
seek_end f = if f.fail then record f { eof = false } else record f { eof = false; rest = [] }

unfoldable pub seek_begin : Ifstream → Ifstream
seek_begin f =
    if f.fail then record f { eof = false } else record f { eof = false; rest = f.content }

unfoldable pub tellg : Ifstream → Offset
tellg f = if f.fail || not f.is_open then none else some (length f.content - length f.rest)

-- `get`, cast to a byte: the end of the file is -1, so 0xFF.
unfoldable pub get_behind : List ℕ → Ifstream → ℕ × Ifstream
get_behind [] f = (255, record f { eof = true; fail = true })
get_behind (x ∷ xs) f = (x, record f { rest = xs })

unfoldable pub get : Ifstream → ℕ × Ifstream
get f = if f.eof || f.fail then (255, record f { fail = true }) else get_behind f.rest f

-- `std::ofstream`: what the file holds.
pub record Ofstream : Type 0 where
  pub is_open : Bool
  pub content : List ℕ
  pub fail : Bool

-- `open`: `held` is what the file holds before, if it can be opened.
unfoldable pub open_out : Option (List ℕ) → (append : Bool) → Ofstream → Ofstream
open_out none append f = record f { fail = true }
open_out (some held) append f =
    if f.is_open
    then record f { fail = true }
    else record { is_open = true; content = (if append then held else []); fail = false }

unfoldable pub close_out : Ofstream → Ofstream
close_out f = if f.is_open then record f { is_open = false } else record f { fail = true }

unfoldable pub put : List ℕ → Ofstream → Ofstream
put bytes f = if f.fail then f else record f { content = f.content ++ bytes }
