-- ===== src/Msg/Pool.antt =====
-- src/msg.h: `pool_page_type`, class `msg_pool`, and commands over the pool.
-- A pointer to a page is the page's index in the pool, and `none` is `nullptr`.
use decom.Base.{
  ℕ, zero, suc, ◌+◌, ◌-◌, ◌%◌, ◌^◌, Bool, Option, none, some, ◌==◌, ltb, if◌then◌else◌, update,
}

-- DECOM_MSG_POOL_PAGE_SIZE
abbrev pub page_size : ℕ
page_size = 128

-- DECOM_MSG_POOL_PAGES
abbrev pub pool_pages : ℕ
pool_pages = 128

-- DECOM_MSG_POOL_PAGE_BEGIN
abbrev pub page_begin : ℕ
page_begin = 32

-- `std::size_t` of 64 bits
abbrev pub size_mod : ℕ
size_mod = 2 ^ 64

abbrev pub dec_size : ℕ → ℕ
dec_size n = (n + (size_mod - 1)) % size_mod

abbrev pub sub_size : ℕ → ℕ → ℕ
sub_size a b = (a + size_mod - b) % size_mod

abbrev pub add_size : ℕ → ℕ → ℕ
add_size a b = (a + b) % size_mod

abbrev pub Ptr : Type 0
Ptr = Option ℕ

-- `pool_page_type`; no code reads or writes `read_only`.
pub record Page : Type 0 where
  pub bytes : ℕ → ℕ
  pub head : ℕ
  pub tail : ℕ
  pub ref : ℕ
  pub read_only : Bool
  pub next : Ptr

-- The data members of `msg_pool`, without the mutex.
pub record Pool : Type 0 where
  pub pages : ℕ → Page
  pub used_pages : ℕ
  pub used_pages_max : ℕ

abbrev pub put_page : Pool → ℕ → Page → Pool
put_page p i pg = record p { pages = update p.pages i pg }

-- The loop of `page_alloc`: the first page from `i` on, of `n`, with no reference.
unfoldable pub find_free : (ℕ → Page) → ℕ → ℕ → Ptr
find_free pages zero i = none
find_free pages (suc n) i =
    let rest = find_free pages n (i + 1) in if (pages i).ref == 0 then some i else rest

-- What `page_alloc` makes of the page that it found.
abbrev pub fresh_page : Page → Page
fresh_page pg = record pg { ref = 1; head = 0; tail = 0; next = none }

abbrev pub take_page : Pool → ℕ → Pool
take_page p i = record {
  pages = update p.pages i (fresh_page (p.pages i));
  used_pages = p.used_pages + 1;
  used_pages_max =
      if ltb p.used_pages_max (p.used_pages + 1) then p.used_pages_max + 1 else p.used_pages_max;
}

unfoldable pub page_alloc : Pool → Ptr × Pool
page_alloc p = elim (find_free p.pages pool_pages 0) [
  | none ↦ (none, p)
  | some i ↦ (some i, take_page p i)
]

unfoldable pub page_free : Pool → ℕ → Pool
page_free p i =
    let ref = dec_size (p.pages i).ref in
    let q = put_page p i (record (p.pages i) { ref = ref }) in
    if ref == 0 then record q { used_pages = dec_size p.used_pages } else q

-- `max_size`
abbrev pub max_size : ℕ
max_size = pool_pages

unfoldable pub clear_used_pages_max : Pool → Pool
clear_used_pages_max p = record p { used_pages_max = 0 }

-- The constructor, on memory that holds `junk`.
unfoldable pub init : (ℕ → Page) → Pool
init junk = record { pages = λ i. record (junk i) { ref = 0 }; used_pages = 0; used_pages_max = 0 }

-- A command on the pool. `none`: the code dereferences `nullptr`, accesses a page behind its buffer,
-- or a loop over a chain of pages does not end.
abbrev pub Cmd : Type 0 → Type 0
Cmd A = Pool → Option (A × Pool)

abbrev pub pure : {A : Type 0} → A → Cmd A
pure a p = some (a, p)

infixl 5 ◌>>=◌ ◌>>◌
abbrev pub ◌>>=◌ : {A B : Type 0} → Cmd A → (A → Cmd B) → Cmd B
◌>>=◌ m f p = elim (m p) [ none ↦ none | some (a, q) ↦ f a q ]

abbrev pub ◌>>◌ : {B : Type 0} → Cmd (Unit {0}) → Cmd B → Cmd B
m >> k = m >>= λ _. k

abbrev pub fault : {A : Type 0} → Cmd A
fault p = none

abbrev pub get_page : ℕ → Cmd Page
get_page i p = some (p.pages i, p)

abbrev pub set_page : ℕ → Page → Cmd (Unit {0})
set_page i pg p = some (tt, put_page p i pg)

abbrev pub alloc : Cmd Ptr
alloc p = some (page_alloc p)

abbrev pub free : ℕ → Cmd (Unit {0})
free i p = some (tt, page_free p i)

-- Each loop over a chain gets one round more than the pool has pages: a chain that is not done by
-- then has come back to one of its pages, and the code's loop does not end.
abbrev pub rounds : ℕ
rounds = 129
