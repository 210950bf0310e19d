-- ===== src/Msg/Iterator.antt =====
-- src/msg.h: class `msg_iterator`, and the operations of class `msg` that use it.
use decom.Base.{
  ℕ, zero, suc, ◌+◌, ◌-◌, Bool, true, false, not, ◌&&◌, ◌||◌, Option, none, some, List, [], ◌∷◌,
  ◌==◌, ltb, leb, if◌then◌else◌, update,
}
use decom.Msg.Pool.{
  page_size, pool_pages, dec_size, Ptr, Page, Pool, Cmd, pure, ◌>>=◌, ◌>>◌, fault, get_page,
  set_page, rounds,
}
use decom.Msg.Ops.{load, last_from, size, at, push_back, pop_back}
mod Tests

-- The data members of `msg_iterator`.
pub record Iterator : Type 0 where
  pub first : Ptr
  pub page : Ptr
  pub idx : ℕ

abbrev pub same_ptr : Ptr → Ptr → Bool
same_ptr none none = true
same_ptr none (some j) = false
same_ptr (some i) none = false
same_ptr (some i) (some j) = i == j

-- `operator==`
unfoldable pub same : Iterator → Iterator → Bool
same a b = a.idx == b.idx && same_ptr a.page b.page

-- `msg_iterator(page, true)` reads the head of the first page.
unfoldable pub begin : Ptr → Cmd Iterator
begin none = fault
begin (some i) = do pg ← get_page i; pure (record { first = some i; page = some i; idx = pg.head })

unfoldable pub end : Ptr → Iterator
end m = record { first = m; page = none; idx = 0 }

-- `operator*` as a value, and as the target of an assignment; both are faults behind the page's buffer.
unfoldable pub peek : (ℕ → Page) → Iterator → Option ℕ
peek h it = elim it.page [ none ↦ none | some i ↦ load (h i) it.idx ]

unfoldable pub read_at : Iterator → Cmd ℕ
read_at it p = elim (peek p.pages it) [ none ↦ none | some x ↦ some (x, p) ]

unfoldable pub write_at : Iterator → ℕ → Cmd (Unit {0})
write_at it x = elim it.page [
  | none ↦ fault
  | some i ↦ do
    pg ← get_page i
    if ltb it.idx page_size
        then set_page i (record pg { bytes = update pg.bytes it.idx x })
        else fault
]

-- What `operator++` does on the page `i`.
unfoldable pub next_on : (ℕ → Page) → ℕ → Iterator → Iterator
next_on h i it =
    if leb (h i).tail (it.idx + 1)
    then elim ((h i).next) [
      | none ↦ record it { page = none; idx = 0 }
      | some j ↦ record it { page = some j; idx = (h j).head }
    ]
    else record it { idx = it.idx + 1 }

-- `operator++`
unfoldable pub step : (ℕ → Page) → Iterator → Option Iterator
step h it = elim it.page [ none ↦ none | some i ↦ some (next_on h i it) ]

unfoldable pub next : Iterator → Cmd Iterator
next it p = elim (step p.pages it) [ none ↦ none | some it' ↦ some (it', p) ]

-- `for (; p->next != page_; p = p->next);` from the page `i`
unfoldable pub before_from : ℕ → (ℕ → Page) → ℕ → ℕ → Ptr
before_from zero h i page = none
before_from (suc k) h i page = elim ((h i).next) [
  | none ↦ none
  | some j ↦ if j == page then some i else before_from k h j page
]

-- `operator--` from a place in a page.
unfoldable pub prev_on : (ℕ → Page) → Iterator → (first page idx : ℕ) → Option Iterator
prev_on h it first page idx =
    if ltb (h page).head idx
    then some (record it { page = some page; idx = idx - 1 })
    else if page == first
    then some (record it { page = some page; idx = idx })
    else elim (before_from rounds h first page) [
      | none ↦ none
      | some i ↦ some (record it { page = some i; idx = (h i).tail })
    ]

-- Where `operator--` starts: the end stands behind the last page.
unfoldable pub place : (ℕ → Page) → Iterator → (first : ℕ) → Option (ℕ × ℕ)
place h it first = elim it.page [
  | some i ↦ some (i, it.idx)
  | none ↦ elim (last_from rounds h first) [ none ↦ none | some l ↦ some (l, (h l).tail) ]
]

-- `operator--`, and so `it - 1U`
unfoldable pub prev : Iterator → Cmd Iterator
prev it p = elim it.first [
  | none ↦ none
  | some first ↦ elim (place p.pages it first) [
    | none ↦ none
    | some (page, idx) ↦ elim (prev_on p.pages it first page idx) [
      | none ↦ none
      | some it' ↦ some (it', p)
    ]
  ]
]

-- `operator+=` by a number that is not negative, and `operator-=`, and so `+` and `-`
unfoldable pub forward : ℕ → Iterator → Cmd Iterator
forward zero it = pure it
forward (suc n) it = do it' ← next it; forward n it'

unfoldable pub backward : ℕ → Iterator → Cmd Iterator
backward zero it = pure it
backward (suc n) it = do it' ← prev it; backward n it'

-- A walk over a chain of pages that ends takes at most as many steps as the pool has bytes, as a page
-- without bytes takes one.
abbrev pub steps : ℕ
steps = 16385

-- The loop of `operator==` of `msg`; the end is the only place without a page.
unfoldable pub equal_from : ℕ → (ℕ → Page) → (left right : Iterator) → Option Bool
equal_from zero h left right = none
equal_from (suc k) h left right = elim left.page [
  | none ↦ some true
  | some i ↦ elim (peek h left) [
    | none ↦ none
    | some x ↦ elim (peek h right) [
      | none ↦ none
      | some y ↦
          let rest : Option Bool = elim (step h left) [
            | none ↦ none
            | some l ↦ elim (step h right) [ none ↦ none | some r ↦ equal_from k h l r ]
          ] in
          if x == y then rest else some false
    ]
  ]
]

-- `operator==` of `msg`: `m` is its argument.
unfoldable pub equal : (this m : Ptr) → Cmd Bool
equal this m = do
  n ← size m
  n' ← size this
  if not (n == n') then pure false else (do
    left ← begin m
    right ← begin this
    λ p. elim (equal_from steps p.pages left right) [ none ↦ none | some b ↦ some (b, p) ])

-- The shifting loop of `insert`, from `it` down to `position`.
unfoldable pub shift_up : ℕ → (it position : Iterator) → Cmd (Unit {0})
shift_up zero it position = fault
shift_up (suc k) it position =
    let rest : Cmd (Unit {0}) = (do
      before ← prev it
      x ← read_at before
      write_at it x
      it' ← prev it
      shift_up k it' position) in
    if same it position then pure tt else rest

-- `insert` behind its security check; `back()` reads at `size() - 1U`. The result of `push_back` is not
-- looked at.
unfoldable pub insert_checked : Ptr → Iterator → ℕ → Cmd Iterator
insert_checked m position x = do
  n ← size m
  last ← (if n == 0 then pure 0 else at m (dec_size n))
  done ← push_back m last
  e ← prev (end m)
  if same position (end m)
      then (do write_at e x; pure e)
      else (do shift_up steps e position; write_at position x; pure position)

-- `insert(iterator position, const value_type& x)`
unfoldable pub insert : Ptr → Iterator → ℕ → Cmd Iterator
insert none position x = pure (end none)
insert (some i) position x = do
  first ← get_page i
  if ltb 1 first.ref then pure (end (some i)) else insert_checked (some i) position x

-- `insert(iterator position, size_type n, const value_type& x)`
unfoldable pub insert_n : Ptr → Iterator → ℕ → ℕ → Cmd (Unit {0})
insert_n m position zero x = pure tt
insert_n m position (suc n) x = do it ← insert m position x; insert_n m position n x

-- `insert(iterator position, InputIterator first, InputIterator last)`
unfoldable pub insert_all : Ptr → Iterator → List ℕ → Cmd (Unit {0})
insert_all m position [] = pure tt
insert_all m position (x ∷ xs) = do
  it ← insert m position x
  position' ← next it
  insert_all m position' xs

-- The shifting loop of `erase`, from `it` on.
unfoldable pub shift_down : ℕ → Iterator → Cmd (Unit {0})
shift_down zero it = fault
shift_down (suc k) it = do
  after ← next it
  elim after.page [
    | none ↦ pure tt
    | some j ↦ do x ← read_at after; write_at it x; shift_down k after
  ]

-- `erase(iterator position)`
unfoldable pub erase : Ptr → Iterator → Cmd Iterator
erase none position = pure (end none)
erase (some i) position = do
  first ← get_page i
  if ltb 1 first.ref
      then pure (end (some i))
      else if same position (end (some i))
      then pure (end (some i))
      else (do shift_down steps position; pop_back (some i); pure position)

-- `erase(iterator first, iterator last)`, with the distance of the two
unfoldable pub erase_n : Ptr → (first : Iterator) → (distance : ℕ) → Cmd Iterator
erase_n m first zero = pure first
erase_n m first (suc d) = do first' ← erase m first; erase_n m first' d
