-- ===== src/Msg/Ops.antt =====
-- src/msg.h: class `msg`. A message is its `page_`; an operation that changes it returns the new one.
use decom.Base.{
  ℕ, zero, suc, ◌+◌, ◌-◌, Bool, true, false, ◌||◌, Option, none, some, ◌==◌, ltb, if◌then◌else◌,
  update,
}
use decom.Msg.Pool.{
  page_size, page_begin, sub_size, dec_size, Ptr, Page, Cmd, pure, ◌>>=◌, ◌>>◌, fault, get_page,
  set_page, alloc, free, rounds,
}

-- `illegal_ref_`
abbrev pub illegal_ref : ℕ
illegal_ref = 0xCC

-- `last_page`: a walk over the `next` pointers; `none` if `page_` is null or the chain is a cycle.
unfoldable pub last_from : ℕ → (ℕ → Page) → ℕ → Ptr
last_from zero pages i = none
last_from (suc k) pages i = elim ((pages i).next) [ none ↦ some i | some j ↦ last_from k pages j ]

unfoldable pub last_page : Ptr → Cmd ℕ
last_page none p = none
last_page (some i) p = elim (last_from rounds p.pages i) [ none ↦ none | some l ↦ some (l, p) ]

-- `msg(size_type offset)`
unfoldable pub create : (offset : ℕ) → Cmd Ptr
create offset = do
  page ← alloc
  elim page [
    | none ↦ pure none
    | some i ↦ do
      pg ← get_page i
      set_page i (record pg { head = offset; tail = offset })
      pure (some i)
  ]

-- The loop of the destructor, of `clear` and of `ref_copy`.
unfoldable pub free_from : ℕ → Ptr → Cmd (Unit {0})
free_from zero none = pure tt
free_from zero (some i) = fault
free_from (suc k) none = pure tt
free_from (suc k) (some i) = do free i; pg ← get_page i; free_from k pg.next

-- `~msg`
unfoldable pub destroy : Ptr → Cmd (Unit {0})
destroy m = free_from rounds m

unfoldable pub clear : Ptr → Cmd Ptr
clear none = pure none
clear (some i) = do destroy (some i); create page_begin

-- The loop of `size`.
unfoldable pub size_from : ℕ → (ℕ → Page) → Ptr → ℕ → Option ℕ
size_from zero pages none acc = some acc
size_from zero pages (some i) acc = none
size_from (suc k) pages none acc = some acc
size_from (suc k) pages (some i) acc =
    size_from k pages (pages i).next (acc + sub_size (pages i).tail (pages i).head)

unfoldable pub size : Ptr → Cmd ℕ
size m p = elim (size_from rounds p.pages m 0) [ none ↦ none | some n ↦ some (n, p) ]

unfoldable pub empty : Ptr → Cmd Bool
empty m = do n ← size m; pure (n == 0)

-- `data[idx]`; there is no such byte behind the page's buffer.
abbrev pub load : Page → ℕ → Option ℕ
load pg idx = if ltb idx page_size then some (pg.bytes idx) else none

-- The loop of `at`, from the page `p` on with `_size` bytes before it.
unfoldable pub at_from : ℕ → (ℕ → Page) → Ptr → ℕ → ℕ → Option ℕ
at_from zero pages none pos before = some illegal_ref
at_from zero pages (some i) pos before = none
at_from (suc k) pages none pos before = some illegal_ref
at_from (suc k) pages (some i) pos before =
    let here = sub_size (pages i).tail (pages i).head in
    let rest = at_from k pages (pages i).next pos (before + here) in
    if ltb pos (before + here) then load (pages i) ((pages i).head + pos - before) else rest

unfoldable pub at : Ptr → ℕ → Cmd ℕ
at none pos p = some (illegal_ref, p)
at (some i) pos p = elim (at_from rounds p.pages (some i) pos 0) [
  | none ↦ none
  | some x ↦ some (x, p)
]

-- The page that takes the next byte at the end: the page `l`, or a new one behind it if it is
-- full; `none` if the pool has no page left.
unfoldable pub room_after : ℕ → Cmd Ptr
room_after l = do
  pg ← get_page l
  if pg.tail == page_size
      then (do fresh ← alloc; pg ← get_page l; set_page l (record pg { next = fresh }); pure fresh)
      else pure (some l)

-- `page->data[page->tail++] = x`, a fault behind the page's buffer
unfoldable pub store_back : ℕ → ℕ → Cmd (Unit {0})
store_back i x = do
  pg ← get_page i
  if ltb pg.tail page_size
      then set_page i (record pg { bytes = update pg.bytes pg.tail x; tail = pg.tail + 1 })
      else fault

-- `push_back` behind the search for the last page `l`.
unfoldable pub append_behind : ℕ → ℕ → Cmd Bool
append_behind l x = do
  room ← room_after l
  elim room [ none ↦ pure false | some j ↦ do store_back j x; pure true ]

unfoldable pub push_back : Ptr → ℕ → Cmd Bool
push_back none x = pure false
push_back (some i) x = do
  first ← get_page i
  if ltb 1 first.ref then pure false else (do l ← last_page (some i); append_behind l x)

-- `for (; p && p->next && p->next != _last_page; p = p->next); p->next = nullptr;` from page `i`.
unfoldable pub unlink_from : ℕ → ℕ → ℕ → Cmd (Unit {0})
unlink_from zero i l = fault
unlink_from (suc k) i l = do
  pg ← get_page i
  elim pg.next [
    | none ↦ set_page i (record pg { next = none })
    | some j ↦
        let walk = unlink_from k j l in
        if j == l then set_page i (record pg { next = none }) else walk
  ]

-- The body of `pop_back` and of the shrinking loop of `resize`.
unfoldable pub drop_back : ℕ → Cmd (Unit {0})
drop_back i = do
  l ← last_page (some i)
  pg ← get_page l
  set_page l (record pg { tail = dec_size pg.tail })
  first ← get_page i
  elim first.next [
    | none ↦ pure tt
    | some j ↦ if dec_size pg.tail == 0 then (do free l; unlink_from rounds i l) else pure tt
  ]

unfoldable pub pop_back : Ptr → Cmd (Unit {0})
pop_back none = pure tt
pop_back (some i) = do first ← get_page i; if ltb 1 first.ref then pure tt else drop_back i

-- `page_->data[--page_->head] = x`
unfoldable pub store_front : ℕ → ℕ → Cmd (Unit {0})
store_front i x = do
  pg ← get_page i
  if ltb (dec_size pg.head) page_size
      then set_page i
          (record pg { bytes = update pg.bytes (dec_size pg.head) x; head = dec_size pg.head })
      else fault

unfoldable pub push_front : Ptr → ℕ → Cmd (Ptr × Bool)
push_front none x = pure (none, false)
push_front (some i) x = do
  first ← get_page i
  if ltb 1 first.ref
      then pure (some i, false)
      else if first.head == 0
      then (do
        fresh ← alloc
        elim fresh [
          | none ↦ pure (some i, false)
          | some j ↦ do
            pg ← get_page j
            set_page j (record pg { head = page_size; tail = page_size; next = some i })
            store_front j x
            pure (some j, true)
        ])
      else do store_front i x; pure (some i, true)

unfoldable pub pop_front : Ptr → Cmd Ptr
pop_front none = pure none
pop_front (some i) = do
  first ← get_page i
  if ltb 1 first.ref || first.head == first.tail then pure (some i) else do
    set_page i (record first { head = first.head + 1 })
    elim first.next [
      | none ↦ pure (some i)
      | some j ↦ if first.head + 1 == page_size then (do free i; pure (some j)) else pure (some i)
    ]
