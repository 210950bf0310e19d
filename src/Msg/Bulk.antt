-- ===== src/Msg/Bulk.antt =====
-- src/msg.h: the operations of class `msg` on whole messages.
use decom.Base.{
  ℕ, zero, suc, ◌+◌, ◌-◌, ◌*◌, Bool, true, false, ◌||◌, ◌&&◌, Option, none, some, List, [], ◌∷◌,
  ◌++◌, ◌==◌, ltb, leb, if◌then◌else◌, length, get_or, drop, is_empty,
}
use decom.Msg.Pool.{
  page_size, pool_pages, sub_size, add_size, Ptr, Page, Pool, Cmd, pure, ◌>>=◌, ◌>>◌, fault,
  get_page, set_page, alloc, rounds,
}
use decom.Msg.Ops.{
  create, clear, free_from, last_page, size, room_after, store_back, push_back, drop_back,
}

-- `memcpy(dst + at, src + from, n)` between pages and buffers
abbrev pub copy_bytes : (ℕ → ℕ) → (ℕ → ℕ) → ℕ → ℕ → ℕ → ℕ → ℕ
copy_bytes dst src at from n a = if leb at a && ltb a (at + n) then src (from + (a - at)) else dst a

-- `msg(size_type n, value, offset)`
unfoldable pub push_n : Ptr → ℕ → ℕ → Cmd (Unit {0})
push_n m zero value = pure tt
push_n m (suc n) value = do done ← push_back m value; push_n m n value

unfoldable pub create_n : ℕ → ℕ → ℕ → Cmd Ptr
create_n n value offset = do m ← create offset; push_n m n value; pure m

-- `msg(InputIterator first, InputIterator last, offset)`
unfoldable pub push_all : Ptr → List ℕ → Cmd (Unit {0})
push_all m [] = pure tt
push_all m (x ∷ xs) = do done ← push_back m x; push_all m xs

unfoldable pub create_from : List ℕ → ℕ → Cmd Ptr
create_from xs offset = do m ← create offset; push_all m xs; pure m

-- The loop of the copy constructor and of `operator=`: `cur` is the `page_` of the copy, `first` the
-- `page_` of the original, `p` the page that the loop has come to.
unfoldable pub copy_from : ℕ → ℕ → ℕ → Ptr → Cmd ℕ
copy_from zero cur first none = pure cur
copy_from zero cur first (some j) = fault
copy_from (suc k) cur first none = pure cur
copy_from (suc k) cur first (some j) = do
  from ← get_page first
  to ← get_page cur
  set_page cur (record to {
    head = from.head;
    tail = from.tail;
    bytes = copy_bytes to.bytes from.bytes from.head from.head (sub_size from.tail from.head);
  })
  pg ← get_page j
  elim pg.next [
    | none ↦ pure cur
    | some n ↦ do
      fresh ← alloc
      to ← get_page cur
      set_page cur (record to { next = fresh })
      elim fresh [ none ↦ copy_from k cur first (some n) | some f ↦ copy_from k f first (some n) ]
  ]

unfoldable pub copy_into : Ptr → Ptr → Cmd Ptr
copy_into this none = pure this
copy_into none (some first) = fault
copy_into (some cur) (some first) = do
  last ← copy_from rounds cur first (some first)
  pure (some last)

-- `msg(const msg& m)`
unfoldable pub copy : Ptr → Cmd Ptr
copy m = do this ← alloc; copy_into this m

-- `operator=`, for two distinct objects
unfoldable pub assign : Ptr → Ptr → Cmd Ptr
assign this m = do this' ← clear this; copy_into this' m

-- `for (p = page_; p; p = p->next) p->ref++;`
unfoldable pub share_from : ℕ → Ptr → Cmd (Unit {0})
share_from zero none = pure tt
share_from zero (some i) = fault
share_from (suc k) none = pure tt
share_from (suc k) (some i) = do
  pg ← get_page i
  set_page i (record pg { ref = add_size pg.ref 1 })
  share_from k pg.next

unfoldable pub ref_copy : Ptr → Ptr → Cmd Ptr
ref_copy this m = do free_from rounds this; share_from rounds m; pure m

unfoldable pub append : Ptr → Ptr → Cmd (Unit {0})
append this second = do
  l ← last_page this
  pg ← get_page l
  set_page l (record pg { next = second })
  share_from rounds second

-- The growing loop of `resize`, from the page `page` on.
unfoldable pub grow_from : ℕ → ℕ → Cmd Bool
grow_from zero page = pure true
grow_from (suc n) page = do
  room ← room_after page
  elim room [ none ↦ pure false | some j ↦ do store_back j 0; grow_from n j ]

unfoldable pub shrink : ℕ → ℕ → Cmd (Unit {0})
shrink zero i = pure tt
shrink (suc n) i = do drop_back i; shrink n i

unfoldable pub resize : Ptr → ℕ → Cmd Bool
resize none sz = pure false
resize (some i) sz = do
  first ← get_page i
  if ltb 1 first.ref then pure false else (do
    n ← size (some i)
    if sz == n
        then pure true
        else if ltb n sz
        then (do page ← last_page (some i); grow_from (sz - n) page)
        else (do shrink (n - sz) i; pure true))

-- `max_size`
unfoldable pub capacity_left : Pool → ℕ
capacity_left p = sub_size pool_pages p.used_pages * page_size

unfoldable pub max_size : Ptr → Cmd ℕ
max_size m p = elim (size m p) [
  | none ↦ none
  | some (n, q) ↦ elim (last_page m q) [
    | none ↦ none
    | some (l, r) ↦
        some (add_size (sub_size (add_size n page_size) (r.pages l).tail) (capacity_left r), r)
  ]
]

-- Where in the page `pg` the copying loop of `get` begins, and how many bytes it takes at most.
unfoldable pub get_range : Page → ℕ → ℕ → ℕ × ℕ
get_range pg offset offset_page =
    let page_size = sub_size pg.tail pg.head in
    if ltb offset_page offset && ltb offset (offset_page + page_size)
    then (pg.head + (offset - offset_page), page_size - (offset - offset_page))
    else (pg.head, page_size)

abbrev pub read_bytes : Page → ℕ → ℕ → List ℕ
read_bytes pg start zero = []
read_bytes pg start (suc n) = pg.bytes start ∷ read_bytes pg (start + 1) n

-- The loop of `get`: `out` are the bytes copied so far, as many as `offset_dest` says.
unfoldable pub get_from :
    ℕ → (ℕ → Page) → Ptr → (maxlength offset offset_page : ℕ) → List ℕ → Option (List ℕ)
get_from zero pages none maxlength offset offset_page out = some out
get_from zero pages (some i) maxlength offset offset_page out = none
get_from (suc k) pages none maxlength offset offset_page out = some out
get_from (suc k) pages (some i) maxlength offset offset_page out =
    let (start, avail) = get_range (pages i) offset offset_page in
    let wanted = ltb offset (offset_page + avail) in
    let count =
      if wanted && ltb maxlength (length out + avail) then maxlength - length out else avail in
    let out' = if wanted then out ++ read_bytes (pages i) start count else out in
    let rest = get_from k pages (pages i).next maxlength offset (offset_page + count) out' in
    if leb maxlength (length out') then some out' else rest

-- `get`, with `dest` not null: the bytes copied, or `none` inside for `nullptr`
unfoldable pub get : Ptr → ℕ → ℕ → Cmd (Option (List ℕ))
get m maxlength offset p = elim (size m p) [
  | none ↦ none
  | some (n, q) ↦
      if maxlength == 0 || leb n offset
      then some (none, q)
      else elim (get_from rounds q.pages m maxlength offset 0 []) [
        | none ↦ none
        | some out ↦ some (some out, q)
      ]
]

-- The copying loop of `put`, at the page `page` with the bytes `source` left.
unfoldable pub put_from : ℕ → ℕ → List ℕ → Cmd Bool
put_from zero page source = fault
put_from (suc k) page source = do
  pg ← get_page page
  let tail = if ltb page_size (pg.tail + length source) then page_size else pg.tail + length source
  let n = tail - pg.head
  set_page page
      (record pg { tail = tail; bytes = copy_bytes pg.bytes (λ a. get_or source a 0) pg.head 0 n })
  let left = drop n source
  if is_empty left then pure true else (do
    fresh ← alloc
    pg ← get_page page
    set_page page (record pg { next = fresh })
    elim fresh [ none ↦ pure false | some j ↦ put_from k j left ])

-- `put`, with `source` not null
unfoldable pub put : Ptr → List ℕ → Cmd (Ptr × Bool)
put m source = if is_empty source then pure (m, false) else (do
  limit ← max_size m
  if ltb limit (length source) then pure (m, false) else (do
    m' ← clear m
    elim m' [
      | none ↦ fault
      | some page ↦ do
        done ← put_from rounds page source
        if done then pure (some page, true) else (do m'' ← clear (some page); pure (m'', false))
    ]))
