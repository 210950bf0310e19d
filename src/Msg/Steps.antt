-- ===== src/Msg/Steps.antt =====
-- The steps of an iterator of msg.h within one page of a message.
use decom.Base.{
  ℕ, ◌+◌, ◌-◌, ◌≤◌, ◌<◌, ◌≡◌, ◌≢◌, refl, ap, ◌∙◌, true, false, ◌&&◌, none, some, arith, ◌==◌, leb,
  update, update_self, ==_refl, lt→ltb,
}
use mathlib.Core.Bool.{and-false}
use decom.Msg.Pool.{dec_size, page_size, Ptr, Page, Pool, put_page, ◌>>=◌}
use decom.Msg.Ops.{last_from, last_page, pop_back, drop_back}
use decom.Msg.Page.{put_page-put_page}
use decom.Msg.Iterator.{
  same_ptr, Iterator, next_on, peek, read_at, write_at, step, next, prev_on, place, prev, same, end,
}

abbrev pub iterator : Ptr → Ptr → ℕ → Iterator
iterator first page idx = record { first = first; page = page; idx = idx }

module _ (p : Pool) (i : ℕ) (f : Ptr) (pg : Page) where
  pub next-inside :
      (idx : ℕ)
      → idx + 1 < pg.tail
      → next (iterator f (some i) idx) (put_page p i pg)
        ≡ some (iterator f (some i) (idx + 1), put_page p i pg)
  unfolding next step next_on
  next-inside idx lt =
      let inside : leb pg.tail (idx + 1) ≡ false = ground arith in
      rw (update_self p.pages i pg, inside) refl

  pub next-last :
      (idx : ℕ)
      → pg.tail ≤ idx + 1
      → pg.next ≡ none
      → next (iterator f (some i) idx) (put_page p i pg) ≡ some (iterator f none 0, put_page p i pg)
  unfolding next step next_on
  next-last idx le e =
      let leaves : leb pg.tail (idx + 1) ≡ true = ground arith in
      rw (update_self p.pages i pg, leaves, e) refl

  pub read_at-inside :
      (idx : ℕ)
      → idx < page_size
      → read_at (iterator f (some i) idx) (put_page p i pg) ≡ some (pg.bytes idx, put_page p i pg)
  unfolding read_at peek
  read_at-inside idx lt = rw (read_at, peek, update_self p.pages i pg, lt→ltb idx page_size lt) refl

  pub write_at-inside :
      (idx x : ℕ)
      → idx < page_size
      → write_at (iterator f (some i) idx) x (put_page p i pg)
        ≡ some (tt, put_page p i (record pg { bytes = update pg.bytes idx x }))
  unfolding write_at
  write_at-inside idx x lt =
      rw (◌>>=◌, update_self p.pages i pg, lt→ltb idx page_size lt)
        (ap (λ q. some (tt, q))
          (put_page-put_page p i pg (record pg { bytes = update pg.bytes idx x })))

  pub prev-inside :
      (first idx : ℕ)
      → pg.head < idx
      → prev (iterator (some first) (some i) idx) (put_page p i pg)
        ≡ some (iterator (some first) (some i) (idx - 1), put_page p i pg)
  unfolding prev place prev_on
  prev-inside first idx lt =
      rw (prev, place, prev_on, update_self p.pages i pg, lt→ltb pg.head idx lt) refl

-- The message of the single page `i` in any pool.
module _ (q : Pool) (i : ℕ) (last : (q.pages i).next ≡ none) where
  pub last_page-single : last_page (some i) q ≡ some (i, q)
  unfolding last_page last_from
  last_page-single = simp (last_page, last_from, last)

  pub prev-end :
      (q.pages i).head < (q.pages i).tail
      → prev (end (some i)) q ≡ some (iterator (some i) (some i) ((q.pages i).tail - 1), q)
  unfolding prev place prev_on end last_from
  prev-end lt =
      simp (prev, place, prev_on, last_from, last, lt→ltb (q.pages i).head (q.pages i).tail lt)

  pub pop_back-single :
      (q.pages i).ref ≡ 1
      → 0 < (q.pages i).tail
      → (q.pages i).tail ≤ page_size
      → pop_back (some i) q
        ≡ some (tt, put_page q i (record (q.pages i) { tail = (q.pages i).tail - 1 }))
  unfolding pop_back drop_back
  pop_back-single one lt le =
      let less : dec_size (q.pages i).tail ≡ (q.pages i).tail - 1 = omega arith in
      simp (◌>>=◌, one, last_page-single, less) (rw (==_refl i, last) refl)

pub pop_back-put_page :
    (p : Pool) (i : ℕ) (pg : Page)
    → pg.next ≡ none
    → pg.ref ≡ 1
    → 0 < pg.tail
    → pg.tail ≤ page_size
    → pop_back (some i) (put_page p i pg)
      ≡ some (tt, put_page p i (record pg { tail = pg.tail - 1 }))
pop_back-put_page p i pg last one lt le =
    let q = put_page p i pg in
    let here : q.pages i ≡ pg = update_self p.pages i pg in
    let tail = ap (λ (x : Page). x.tail) here in
    pop_back-single q i (ap (λ (x : Page). x.next) here ∙ last)
      (ap (λ (x : Page). x.ref) here ∙ one) (omega (arith, tail, lt)) (omega (arith, tail, le))
    ∙ (ap (λ (x : Page). some (tt, put_page q i (record x { tail = x.tail - 1 }))) here
        ∙ ap (λ r. some (tt, r)) (put_page-put_page p i pg (record pg { tail = pg.tail - 1 })))

pub same-end : (f m : Ptr) (i idx : ℕ) → same (iterator f (some i) idx) (end m) ≡ false
unfolding same end
same-end f m i idx = and-false (idx == 0)

pub same-same : (it : Iterator) → same it it ≡ true
unfolding same
same-same it = go it.page
  where
    go : (page : Ptr) → (it.idx == it.idx && same_ptr page page) ≡ true
    go none = ground arith
    go (some i) = ground arith

pub same-apart :
    (f : Ptr) (i a b : ℕ) → a ≢ b → same (iterator f (some i) a) (iterator f (some i) b) ≡ false
unfolding same
same-apart f i a b ne = ground arith

pub prev-end-put_page :
    (p : Pool) (i : ℕ) (pg : Page)
    → pg.next ≡ none
    → pg.head < pg.tail
    → prev (end (some i)) (put_page p i pg)
      ≡ some (iterator (some i) (some i) (pg.tail - 1), put_page p i pg)
prev-end-put_page p i pg last lt =
    let q = put_page p i pg in
    let here : q.pages i ≡ pg = update_self p.pages i pg in
    let tail = ap (λ (x : Page). x.tail) here in
    let head = ap (λ (x : Page). x.head) here in
    prev-end q i (ap (λ (x : Page). x.next) here ∙ last) (omega (arith, tail, head, lt))
    ∙ ap (λ a. some (iterator (some i) (some i) (a - 1), q)) tail
