-- ===== src/Msg/Front.antt =====
-- `push_front` and `pop_front` of msg.h work on the first byte of a message.
use decom.Base.{
  ℕ, suc, ◌+◌, ◌-◌, ◌≤◌, ◌<◌, ◌≡◌, ◌≢◌, refl, ap, ◌∙◌, ◌⊎◌, none, some, List, ◌∷◌, ◌++◌, Bool, true,
  false, All, arith, ◌==◌, if◌then◌else◌, update, update_self, Bool-cases, inl, inr, lt→ltb,
}
use decom.Msg.Pool.{
  page_size, pool_pages, dec_size, Ptr, Page, Pool, take_page, page_alloc, put_page, fresh_page,
  ◌>>=◌,
}
use decom.Msg.Chain.{
  span, page_bytes, contents, IsUsed, IsMsg, Seg-update, contents-update, IsUsed-update,
  span-update_lt,
}
use decom.Msg.Alloc.{IsExhausted, page_alloc_cases, free_not_used}
use decom.Msg.Ops.{store_front, push_front}

-- The first page `i` of a message is replaced by another one with the same successor.
module _ {h : ℕ → Page} (i : ℕ) (rest : List ℕ) (pg : Page) (v : IsMsg h (some i) (i ∷ rest)) where
  pub IsMsg-replace_first :
      0 < pg.ref
      → pg.head ≤ pg.tail
      → pg.tail ≤ page_size
      → pg.next ≡ (h i).next
      → IsMsg (update h i pg) (some i) (i ∷ rest)
  IsMsg-replace_first r hd tl e = record {
    chain = (
      refl,
      rw (update_self h i pg, e) (Seg-update h (h i).next rest none i pg v.distinct.0 v.chain.1),
    );
    distinct = v.distinct;
    used = (
      record {
        in_pool = v.used.0.in_pool;
        referenced = rw (update_self h i pg) r;
        head_le = rw (update_self h i pg) hd;
        tail_le = rw (update_self h i pg) tl;
      },
      IsUsed-update h rest i pg v.distinct.0 v.used.1,
    );
  }

  pub contents_replace_first :
      contents (update h i pg) (i ∷ rest) ≡ page_bytes pg ++ contents h rest
  contents_replace_first = rw (update_self h i pg, contents-update h rest i pg v.distinct.0) refl

-- `page_->data[--page_->head] = x`
abbrev grown_front : Page → ℕ → Page
grown_front pg x = record pg {
  bytes = update pg.bytes (dec_size pg.head) x;
  head = dec_size pg.head;
}

dec_size_pos : (n : ℕ) → 0 < n → n ≤ page_size → dec_size n ≡ n - 1
dec_size_pos n lo hi = omega arith

pub span-cons :
    (f : ℕ → ℕ) (a b : ℕ) → a < b → span f a (b - a) ≡ f a ∷ span f (a + 1) (b - (a + 1))
span-cons f a b h = let n : b - a ≡ suc (b - (a + 1)) = omega arith in ap (span f a) n

page_bytes-grown_front :
    (pg : Page) (x : ℕ)
    → 0 < pg.head
    → pg.head ≤ pg.tail
    → pg.tail ≤ page_size
    → page_bytes (grown_front pg x) ≡ x ∷ page_bytes pg
page_bytes-grown_front pg x pos hd tl = rw dec (
    span-cons (update pg.bytes (pg.head - 1) x) (pg.head - 1) pg.tail (omega arith)
    ∙ rw
        (
          next,
          update_self pg.bytes (pg.head - 1) x,
          span-update_lt pg.bytes pg.head (pg.tail - pg.head) (pg.head - 1) x (omega arith),
        )
        refl)
  where
    dec : dec_size pg.head ≡ pg.head - 1
    dec = dec_size_pos pg.head pos (omega arith)

    next : pg.head - 1 + 1 ≡ pg.head
    next = omega arith

store_front_run :
    (p : Pool) (i x : ℕ)
    → 0 < (p.pages i).head
    → (p.pages i).head ≤ page_size
    → store_front i x p ≡ some (tt, put_page p i (grown_front (p.pages i) x))
unfolding store_front
store_front_run p i x pos hd =
    rw (store_front, ◌>>=◌, lt→ltb (dec_size (p.pages i).head) page_size (omega arith)) refl

-- What `push_front` leaves: the message `m'` of the pages `is'`.
pub record PushedFront (p : Pool) (is : List ℕ) (x : ℕ) (m' : Ptr) (ok : Bool) (q : Pool)
    (is' : List ℕ) : Type 0 where
  pub valid : IsMsg q.pages m' is'
  pub holds : contents q.pages is' ≡ (if ok then x ∷ contents p.pages is else contents p.pages is)
  pub refused : (ok ≡ true) ⊎ (IsExhausted p.pages × (q ≡ p))

abbrev pub FrontOutcome : Pool → ℕ → List ℕ → ℕ → Type 0
FrontOutcome p i is x =
    (m' : Ptr) × (ok : Bool) × (q : Pool) × (is' : List ℕ) × (push_front (some i) x p
      ≡ some ((m', ok), q))
    × PushedFront p is x m' ok q is'

-- The page that is put before a first page whose front is full.
abbrev front_page : Page → ℕ → Page
front_page pg i = record (fresh_page pg) { head = page_size; tail = page_size; next = some i }

module _ (p : Pool) (i x : ℕ) {q : Pool} where
  run_space :
      (p.pages i).ref ≡ 1
      → ((p.pages i).head == 0) ≡ false
      → store_front i x p ≡ some (tt, q)
      → push_front (some i) x p ≡ some ((some i, true), q)
  unfolding push_front
  run_space sole space run = rw (push_front, sole, ◌>>=◌, space, run) refl

  run_link :
      (j : ℕ)
      → (p.pages i).ref ≡ 1
      → ((p.pages i).head == 0) ≡ true
      → page_alloc p ≡ (some j, take_page p j)
      → store_front j x (put_page (take_page p j) j (front_page (p.pages j) i)) ≡ some (tt, q)
      → push_front (some i) x p ≡ some ((some j, true), q)
  unfolding push_front
  run_link j sole full page run =
      rw (push_front, sole, ◌>>=◌, full, page, update_self p.pages j (fresh_page (p.pages j)), run)
        refl

module _ (p : Pool) (i x : ℕ) (rest : List ℕ) (v : IsMsg p.pages (some i) (i ∷ rest))
    (sole : (p.pages i).ref ≡ 1) where
  first-IsUsed : IsUsed p.pages i
  first-IsUsed = v.used.0

  push_front_space : ((p.pages i).head == 0) ≡ false → FrontOutcome p i (i ∷ rest) x
  unfolding push_front
  push_front_space space =
      let pos : 0 < (p.pages i).head = ground arith in
      let pg = grown_front (p.pages i) x in
      let dec =
        dec_size_pos (p.pages i).head pos
          (omega (arith, first-IsUsed.head_le, first-IsUsed.tail_le)) in
      (
        some i,
        true,
        put_page p i pg,
        i ∷ rest,
        run_space p i x sole space
            (store_front_run p i x pos (omega (arith, first-IsUsed.head_le, first-IsUsed.tail_le))),
        record {
          valid =
              IsMsg-replace_first i rest pg v first-IsUsed.referenced
                (omega (arith, dec, first-IsUsed.head_le)) first-IsUsed.tail_le refl;
          holds =
              contents_replace_first i rest pg v
              ∙ ap (λ bs. bs ++ contents p.pages rest)
                  (page_bytes-grown_front (p.pages i) x pos first-IsUsed.head_le
                    first-IsUsed.tail_le);
          refused = inl refl;
        },
      )

  push_front_full :
      ((p.pages i).head == 0) ≡ true
      → page_alloc p ≡ (none, p)
      → IsExhausted p.pages
      → FrontOutcome p i (i ∷ rest) x
  unfolding push_front
  push_front_full full no_page ex = (
    some i,
    false,
    p,
    i ∷ rest,
    rw (push_front, sole, ◌>>=◌, full, no_page) refl,
    record { valid = v; holds = refl; refused = inr (ex, refl) },
  )

  push_front_link :
      (j : ℕ)
      → ((p.pages i).head == 0) ≡ true
      → page_alloc p ≡ (some j, take_page p j)
      → j < pool_pages
      → (p.pages j).ref ≡ 0
      → FrontOutcome p i (i ∷ rest) x
  unfolding push_front
  push_front_link j full page hj unused = (
    some j,
    true,
    put_page mid j (grown_front (mid.pages j) x),
    j ∷ i ∷ rest,
    run_link p i x j sole full page
        (store_front_run mid j x (omega (arith, head_mid)) (omega (arith, head_mid))),
    record {
      valid =
          IsMsg-replace_first j (i ∷ rest) (grown_front (mid.pages j) x) mid_valid
            (rw at_mid (omega arith)) (rw at_mid (omega arith)) (rw at_mid (omega arith)) refl;
      holds =
          contents_replace_first j (i ∷ rest) (grown_front (mid.pages j) x) mid_valid
          ∙ rw
              (page_bytes-grown_front (mid.pages j) x (omega (arith, head_mid))
                (rw at_mid (omega arith)) (rw at_mid (omega arith)))
              (ap (λ bs. x ∷ bs) (rw at_mid (rest_same)));
      refused = inl refl;
    },
  )
    where
      mid : Pool
      mid = put_page (take_page p j) j (front_page (p.pages j) i)

      apart : All (λ a. a ≢ j) (i ∷ rest)
      apart = free_not_used p.pages (i ∷ rest) j unused v.used

      at_mid : mid.pages j ≡ front_page (p.pages j) i
      at_mid = update_self (take_page p j).pages j (front_page (p.pages j) i)

      head_mid : (mid.pages j).head ≡ page_size
      head_mid = ap (λ (pg : Page). pg.head) at_mid

      rest_same : contents mid.pages (i ∷ rest) ≡ contents p.pages (i ∷ rest)
      rest_same =
          contents-update (take_page p j).pages (i ∷ rest) j (front_page (p.pages j) i) apart
          ∙ contents-update p.pages (i ∷ rest) j (fresh_page (p.pages j)) apart

      mid_valid : IsMsg mid.pages (some j) (j ∷ i ∷ rest)
      mid_valid = record {
        chain = (
          refl,
          rw at_mid (
              Seg-update (take_page p j).pages (some i) (i ∷ rest) none j (front_page (p.pages j) i)
                apart
                (Seg-update p.pages (some i) (i ∷ rest) none j (fresh_page (p.pages j)) apart
                  v.chain)),
        );
        distinct = (apart, v.distinct);
        used = (
          record {
            in_pool = hj;
            referenced = rw at_mid (omega arith);
            head_le = rw at_mid (omega arith);
            tail_le = rw at_mid (omega arith);
          },
          IsUsed-update (take_page p j).pages (i ∷ rest) j (front_page (p.pages j) i) apart
              (IsUsed-update p.pages (i ∷ rest) j (fresh_page (p.pages j)) apart v.used),
        );
      }

-- `push_front` on a message whose first page has one reference always returns. If it returns true
-- the message holds the byte and then what it held, if it returns false the pool has no free page
-- and nothing is changed. The message that results is well formed.
pub push_front-cons :
    (p : Pool) (i x : ℕ) (rest : List ℕ)
    → IsMsg p.pages (some i) (i ∷ rest)
    → (p.pages i).ref ≡ 1
    → FrontOutcome p i (i ∷ rest) x
push_front-cons p i x rest v sole = elim (Bool-cases ((p.pages i).head == 0)) [
  | inr space ↦ push_front_space p i x rest v sole space
  | inl full ↦ elim (page_alloc_cases p) [
    | inl (j, page, hj, unused) ↦ push_front_link p i x rest v sole j full page hj unused
    | inr (no_page, ex) ↦ push_front_full p i x rest v sole full no_page ex
  ]
]
