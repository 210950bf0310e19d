-- ===== src/Msg/Chain.antt =====
-- The chains of pages that messages are, and what a message holds.
use decom.Base.{
  Distinct, ℕ, zero, suc, ◌+◌, ◌-◌, ◌≤◌, ◌<◌, ◌≡◌, ◌≢◌, refl, ap, ◌∙◌, none, some, List, [], ◌∷◌,
  ◌++◌, snoc, length, All, arith, update, update_ne, append_assoc,
}
use decom.Msg.Pool.{page_size, pool_pages, Ptr, Page}

-- From `a` the `next` pointers lead through the pages `is` to `b`.
abbrev pub Seg : (ℕ → Page) → Ptr → List ℕ → Ptr → Type 0
Seg h a [] b = a ≡ b
Seg h a (i ∷ is) b = (a ≡ some i) × Seg h (h i).next is b

-- `n` bytes from index `i` on.
abbrev pub span : (ℕ → ℕ) → ℕ → ℕ → List ℕ
span f i zero = []
span f i (suc n) = f i ∷ span f (i + 1) n

abbrev pub page_bytes : Page → List ℕ
page_bytes pg = span pg.bytes pg.head (pg.tail - pg.head)

abbrev pub contents : (ℕ → Page) → List ℕ → List ℕ
contents h [] = []
contents h (i ∷ is) = page_bytes (h i) ++ contents h is

-- A page in use.
pub record IsUsed (h : ℕ → Page) (i : ℕ) : Type 0 where
  pub in_pool : i < pool_pages
  pub referenced : 0 < (h i).ref
  pub head_le : (h i).head ≤ (h i).tail
  pub tail_le : (h i).tail ≤ page_size

-- The message `m` consists of the pages `is` of the pool, in this order.
pub record IsMsg (h : ℕ → Page) (m : Ptr) (is : List ℕ) : Type 0 where
  pub chain : Seg h m is none
  pub distinct : Distinct is
  pub used : All (IsUsed h) is

pub length-span : (f : ℕ → ℕ) (i n : ℕ) → length (span f i n) ≡ n
length-span f i zero = refl
length-span f i (suc n) = ap suc (length-span f (i + 1) n)

-- A write outside a span does not change it.
pub span-update_ge : (f : ℕ → ℕ) (i n j v : ℕ) → i + n ≤ j → span (update f j v) i n ≡ span f i n
span-update_ge f i zero j v h = refl
span-update_ge f i (suc n) j v h =
    rw (update_ne f j i v (omega arith))
      (ap (λ l. f i ∷ l) (span-update_ge f (i + 1) n j v (omega arith)))

pub span-update_lt : (f : ℕ → ℕ) (i n j v : ℕ) → j < i → span (update f j v) i n ≡ span f i n
span-update_lt f i zero j v h = refl
span-update_lt f i (suc n) j v h =
    rw (update_ne f j i v (omega arith))
      (ap (λ l. f i ∷ l) (span-update_lt f (i + 1) n j v (omega arith)))

pub span-suc : (f : ℕ → ℕ) (i n : ℕ) → span f i (suc n) ≡ snoc (span f i n) (f (i + n))
span-suc f i zero = ap (λ j. f j ∷ []) (omega arith)
span-suc f i (suc n) =
    ap (λ l. f i ∷ l) (span-suc f (i + 1) n ∙ ap (λ j. snoc (span f (i + 1) n) (f j)) (omega arith))

pub contents-append :
    (h : ℕ → Page) (is js : List ℕ) → contents h (is ++ js) ≡ contents h is ++ contents h js
contents-append h [] js = refl
contents-append h (i ∷ is) js = rw (contents-append h is js, append_assoc)

-- A write to a page that is not in the list.
pub contents-update :
    (h : ℕ → Page) (is : List ℕ) (l : ℕ) (pg : Page)
    → All (λ i. i ≢ l) is
    → contents (update h l pg) is ≡ contents h is
contents-update h [] l pg ne = refl
contents-update h (i ∷ is) l pg ne = rw (update_ne h l i pg ne.0, contents-update h is l pg ne.1)

pub Seg-update :
    (h : ℕ → Page) (a : Ptr) (is : List ℕ) (b : Ptr) (l : ℕ) (pg : Page)
    → All (λ i. i ≢ l) is
    → Seg h a is b
    → Seg (update h l pg) a is b
Seg-update h a [] b l pg ne s = s
Seg-update h a (i ∷ is) b l pg ne s =
    (s.0, rw (update_ne h l i pg ne.0) (Seg-update h (h i).next is b l pg ne.1 s.1))

pub IsUsed-update :
    (h : ℕ → Page) (is : List ℕ) (l : ℕ) (pg : Page)
    → All (λ i. i ≢ l) is
    → All (IsUsed h) is
    → All (IsUsed (update h l pg)) is
IsUsed-update h [] l pg ne u = tt
IsUsed-update h (i ∷ is) l pg ne u = (
  record {
    in_pool = u.0.in_pool;
    referenced = rw (update_ne h l i pg ne.0) u.0.referenced;
    head_le = rw (update_ne h l i pg ne.0) u.0.head_le;
    tail_le = rw (update_ne h l i pg ne.0) u.0.tail_le;
  },
  IsUsed-update h is l pg ne.1 u.1,
)

pub Seg-append :
    (h : ℕ → Page) (a : Ptr) (is : List ℕ) (b : Ptr) (js : List ℕ) (c : Ptr)
    → Seg h a is b
    → Seg h b js c
    → Seg h a (is ++ js) c
Seg-append h a [] b js c s t = rw s t
Seg-append h a (i ∷ is) b js c s t = (s.0, Seg-append h (h i).next is b js c s.1 t)

-- A chain through `is ++ [l]` leads through `is` to `l`, and ends there.
pub Seg-snoc :
    (h : ℕ → Page) (a : Ptr) (is : List ℕ) (l : ℕ) (c : Ptr)
    → Seg h a (snoc is l) c
    → Seg h a is (some l) × ((h l).next ≡ c)
Seg-snoc h a [] l c s = s
Seg-snoc h a (i ∷ is) l c s =
    let (front, back) = Seg-snoc h (h i).next is l c s.1 in ((s.0, front), back)
