-- ===== src/Msg/Read.antt =====
-- What `last_page`, `size` and `at` of msg.h find in a message.
use decom.Base.{
  length-Distinct-le, ℕ, zero, suc, ◌+◌, ◌-◌, ◌≤◌, ◌<◌, ◌≡◌, refl, ap, ◌∙◌, none, some, List, [],
  ◌∷◌, ◌++◌, snoc, length, length-append, All, All-map, arith, ltb, get_or, Bool-cases, inl, inr,
  ltb→lt, lt→ltb,
}
use decom.Msg.Pool.{page_size, pool_pages, rounds, sub_size, Ptr, Page, Pool}
use decom.Msg.Chain.{Seg, span, page_bytes, contents, IsUsed, IsMsg, length-span, Seg-snoc}
use decom.Msg.Ops.{last_from, last_page, size_from, size, at_from, at, illegal_ref}

-- A message has at most as many pages as the pool, fewer than a loop has rounds.
pub pages-lt-rounds : {h : ℕ → Page} {m : Ptr} (is : List ℕ) → IsMsg h m is → length is < rounds
pages-lt-rounds {h} is v = omega (
  arith,
  length-Distinct-le pool_pages is v.distinct
      (All-map (IsUsed h) (λ i. i < pool_pages) is (λ i u. u.in_pool) v.used),
)

last_from-Seg :
    (k : ℕ) (h : ℕ → Page) (i l : ℕ) (pre : List ℕ)
    → Seg h (some i) pre (some l)
    → (h l).next ≡ none
    → length pre < k
    → last_from k h i ≡ some l
unfolding last_from
last_from-Seg zero h i l pre s e fuel = absurd (omega arith)
last_from-Seg (suc k) h i l [] s e fuel =
    let same : i ≡ l = ground arith in
    let ends : (h i).next ≡ none = rw same e in rw (last_from, ends) s
last_from-Seg (suc k) h i l (j ∷ []) s e fuel =
    let same : i ≡ j = ground (arith, s.0) in
    rw (same, last_from, s.1) (last_from-Seg k h l l [] refl e (omega arith))
last_from-Seg (suc k) h i l (j ∷ j' ∷ pre) s e fuel =
    let same : i ≡ j = ground (arith, s.0) in
    rw (same, last_from, s.1.0) (last_from-Seg k h j' l (j' ∷ pre) (refl, s.1.1) e (omega arith))

pub last_page_lem :
    (p : Pool) (i l : ℕ) (pre : List ℕ)
    → IsMsg p.pages (some i) (snoc pre l)
    → last_page (some i) p ≡ some (l, p)
unfolding last_page
last_page_lem p i l pre v =
    let (front, back) = Seg-snoc p.pages (some i) pre l none v.chain in
    rw (
      last_page,
      last_from-Seg rounds p.pages i l pre front back
          (omega (arith, pages-lt-rounds (snoc pre l) v, length-append pre (l ∷ []))),
    )

size_from-Seg :
    (k : ℕ) (h : ℕ → Page) (m : Ptr) (is : List ℕ) (acc : ℕ)
    → Seg h m is none
    → All (IsUsed h) is
    → length is < k
    → size_from k h m acc ≡ some (acc + length (contents h is))
unfolding size_from
size_from-Seg zero h m is acc s u fuel = absurd (omega arith)
size_from-Seg (suc k) h m [] acc s u fuel = rw s (ap some (omega arith))
size_from-Seg (suc k) h m (i ∷ is) acc s u fuel = rw s.0 (
    size_from-Seg k h (h i).next is (acc + sub_size (h i).tail (h i).head) s.1 u.1 (omega arith)
    ∙ ap some (
        omega (
          arith,
          u.0.head_le,
          u.0.tail_le,
          length-append (page_bytes (h i)) (contents h is),
          length-span (h i).bytes (h i).head ((h i).tail - (h i).head),
        )))

-- `size` is the number of bytes that the message holds; it changes nothing.
pub size_lem :
    {p : Pool} {m : Ptr} (is : List ℕ)
    → IsMsg p.pages m is
    → size m p ≡ some (length (contents p.pages is), p)
unfolding size
size_lem {p} {m} is v =
    rw (size, size_from-Seg rounds p.pages m is 0 v.chain v.used (pages-lt-rounds is v))
      (ap (λ n. some (n, p)) (omega arith))

get_or-append_lt {ℓ} :
    {A : Type ℓ} (xs ys : List A) (i : ℕ) (d : A)
    → i < length xs
    → get_or (xs ++ ys) i d ≡ get_or xs i d
get_or-append_lt [] ys i d h = absurd (omega arith)
get_or-append_lt (x ∷ xs) ys zero d h = refl
get_or-append_lt (x ∷ xs) ys (suc i) d h = get_or-append_lt xs ys i d (omega arith)

get_or-append_add {ℓ} :
    {A : Type ℓ} (xs ys : List A) (i : ℕ) (d : A)
    → length xs ≤ i
    → get_or (xs ++ ys) i d ≡ get_or ys (i - length xs) d
get_or-append_add [] ys i d h = ap (λ j. get_or ys j d) (omega arith)
get_or-append_add (x ∷ xs) ys zero d h = absurd (omega arith)
get_or-append_add (x ∷ xs) ys (suc i) d h =
    get_or-append_add xs ys i d (omega arith) ∙ ap (λ j. get_or ys j d) (omega arith)

get_or-span : (f : ℕ → ℕ) (i n j d : ℕ) → j < n → get_or (span f i n) j d ≡ f (i + j)
get_or-span f i zero j d h = absurd (omega arith)
get_or-span f i (suc n) zero d h = ap f (omega arith)
get_or-span f i (suc n) (suc j) d h = get_or-span f (i + 1) n j d (omega arith) ∙ ap f (omega arith)

at_from-Seg :
    (k : ℕ) (h : ℕ → Page) (m : Ptr) (is : List ℕ) (pos before : ℕ)
    → Seg h m is none
    → All (IsUsed h) is
    → length is < k
    → before ≤ pos
    → at_from k h m pos before ≡ some (get_or (contents h is) (pos - before) illegal_ref)
unfolding at_from
at_from-Seg zero h m is pos before s u fuel le = absurd (omega arith)
at_from-Seg (suc k) h m [] pos before s u fuel le = rw s refl
at_from-Seg (suc k) h m (i ∷ is) pos before s u fuel le =
    let here : sub_size (h i).tail (h i).head ≡ (h i).tail - (h i).head =
      omega (arith, u.0.head_le, u.0.tail_le) in
    let n = (h i).tail - (h i).head in
    let len = length-span (h i).bytes (h i).head n in
    rw (s.0, here)
      (elim (Bool-cases (ltb pos (before + n))) [
        | inl inside ↦
            rw
              (
                inside,
                get_or-append_lt (page_bytes (h i)) (contents h is) (pos - before) illegal_ref
                    (ground arith),
                lt→ltb ((h i).head + pos - before) page_size
                    (omega (arith, u.0.head_le, u.0.tail_le, ltb→lt pos (before + n) inside)),
                get_or-span (h i).bytes (h i).head n (pos - before) illegal_ref (ground arith),
              )
              (ap (λ a. some ((h i).bytes a)) (omega arith))
        | inr beyond ↦
            rw
              (
                beyond,
                get_or-append_add (page_bytes (h i)) (contents h is) (pos - before) illegal_ref
                    (ground arith),
                at_from-Seg k h (h i).next is pos (before + n) s.1 u.1 (omega arith) (ground arith),
              )
              (ap (λ a. some (get_or (contents h is) a illegal_ref)) (omega arith))
      ])

-- `at` reads the byte at its position, and the illegal reference 0xCC outside the message.
pub at_lem :
    {p : Pool} {m : Ptr} (is : List ℕ) (pos : ℕ)
    → IsMsg p.pages m is
    → at m pos p ≡ some (get_or (contents p.pages is) pos illegal_ref, p)
unfolding at
at_lem {p} {m = none} [] pos v = refl
at_lem {p} {m = none} (i ∷ is) pos v = cc (v.chain.0)
at_lem {p} {m = some i} is pos v =
    rw
      (
        at,
        at_from-Seg rounds p.pages (some i) is pos 0 v.chain v.used (pages-lt-rounds is v)
            (omega arith),
      )
      (ap (λ n. some (get_or (contents p.pages is) n illegal_ref, p)) (omega arith))
