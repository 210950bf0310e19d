-- ===== src/Msg/Walk.antt =====
-- The walk of an iterator of msg.h through a message, and the comparison of two messages.
use decom.Base.{
  ℕ, zero, suc, ◌+◌, ◌-◌, ◌*◌, ◌≤◌, ◌<◌, ◌≡◌, ◌↔◌, refl, ap, sym, subst, ◌∙◌, Bool, true, false,
  ◌&&◌, Option, none, some, List, [], ◌∷◌, ◌++◌, length, length-append, All, arith, ◌==◌, leb,
  Bool-cases, inl, inr, ==_iff, lt→ltb,
}
use mathlib.Core.Bool.{and-true}
use decom.Msg.Pool.{page_size, Ptr, Page, Pool, ◌>>=◌}
use decom.Msg.Ops.{load}
use decom.Msg.Chain.{Seg, span, page_bytes, contents, IsUsed, IsMsg, length-span}
use decom.Msg.Read.{size_lem, pages-lt-rounds}
use decom.Msg.Iterator.{Iterator, begin, next_on, peek, step, steps, equal_from, equal}

-- From `it` on, `operator++` leads over these bytes to the end.
abbrev pub Ahead : (ℕ → Page) → Iterator → List ℕ → Type 0
Ahead h it [] = it.page ≡ none
Ahead h it (b ∷ bs) =
    (i : ℕ) × (it.page ≡ some i) × (load (h i) it.idx ≡ some b) × Ahead h (next_on h i it) bs

-- Every page of the message holds a byte.
abbrev pub IsFull : (ℕ → Page) → List ℕ → Type 0
IsFull h is = All (λ i. (h i).head < (h i).tail) is

abbrev pub iterator : Ptr → Ptr → ℕ → Iterator
iterator first page idx = record { first = first; page = page; idx = idx }

next_on-inside :
    (h : ℕ → Page) (i : ℕ) (it : Iterator)
    → it.idx + 1 < (h i).tail
    → next_on h i it ≡ record it { idx = it.idx + 1 }
unfolding next_on
next_on-inside h i it lt =
    let inside : leb (h i).tail (it.idx + 1) ≡ false = ground arith in rw inside refl

load-lt : (pg : Page) (idx : ℕ) → idx < page_size → load pg idx ≡ some (pg.bytes idx)
load-lt pg idx lt = rw (lt→ltb idx page_size lt) refl

-- The bytes of the page `i` from `idx` on, and those behind it.
Ahead-span :
    (h : ℕ → Page) (f : Ptr) (i idx n : ℕ) (bs : List ℕ)
    → idx + suc n ≡ (h i).tail
    → (h i).tail ≤ page_size
    → Ahead h (next_on h i (iterator f (some i) (idx + n))) bs
    → Ahead h (iterator f (some i) idx) (span (h i).bytes idx (suc n) ++ bs)
Ahead-span h f i idx zero bs e le behind = (
  i,
  refl,
  load-lt (h i) idx (omega arith),
  subst (λ a. Ahead h (next_on h i (iterator f (some i) a)) bs) (omega arith) behind,
)
Ahead-span h f i idx (suc n) bs e le behind =
    let moved : idx + suc n ≡ idx + 1 + n = omega arith in
    let more = subst (λ a. Ahead h (next_on h i (iterator f (some i) a)) bs) moved behind in
    let inside = next_on-inside h i (iterator f (some i) idx) (omega arith) in
    (
      i,
      refl,
      load-lt (h i) idx (omega arith),
      subst (λ it. Ahead h it (span (h i).bytes (idx + 1) (suc n) ++ bs)) (sym inside)
          (Ahead-span h f i (idx + 1) n bs (omega arith) le more),
    )

next_on-last :
    (h : ℕ → Page) (f : Ptr) (i idx : ℕ)
    → (h i).tail ≤ idx + 1
    → (h i).next ≡ none
    → (next_on h i (iterator f (some i) idx)).page ≡ none
unfolding next_on
next_on-last h f i idx le e =
    let leaves : leb (h i).tail (idx + 1) ≡ true = ground arith in rw (leaves, e) refl

next_on-leaves :
    (h : ℕ → Page) (f : Ptr) (i j idx : ℕ)
    → (h i).tail ≤ idx + 1
    → (h i).next ≡ some j
    → next_on h i (iterator f (some i) idx) ≡ iterator f (some j) (h j).head
unfolding next_on
next_on-leaves h f i j idx le e =
    let leaves : leb (h i).tail (idx + 1) ≡ true = ground arith in rw (leaves, e) refl

-- The walk from the first byte of a page to the end of the chain.
Ahead-Seg :
    (h : ℕ → Page) (f : Ptr) (i : ℕ) (is : List ℕ)
    → Seg h (h i).next is none
    → All (IsUsed h) (i ∷ is)
    → IsFull h (i ∷ is)
    → Ahead h (iterator f (some i) (h i).head) (contents h (i ∷ is))
Ahead-Seg h f i [] s u full =
    let n = (h i).tail - (h i).head - 1 in
    let count : suc n ≡ (h i).tail - (h i).head = omega (arith, full.0) in
    subst (λ k. Ahead h (iterator f (some i) (h i).head) (span (h i).bytes (h i).head k ++ []))
      count
      (Ahead-span h f i (h i).head n [] (omega (arith, full.0)) u.0.tail_le
        (next_on-last h f i ((h i).head + n) (omega (arith, full.0)) s))
Ahead-Seg h f i (j ∷ is) s u full =
    let n = (h i).tail - (h i).head - 1 in
    let count : suc n ≡ (h i).tail - (h i).head = omega (arith, full.0) in
    subst
      (λ k.
        Ahead h (iterator f (some i) (h i).head)
          (span (h i).bytes (h i).head k ++ contents h (j ∷ is)))
      count
      (Ahead-span h f i (h i).head n (contents h (j ∷ is)) (omega (arith, full.0)) u.0.tail_le (
        subst (λ it. Ahead h it (contents h (j ∷ is)))
          (sym (next_on-leaves h f i j ((h i).head + n) (omega (arith, full.0)) s.0))
          (Ahead-Seg h f j is s.1 u.1 full.1)))

-- What the loop of `operator==` finds.
abbrev pub same_bytes : List ℕ → List ℕ → Bool
same_bytes [] ys = true
same_bytes (x ∷ xs) [] = false
same_bytes (x ∷ xs) (y ∷ ys) = x == y && same_bytes xs ys

peek-eq-some :
    (h : ℕ → Page) (it : Iterator) (i x : ℕ)
    → it.page ≡ some i
    → load (h i) it.idx ≡ some x
    → peek h it ≡ some x
unfolding peek
peek-eq-some h it i x on here = simp (peek, on, here)

step-eq-some :
    (h : ℕ → Page) (it : Iterator) (i : ℕ) → it.page ≡ some i → step h it ≡ some (next_on h i it)
unfolding step
step-eq-some h it i on = simp (step, on)

equal_from-Ahead :
    (k : ℕ) (h : ℕ → Page) (left right : Iterator) (xs ys : List ℕ)
    → Ahead h left xs
    → Ahead h right ys
    → length xs ≡ length ys
    → length xs < k
    → equal_from k h left right ≡ some (same_bytes xs ys)
unfolding equal_from
equal_from-Ahead zero h left right xs ys a b e fuel = absurd (omega arith)
equal_from-Ahead (suc k) h left right [] ys a b e fuel = rw (a) refl
equal_from-Ahead (suc k) h left right (x ∷ xs) [] a b e fuel = absurd (omega arith)
equal_from-Ahead (suc k) h left right (x ∷ xs) (y ∷ ys) (i, pi, lx, a) (j, pj, ly, b) e fuel =
    let ih =
      equal_from-Ahead k h (next_on h i left) (next_on h j right) xs ys a b (omega arith)
        (omega arith) in
    let px = peek-eq-some h left i x pi lx in
    let py = peek-eq-some h right j y pj ly in
    elim (Bool-cases (x == y)) [
      | inl same ↦
          simp
            (equal_from, pi, px, py, step-eq-some h left i pi, step-eq-some h right j pj, same, ih)
      | inr differ ↦ simp (equal_from, pi, px, py, differ)
    ]

length-contents-le :
    (h : ℕ → Page) (is : List ℕ)
    → All (IsUsed h) is
    → length (contents h is) ≤ page_size * length is
length-contents-le h [] u = omega arith
length-contents-le h (i ∷ is) u = omega (
  arith,
  u.0.tail_le,
  length-append (page_bytes (h i)) (contents h is),
  length-span (h i).bytes (h i).head ((h i).tail - (h i).head),
  length-contents-le h is u.1,
)

same_bytes-eq : (xs ys : List ℕ) → (length xs == length ys && same_bytes xs ys) ≡ true → xs ≡ ys
same_bytes-eq [] [] e = refl
same_bytes-eq [] (y ∷ ys) e = ground arith
same_bytes-eq (x ∷ xs) [] e = ground arith
same_bytes-eq (x ∷ xs) (y ∷ ys) e = ground (arith, same_bytes-eq xs ys)

same_bytes_self : (xs : List ℕ) → (length xs == length xs && same_bytes xs xs) ≡ true
same_bytes_self [] = refl
same_bytes_self (x ∷ xs) = ground (arith, same_bytes_self xs)

same_bytes_iff :
    (xs ys : List ℕ) → ((length xs == length ys && same_bytes xs ys) ≡ true) ↔ (xs ≡ ys)
same_bytes_iff xs ys = (
  same_bytes-eq xs ys,
  λ e. subst (λ zs. (length xs == length zs && same_bytes xs zs) ≡ true) e (same_bytes_self xs),
)

module _ (p : Pool) (i j : ℕ) (is js : List ℕ) (v : IsMsg p.pages (some i) (i ∷ is))
    (w : IsMsg p.pages (some j) (j ∷ js)) (v_full : IsFull p.pages (i ∷ is))
    (w_full : IsFull p.pages (j ∷ js)) where
  equal_run :
      equal (some j) (some i) p
      ≡ some (
        length (contents p.pages (i ∷ is)) == length (contents p.pages (j ∷ js))
            && same_bytes (contents p.pages (i ∷ is)) (contents p.pages (j ∷ js)),
        p,
      )
  unfolding equal begin
  equal_run =
      let xs = contents p.pages (i ∷ is) in
      let ys = contents p.pages (j ∷ js) in
      elim (Bool-cases (length xs == length ys)) [
        | inl same ↦
            let loop =
              equal_from-Ahead steps p.pages (iterator (some i) (some i) (p.pages i).head)
                (iterator (some j) (some j) (p.pages j).head) xs ys
                (Ahead-Seg p.pages (some i) i is v.chain.1 v.used v_full)
                (Ahead-Seg p.pages (some j) j js w.chain.1 w.used w_full)
                ((==_iff (length xs) (length ys)).0 same)
                (omega (
                  arith,
                  length-contents-le p.pages (i ∷ is) v.used,
                  pages-lt-rounds (i ∷ is) v,
                )) in
            rw
              (
                equal,
                ◌>>=◌,
                size_lem {p = p} {m = some i} (i ∷ is) v,
                size_lem {p = p} {m = some j} (j ∷ js) w,
                same,
                loop,
              )
              refl
        | inr differ ↦
            rw
              (
                equal,
                ◌>>=◌,
                size_lem {p = p} {m = some i} (i ∷ is) v,
                size_lem {p = p} {m = some j} (j ∷ js) w,
                differ,
              )
              refl
      ]

  -- The comparison of two messages without empty pages, neither of them null, always returns, and
  -- changes nothing: it returns true exactly if they hold the same bytes, however these are divided
  -- into pages.
  pub equal-eq_contents :
      (b : Bool) × (equal (some j) (some i) p ≡ some (b, p))
      × ((b ≡ true) ↔ (contents p.pages (i ∷ is) ≡ contents p.pages (j ∷ js)))
  equal-eq_contents =
      let xs = contents p.pages (i ∷ is) in
      let ys = contents p.pages (j ∷ js) in
      (length xs == length ys && same_bytes xs ys, equal_run, same_bytes_iff xs ys)

-- An iterator at the beginning of an empty message is not at its end.
Ahead-empty :
    (p : Pool) (i : ℕ)
    → IsMsg p.pages (some i) (i ∷ [])
    → (p.pages i).tail ≡ (p.pages i).head
    → (p.pages i).head < page_size
    → Ahead p.pages
        (iterator (some i) (some i) (p.pages i).head)
        ((p.pages i).bytes (p.pages i).head ∷ [])
Ahead-empty p i v e lt = (
  i,
  refl,
  load-lt (p.pages i) (p.pages i).head lt,
  next_on-last p.pages (some i) i (p.pages i).head (omega (arith, e)) v.chain.1,
)

abbrev answer : Pool → Option Bool → Option (Bool × Pool)
answer p none = none
answer p (some b) = some (b, p)

-- The comparison of two messages that hold no byte, of one page each, compares the bytes behind their
-- places: these belong to neither message.
pub equal_empty :
    (p : Pool) (i j : ℕ)
    → IsMsg p.pages (some i) (i ∷ [])
    → IsMsg p.pages (some j) (j ∷ [])
    → (p.pages i).tail ≡ (p.pages i).head
    → (p.pages j).tail ≡ (p.pages j).head
    → (p.pages i).head < page_size
    → (p.pages j).head < page_size
    → equal (some j) (some i) p
      ≡ some ((p.pages i).bytes (p.pages i).head == (p.pages j).bytes (p.pages j).head, p)
unfolding equal begin
equal_empty p i j v w ei ej li lj =
    let none_left : length (contents p.pages (i ∷ [])) ≡ 0 = omega (
      arith,
      ei,
      length-append (page_bytes (p.pages i)) [],
      length-span (p.pages i).bytes (p.pages i).head ((p.pages i).tail - (p.pages i).head),
    ) in
    let none_right : length (contents p.pages (j ∷ [])) ≡ 0 = omega (
      arith,
      ej,
      length-append (page_bytes (p.pages j)) [],
      length-span (p.pages j).bytes (p.pages j).head ((p.pages j).tail - (p.pages j).head),
    ) in
    let x = (p.pages i).bytes (p.pages i).head in
    let y = (p.pages j).bytes (p.pages j).head in
    let loop =
      equal_from-Ahead steps p.pages (iterator (some i) (some i) (p.pages i).head)
        (iterator (some j) (some j) (p.pages j).head) (x ∷ []) (y ∷ []) (Ahead-empty p i v ei li)
        (Ahead-empty p j w ej lj) refl (omega arith) in
    rw
      (
        equal,
        ◌>>=◌,
        size_lem {p = p} {m = some i} (i ∷ []) v,
        size_lem {p = p} {m = some j} (j ∷ []) w,
        none_left,
        none_right,
      )
      (ap (answer p) (loop ∙ ap some (and-true (x == y))))
