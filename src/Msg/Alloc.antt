-- ===== src/Msg/Alloc.antt =====
-- Allocation in the pool of msg.h.
use decom.Base.{
  ℕ, zero, suc, ◌+◌, ◌≤◌, ◌<◌, ◌≡◌, ◌≢◌, sym, ◌⊎◌, inl, inr, none, some, List, All, All-map, arith,
  ◌==◌, Bool-cases, Option-cases,
}
use decom.Msg.Pool.{pool_pages, Page, Pool, find_free, page_alloc, take_page}
use decom.Msg.Chain.{IsUsed}

-- No page of the pool is free.
abbrev pub IsExhausted : (ℕ → Page) → Type 0
IsExhausted h = (j : ℕ) → j < pool_pages → (h j).ref ≢ 0

pub find_free-some :
    (h : ℕ → Page) (n i j : ℕ) → find_free h n i ≡ some j → (i ≤ j) × (j < i + n) × ((h j).ref ≡ 0)
unfolding find_free
find_free-some h zero i j e = cc
find_free-some h (suc n) i j e = elim (Bool-cases ((h i).ref == 0)) [
  | inl free ↦ ground arith
  | inr used ↦
      let (lo, hi, ref) = find_free-some h n (i + 1) j (rw used at e) in
      (omega arith, omega arith, ref)
]

pub find_free-none :
    (h : ℕ → Page) (n i j : ℕ) → find_free h n i ≡ none → i ≤ j → j < i + n → (h j).ref ≢ 0
unfolding find_free
find_free-none h zero i j e lo hi = absurd (omega arith)
find_free-none h (suc n) i j e lo hi = elim (Bool-cases ((h i).ref == 0)) [
  | inl free ↦ ground arith
  | inr used ↦ elim (Bool-cases (i == j)) [
    | inl same ↦ ground arith
    | inr ne ↦ find_free-none h n (i + 1) j (rw used at e) (ground arith) (omega arith)
  ]
]

-- `page_alloc` hands out a page that nobody references, if there is one.
pub page_alloc_cases :
    (p : Pool)
    → ((j : ℕ) × (page_alloc p ≡ (some j, take_page p j))
        × (j < pool_pages)
        × ((p.pages j).ref ≡ 0))
      ⊎ ((page_alloc p ≡ (none, p)) × IsExhausted p.pages)
unfolding page_alloc
page_alloc_cases p = elim (Option-cases (find_free p.pages pool_pages 0)) [
  | inl full ↦ inr (
    rw (page_alloc, full),
    λ j hj. find_free-none p.pages pool_pages 0 j full (omega arith) (omega arith),
  )
  | inr (j, found) ↦
      let (lo, hi, ref) = find_free-some p.pages pool_pages 0 j found in
      inl (j, rw (page_alloc, found), omega arith, ref)
]

-- A page that nobody references is none of the pages of a message.
pub free_not_used :
    (h : ℕ → Page) (is : List ℕ) (j : ℕ) → (h j).ref ≡ 0 → All (IsUsed h) is → All (λ i. i ≢ j) is
free_not_used h is j e =
    All-map (IsUsed h) (λ i. i ≢ j) is
      (λ i u same. let r : 0 < (h j).ref = rw (sym same) u.referenced in omega arith)
