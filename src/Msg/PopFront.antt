-- ===== src/Msg/PopFront.antt =====
-- `pop_front` of msg.h removes the first byte of a message, and with its last byte a page.
use decom.Base.{
  ℕ, ◌+◌, ◌-◌, ◌<◌, ◌≡◌, refl, ap, sym, none, some, List, [], ◌∷◌, true, false, arith, ◌==◌, update,
  Bool-cases, inl, inr, Option-cases, ==_iff,
}
use decom.Msg.Pool.{page_size, dec_size, Ptr, Page, Pool, page_free, put_page, ◌>>=◌}
use decom.Msg.Chain.{span, page_bytes, contents, IsMsg, Seg-update, contents-update, IsUsed-update}
use decom.Msg.Front.{IsMsg-replace_first, contents_replace_first, span-cons}
use decom.Msg.Ops.{pop_front}

pub pages-page_free :
    (p : Pool) (i : ℕ)
    → (page_free p i).pages
      ≡ update p.pages i (record (p.pages i) { ref = dec_size (p.pages i).ref })
unfolding page_free
pages-page_free p i = elim (Bool-cases (dec_size (p.pages i).ref == 0)) [
  | inl last ↦ rw (page_free, last) refl
  | inr more ↦ rw (page_free, more) refl
]

-- The page without its first byte.
abbrev popped : Page → Page
popped pg = record pg { head = pg.head + 1 }

-- What `pop_front` leaves of a message whose first byte is `x`.
pub record Popped (p : Pool) (is : List ℕ) (x : ℕ) (m' : Ptr) (q : Pool) (is' : List ℕ)
    : Type 0 where
  pub valid : IsMsg q.pages m' is'
  pub holds : contents p.pages is ≡ x ∷ contents q.pages is'

module _ (p : Pool) (i : ℕ) (rest : List ℕ) (v : IsMsg p.pages (some i) (i ∷ rest))
    (sole : (p.pages i).ref ≡ 1) (full : (p.pages i).head < (p.pages i).tail) where
  not_empty : ((p.pages i).head == (p.pages i).tail) ≡ false
  not_empty = ground arith

  mid : Pool
  mid = put_page p i (popped (p.pages i))

  first_bytes :
      page_bytes (p.pages i) ≡ (p.pages i).bytes (p.pages i).head ∷ page_bytes (popped (p.pages i))
  first_bytes = span-cons (p.pages i).bytes (p.pages i).head (p.pages i).tail full

  kept_Popped : Popped p (i ∷ rest) ((p.pages i).bytes (p.pages i).head) (some i) mid (i ∷ rest)
  unfolding mid
  kept_Popped = record {
    valid =
        IsMsg-replace_first i rest (popped (p.pages i)) v v.used.0.referenced (omega arith)
          v.used.0.tail_le refl;
    holds = rw (contents_replace_first i rest (popped (p.pages i)) v, first_bytes) refl;
  }

  freed_Popped :
      (j : ℕ)
      → (p.pages i).next ≡ some j
      → (p.pages i).head + 1 ≡ page_size
      → Popped p (i ∷ rest) ((p.pages i).bytes (p.pages i).head) (some j) (page_free mid i) rest
  unfolding mid
  freed_Popped j next edge = rw pages_after (record {
    valid = record {
      chain = rw (sym next) (
          Seg-update (update p.pages i (popped (p.pages i))) (p.pages i).next rest none i last
            v.distinct.0
            (Seg-update p.pages (p.pages i).next rest none i (popped (p.pages i)) v.distinct.0
              v.chain.1));
      distinct = v.distinct.1;
      used =
          IsUsed-update (update p.pages i (popped (p.pages i))) rest i last v.distinct.0
            (IsUsed-update p.pages rest i (popped (p.pages i)) v.distinct.0 v.used.1);
    };
    holds =
        rw
          (
            first_bytes,
            drained,
            contents-update (update p.pages i (popped (p.pages i))) rest i last v.distinct.0,
            contents-update p.pages rest i (popped (p.pages i)) v.distinct.0,
          )
          refl;
  })
    where
      last : Page
      last = record (mid.pages i) { ref = dec_size (mid.pages i).ref }

      pages_after : (page_free mid i).pages ≡ update (update p.pages i (popped (p.pages i))) i last
      pages_after = pages-page_free mid i

      drained : page_bytes (popped (p.pages i)) ≡ []
      drained =
          let none_left : (p.pages i).tail - ((p.pages i).head + 1) ≡ 0 =
            omega (arith, v.used.0.tail_le) in
          ap (span (p.pages i).bytes ((p.pages i).head + 1)) none_left

  run_last : (p.pages i).next ≡ none → pop_front (some i) p ≡ some (some i, mid)
  unfolding pop_front mid
  run_last next = rw (pop_front, ◌>>=◌, not_empty, sole, next) refl

  run_kept :
      (j : ℕ)
      → (p.pages i).next ≡ some j
      → ((p.pages i).head + 1 == page_size) ≡ false
      → pop_front (some i) p ≡ some (some i, mid)
  unfolding pop_front mid
  run_kept j next inside = rw (pop_front, ◌>>=◌, not_empty, sole, next, inside) refl

  run_freed :
      (j : ℕ)
      → (p.pages i).next ≡ some j
      → ((p.pages i).head + 1 == page_size) ≡ true
      → pop_front (some i) p ≡ some (some j, page_free mid i)
  unfolding pop_front mid
  run_freed j next edge = rw (pop_front, ◌>>=◌, not_empty, sole, next, edge) refl

-- `pop_front` on a message whose first page has one reference and is not empty returns, and removes
-- exactly the first byte of what the message holds. The message that results is well formed.
pub pop_front-tail :
    (p : Pool) (i : ℕ) (rest : List ℕ)
    → IsMsg p.pages (some i) (i ∷ rest)
    → (p.pages i).ref ≡ 1
    → (p.pages i).head < (p.pages i).tail
    → (m' : Ptr) × (q : Pool) × (is' : List ℕ) × (pop_front (some i) p ≡ some (m', q))
      × Popped p (i ∷ rest) ((p.pages i).bytes (p.pages i).head) m' q is'
pop_front-tail p i rest v sole full = elim (Option-cases (p.pages i).next) [
  | inl next ↦ (
    some i,
    mid p i rest v sole full,
    i ∷ rest,
    run_last p i rest v sole full next,
    kept_Popped p i rest v sole full,
  )
  | inr (j, next) ↦ elim (Bool-cases ((p.pages i).head + 1 == page_size)) [
    | inl edge ↦ (
      some j,
      page_free (mid p i rest v sole full) i,
      rest,
      run_freed p i rest v sole full j next edge,
      freed_Popped p i rest v sole full j next ((==_iff ((p.pages i).head + 1) page_size).0 edge),
    )
    | inr inside ↦ (
      some i,
      mid p i rest v sole full,
      i ∷ rest,
      run_kept p i rest v sole full j next inside,
      kept_Popped p i rest v sole full,
    )
  ]
]
