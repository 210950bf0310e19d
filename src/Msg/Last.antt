-- ===== src/Msg/Last.antt =====
-- Changes to the last page of a message, and a new page behind it.
use decom.Base.{
  Distinct-snoc, Distinct-last, ℕ, suc, ◌+◌, ◌-◌, ◌≤◌, ◌<◌, ◌≡◌, ◌≢◌, refl, ap, sym, ◌∙◌, none,
  some, List, [], ◌∷◌, ◌++◌, snoc, All, All-left, All-right, All-append, arith, update, update_self,
  update_ne, append_assoc, append-nil,
}
use decom.Msg.Pool.{page_size, pool_pages, Ptr, Page, fresh_page}
use decom.Msg.Chain.{
  Seg, span, page_bytes, contents, IsUsed, IsMsg, Seg-snoc, Seg-update, Seg-append, span-update_ge,
  span-suc, contents-append, contents-update, IsUsed-update,
}
use decom.Msg.Alloc.{free_not_used}

-- The last page `l` of a message is replaced by another page that ends a chain.
module _ {h : ℕ → Page} {m : Ptr} (pre : List ℕ) (l : ℕ) (pg : Page)
    (v : IsMsg h m (snoc pre l)) where
  others : All (λ j. j ≢ l) pre
  others = (Distinct-last pre l v.distinct).1

  pub IsMsg-replace_last :
      0 < pg.ref
      → pg.head ≤ pg.tail
      → pg.tail ≤ page_size
      → pg.next ≡ none
      → IsMsg (update h l pg) m (snoc pre l)
  IsMsg-replace_last r hd tl e = record {
    chain =
        Seg-append (update h l pg) m pre (some l) (l ∷ []) none
          (Seg-update h m pre (some l) l pg others (Seg-snoc h m pre l none v.chain).0)
          (refl, rw (update_self h l pg) e);
    distinct = v.distinct;
    used =
        All-append (IsUsed (update h l pg)) pre (l ∷ [])
          (IsUsed-update h pre l pg others (All-left (IsUsed h) pre (l ∷ []) v.used))
          (
            record {
              in_pool = (All-right (IsUsed h) pre (l ∷ []) v.used).0.in_pool;
              referenced = rw (update_self h l pg) r;
              head_le = rw (update_self h l pg) hd;
              tail_le = rw (update_self h l pg) tl;
            },
            tt,
          );
  }

  pub contents_replace_last :
      contents (update h l pg) (snoc pre l) ≡ contents h pre ++ page_bytes pg
  contents_replace_last =
      rw
        (
          contents-append (update h l pg) pre (l ∷ []),
          contents-update h pre l pg others,
          update_self h l pg,
          append-nil,
        )
        refl

  pub contents_last : contents h (snoc pre l) ≡ contents h pre ++ page_bytes (h l)
  contents_last = rw (contents-append h pre (l ∷ []), append-nil) refl

-- `page->data[page->tail++] = x`
abbrev pub grown : Page → ℕ → Page
grown pg x = record pg { bytes = update pg.bytes pg.tail x; tail = pg.tail + 1 }

pub page_bytes-grown :
    (pg : Page) (x : ℕ) → pg.head ≤ pg.tail → page_bytes (grown pg x) ≡ snoc (page_bytes pg) x
page_bytes-grown pg x hd =
    ap (span (update pg.bytes pg.tail x) pg.head) one_more
    ∙ span-suc (update pg.bytes pg.tail x) pg.head (pg.tail - pg.head)
    ∙ rw
        (
          span-update_ge pg.bytes pg.head (pg.tail - pg.head) pg.tail x (omega arith),
          at_tail,
          update_self pg.bytes pg.tail x,
        )
        refl
  where
    one_more : pg.tail + 1 - pg.head ≡ suc (pg.tail - pg.head)
    one_more = omega arith

    at_tail : pg.head + (pg.tail - pg.head) ≡ pg.tail
    at_tail = omega arith

module _ {h : ℕ → Page} {m : Ptr} (pre : List ℕ) (l x : ℕ) (v : IsMsg h m (snoc pre l))
    (room : (h l).tail < page_size) where
  last-IsUsed : IsUsed h l
  last-IsUsed = (All-right (IsUsed h) pre (l ∷ []) v.used).0

  pub IsMsg-store : IsMsg (update h l (grown (h l) x)) m (snoc pre l)
  IsMsg-store =
      IsMsg-replace_last pre l (grown (h l) x) v last-IsUsed.referenced
        (omega (arith, last-IsUsed.head_le)) (omega arith) (Seg-snoc h m pre l none v.chain).1

  pub contents_store :
      contents (update h l (grown (h l) x)) (snoc pre l) ≡ snoc (contents h (snoc pre l)) x
  contents_store =
      rw
        (
          contents_replace_last pre l (grown (h l) x) v,
          contents_last pre l (h l) v,
          page_bytes-grown (h l) x last-IsUsed.head_le,
          append_assoc,
        )
        refl

-- A fresh page `j` is linked behind the last page.
abbrev pub linked : (ℕ → Page) → ℕ → ℕ → ℕ → Page
linked h l j = update (update h j (fresh_page (h j))) l (record (h l) { next = some j })

module _ {h : ℕ → Page} {m : Ptr} (pre : List ℕ) (l j : ℕ) (v : IsMsg h m (snoc pre l))
    (in_pool : j < pool_pages) (unused : (h j).ref ≡ 0) where
  apart : All (λ i. i ≢ j) (snoc pre l)
  apart = free_not_used h (snoc pre l) j unused v.used

  l-ne-j : l ≢ j
  l-ne-j = (All-right (λ i. i ≢ j) pre (l ∷ []) apart).0

  at_j : linked h l j j ≡ fresh_page (h j)
  at_j =
      update_ne (update h j (fresh_page (h j))) l j (record (h l) { next = some j })
        (λ e. l-ne-j (sym e))
      ∙ update_self h j (fresh_page (h j))

  at_l : linked h l j l ≡ record (h l) { next = some j }
  at_l = update_self (update h j (fresh_page (h j))) l (record (h l) { next = some j })

  front : Seg (linked h l j) m (snoc pre l) (some j)
  front =
      Seg-append (linked h l j) m pre (some l) (l ∷ []) (some j)
        (Seg-update (update h j (fresh_page (h j))) m pre (some l) l
          (record (h l) { next = some j }) (others pre l (h l) v)
          (Seg-update h m pre (some l) j (fresh_page (h j))
            (All-left (λ i. i ≢ j) pre (l ∷ []) apart) (Seg-snoc h m pre l none v.chain).0))
        (refl, ap (λ (pg : Page). pg.next) at_l)

  IsUsed-before : All (IsUsed (linked h l j)) (snoc pre l)
  IsUsed-before =
      let last = (All-right (IsUsed h) pre (l ∷ []) v.used).0 in
      All-append (IsUsed (linked h l j)) pre (l ∷ [])
        (IsUsed-update (update h j (fresh_page (h j))) pre l (record (h l) { next = some j })
          (others pre l (h l) v)
          (IsUsed-update h pre j (fresh_page (h j)) (All-left (λ i. i ≢ j) pre (l ∷ []) apart)
            (All-left (IsUsed h) pre (l ∷ []) v.used)))
        (
          record {
            in_pool = last.in_pool;
            referenced = rw at_l last.referenced;
            head_le = rw at_l last.head_le;
            tail_le = rw at_l last.tail_le;
          },
          tt,
        )

  pub IsMsg-link : IsMsg (linked h l j) m (snoc (snoc pre l) j)
  IsMsg-link = record {
    chain =
        Seg-append (linked h l j) m (snoc pre l) (some j) (j ∷ []) none front
          (refl, ap (λ (pg : Page). pg.next) at_j);
    distinct = Distinct-snoc (snoc pre l) j v.distinct apart;
    used = All-append (IsUsed (linked h l j)) (snoc pre l) (j ∷ []) IsUsed-before (
      record {
        in_pool = in_pool;
        referenced = rw at_j (omega arith);
        head_le = rw at_j (omega arith);
        tail_le = rw at_j (omega arith);
      },
      tt,
    );
  }

  pub contents_link : contents (linked h l j) (snoc (snoc pre l) j) ≡ contents h (snoc pre l)
  contents_link =
      contents-append (linked h l j) (snoc pre l) (j ∷ [])
      ∙ ap (λ bs. contents (linked h l j) (snoc pre l) ++ (bs ++ [])) (ap page_bytes at_j)
      ∙ append-nil (contents (linked h l j) (snoc pre l))
      ∙ contents-append (linked h l j) pre (l ∷ [])
      ∙ rw
          (
            contents-update (update h j (fresh_page (h j))) pre l (record (h l) { next = some j })
                (others pre l (h l) v),
            contents-update h pre j (fresh_page (h j)) (All-left (λ i. i ≢ j) pre (l ∷ []) apart),
          )
          (ap (λ bs. contents h pre ++ (bs ++ [])) (ap page_bytes at_l)
            ∙ sym (contents-append h pre (l ∷ [])))

  pub tail_linked : (linked h l j j).tail ≡ 0
  tail_linked = ap (λ (pg : Page). pg.tail) at_j
