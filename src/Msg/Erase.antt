-- ===== src/Msg/Erase.antt =====
-- `erase` of msg.h in a message of one page.
use decom.Base.{
  ◌≢◌, length-append, update_ne, append-nil, ◌-◌, ℕ, zero, suc, ◌+◌, ◌≤◌, ◌<◌, ◌≡◌, refl, ap, sym,
  subst, ◌∙◌, false, none, some, [], ◌∷◌, ◌++◌, length, take, drop, arith, ltb, update,
}
use decom.Msg.Pool.{page_size, Ptr, Page, Pool, put_page, ◌>>=◌}
use decom.Msg.Page.{down_bytes, span-down_bytes, put_page_same}
use decom.Msg.Chain.{IsMsg, contents, page_bytes, span, length-span}
use decom.Msg.Last.{IsMsg-replace_last, contents_replace_last}
use decom.Msg.Iterator.{shift_down, erase, steps}
use decom.Msg.Steps.{
  iterator, next-inside, next-last, read_at-inside, write_at-inside, pop_back-put_page, same-end,
}

shift_down-run :
    (p : Pool) (i : ℕ) (f : Ptr) (k n : ℕ) (pg : Page) (idx : ℕ)
    → idx + 1 + n ≡ pg.tail
    → pg.tail ≤ page_size
    → pg.next ≡ none
    → n < k
    → shift_down k (iterator f (some i) idx) (put_page p i pg)
      ≡ some (tt, put_page p i (record pg { bytes = down_bytes n pg.bytes idx }))
unfolding shift_down
shift_down-run p i f zero n pg idx e le last fuel = absurd (omega arith)
shift_down-run p i f (suc k) zero pg idx e le last fuel =
    rw (shift_down, ◌>>=◌, next-last p i f pg idx (omega arith) last) refl
shift_down-run p i f (suc k) (suc n) pg idx e le last fuel =
    let x = pg.bytes (idx + 1) in
    rw
      (
        shift_down,
        ◌>>=◌,
        next-inside p i f pg idx (omega arith),
        read_at-inside p i f pg (idx + 1) (omega arith),
        write_at-inside p i f pg idx x (omega arith),
      )
      (shift_down-run p i f k n (record pg { bytes = update pg.bytes idx x }) (idx + 1)
        (omega arith) le last (omega arith))

-- A message of one page with one reference.
module _ (p : Pool) (i k : ℕ) (v : IsMsg p.pages (some i) (i ∷ [])) (one : (p.pages i).ref ≡ 1)
    (inside : k < length (contents p.pages (i ∷ []))) where
  abbrev page : Page
  page = p.pages i

  -- The bytes behind the one that is erased.
  abbrev behind : ℕ
  behind = page.tail - page.head - suc k

  abbrev shifted : Page
  shifted = record page { bytes = down_bytes behind page.bytes (page.head + k) }

  abbrev erased : Page
  erased = record shifted { tail = page.tail - 1 }

  count : k + suc behind ≡ page.tail - page.head
  count = omega (
    arith,
    inside,
    length-append (page_bytes page) [],
    length-span page.bytes page.head (page.tail - page.head),
  )

  shift :
      shift_down steps (iterator (some i) (some i) (page.head + k)) p
      ≡ some (tt, put_page p i shifted)
  shift =
      subst
        (λ q.
          shift_down steps (iterator (some i) (some i) (page.head + k)) q
          ≡ some (tt, put_page p i shifted))
        (put_page_same p i)
        (shift_down-run p i (some i) steps behind page (page.head + k)
          (omega (arith, count, v.used.0.head_le)) v.used.0.tail_le v.chain.1
          (omega (arith, v.used.0.tail_le)))

  erase-run :
      erase (some i) (iterator (some i) (some i) (page.head + k)) p
      ≡ some (iterator (some i) (some i) (page.head + k), put_page p i erased)
  unfolding erase
  erase-run =
      let alone : ltb 1 page.ref ≡ false = ground (arith, one) in
      simp (
        ◌>>=◌,
        alone,
        same-end (some i) (some i) i (page.head + k),
        shift,
        pop_back-put_page p i shifted v.chain.1 one (omega (arith, count)) v.used.0.tail_le,
      )

  bytes_erased : page_bytes erased ≡ take k (page_bytes page) ++ drop (suc k) (page_bytes page)
  bytes_erased =
      let less : page.tail - 1 - page.head ≡ k + behind = omega (arith, count) in
      let f = page.bytes in
      ap (span erased.bytes page.head) less
      ∙ (span-down_bytes f page.head k behind
          ∙ ap (λ n. take k (span f page.head n) ++ drop (suc k) (span f page.head n)) count)

  -- `erase` at the byte `k` of a message of one page with one reference returns its argument, and the
  -- well-formed message holds all bytes but this one, in their order; no other page is changed.
  pub erase_lem :
      (q : Pool) × (erase (some i) (iterator (some i) (some i) ((p.pages i).head + k)) p
        ≡ some (iterator (some i) (some i) ((p.pages i).head + k), q))
      × IsMsg q.pages (some i) (i ∷ [])
      × (contents q.pages (i ∷ [])
          ≡ take k (contents p.pages (i ∷ [])) ++ drop (suc k) (contents p.pages (i ∷ [])))
      × ((a : ℕ) → a ≢ i → q.pages a ≡ p.pages a)
  erase_lem = (
    put_page p i erased,
    erase-run,
    IsMsg-replace_last [] i erased v v.used.0.referenced (omega (arith, count))
        (omega (arith, v.used.0.tail_le)) v.chain.1,
    contents_replace_last [] i erased v
        ∙ (bytes_erased
            ∙ ap (λ l. take k l ++ drop (suc k) l) (sym (append-nil (page_bytes page)))),
    λ a ne. update_ne p.pages i a erased ne,
  )
