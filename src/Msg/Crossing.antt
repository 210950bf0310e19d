-- ===== src/Msg/Crossing.antt =====
-- `insert` of msg.h before a byte of the first page of a message of two pages.
use decom.Base.{
  ℕ, zero, suc, ◌+◌, ◌-◌, ◌≤◌, ◌<◌, ◌≡◌, ◌≢◌, refl, ap, sym, subst, ◌∙◌, true, false, Option, none,
  some, [], ◌∷◌, length, arith, ◌==◌, ltb, update, update_self, update_ne, Bool-cases, inl, inr,
  get_or, lt→ltb, le→not_ltb, ==_refl, ==_ne,
}
use mathlib.Core.Bool.{and-false}
use decom.Msg.Pool.{rounds, page_size, dec_size, Page, Pool, put_page, ◌>>=◌}
use decom.Msg.Chain.{IsMsg, contents}
use decom.Msg.Last.{grown}
use decom.Msg.Read.{size_lem, at_lem, last_page_lem}
use decom.Msg.Ops.{push_back, append_behind, room_after, store_back, illegal_ref, last_from}
use decom.Msg.Iterator.{
  Iterator, shift_up, insert, insert_checked, steps, same, same_ptr, end, prev, read_at, place,
  prev_on, before_from, peek,
}
use decom.Msg.Steps.{iterator, read_at-inside, write_at-inside, prev-inside}

before_from-first :
    (k : ℕ) (h : ℕ → Page) (i j : ℕ) → (h i).next ≡ some j → before_from (suc k) h i j ≡ some i
unfolding before_from
before_from-first k h i j e = rw (before_from, e, ==_refl j) refl

last_from-second :
    (k : ℕ) (h : ℕ → Page) (i j : ℕ)
    → (h i).next ≡ some j
    → (h j).next ≡ none
    → last_from (suc (suc k)) h i ≡ some j
unfolding last_from
last_from-second k h i j e e' = rw (last_from, e, e') refl

-- `--` at the first byte of the page `page`, behind the first page.
prev_on-crossing :
    (h : ℕ → Page) (it : Iterator) (first page idx : ℕ)
    → idx ≤ (h page).head
    → page ≢ first
    → (h first).next ≡ some page
    → prev_on h it first page idx ≡ some (record it { page = some first; idx = (h first).tail })
unfolding prev_on
prev_on-crossing h it first page idx le ne e =
    rw (le→not_ltb (h page).head idx le, ==_ne page first ne, before_from-first 128 h first page e)
      refl

abbrev answer : Pool → Option Iterator → Option (Iterator × Pool)
answer q none = none
answer q (some it) = some (it, q)

prev-end_second :
    (q : Pool) (i l : ℕ)
    → last_from rounds q.pages i ≡ some l
    → (q.pages l).head < (q.pages l).tail
    → prev (end (some i)) q ≡ some (iterator (some i) (some l) ((q.pages l).tail - 1), q)
unfolding prev place prev_on end last_from
prev-end_second q i l last lt =
    simp (prev, place, prev_on, last, lt→ltb (q.pages l).head (q.pages l).tail lt)

-- The page `j` behind the first page `i`, which is full to its end.
module _ (p : Pool) (i j : ℕ) (apart : j ≢ i) (follows : (p.pages i).next ≡ some j)
    (full : (p.pages i).tail ≡ page_size) where
  same-crossing :
      (idx : ℕ) (position : Iterator)
      → position.page ≡ some i
      → same (iterator (some i) (some j) idx) position ≡ false
  unfolding same
  same-crossing idx position on =
      let away : same_ptr (some j) position.page ≡ false =
        ap (same_ptr (some j)) on ∙ ==_ne j i apart in
      rw away (and-false (idx == position.idx))

  -- From the first byte of the second page `--` leads behind the buffer of the first.
  prev-crossing :
      (pg : Page)
      → prev (iterator (some i) (some j) pg.head) (put_page p j pg)
        ≡ some (iterator (some i) (some i) page_size, put_page p j pg)
  unfolding prev place
  prev-crossing pg =
      let q = put_page p j pg in
      let it = iterator (some i) (some j) pg.head in
      let at_i : q.pages i ≡ p.pages i = update_ne p.pages j i pg (λ e. apart (sym e)) in
      let at_j : q.pages j ≡ pg = update_self p.pages j pg in
      ap (answer q) (
        prev_on-crossing q.pages it i j pg.head (omega (arith, ap (λ (x : Page). x.head) at_j))
          apart (ap (λ (x : Page). x.next) at_i ∙ follows)
        ∙ ap (λ a. some (iterator (some i) (some i) a)) (ap (λ (x : Page). x.tail) at_i ∙ full))

  read_at-crossing : (q : Pool) → read_at (iterator (some i) (some i) page_size) q ≡ none
  unfolding read_at peek
  read_at-crossing q = refl

  shift_up-crossing :
      (k n : ℕ) (pg : Page) (idx : ℕ) (position : Iterator)
      → idx ≡ pg.head + n
      → idx < page_size
      → n < k
      → position.page ≡ some i
      → shift_up k (iterator (some i) (some j) idx) position (put_page p j pg) ≡ none
  unfolding shift_up
  shift_up-crossing zero n pg idx position e le fuel on = absurd (omega arith)
  shift_up-crossing (suc k) zero pg idx position e le fuel on =
      let here : pg.head ≡ idx = omega arith in
      subst (λ a. shift_up (suc k) (iterator (some i) (some j) a) position (put_page p j pg) ≡ none)
        here
        (simp (
          ◌>>=◌,
          same-crossing pg.head position on,
          prev-crossing pg,
          read_at-crossing (put_page p j pg),
        ))
  shift_up-crossing (suc k) (suc n) pg idx position e le fuel on =
      let x = pg.bytes (idx - 1) in
      let moved = record pg { bytes = update pg.bytes idx x } in
      simp
        (
          ◌>>=◌,
          same-crossing idx position on,
          prev-inside p j (some i) pg i idx (omega arith),
          read_at-inside p j (some i) pg (idx - 1) (omega arith),
          write_at-inside p j (some i) pg idx x le,
          prev-inside p j (some i) moved i idx (omega arith),
        )
        (shift_up-crossing k n moved (idx - 1) position (omega arith) (omega arith) (omega arith)
          on)

-- A message of two pages with one reference, the first one full to its end, the second one with room.
module _ (p : Pool) (i j x : ℕ) (position : Iterator) (v : IsMsg p.pages (some i) (i ∷ j ∷ []))
    (one : (p.pages i).ref ≡ 1) (full : (p.pages i).tail ≡ page_size)
    (room : (p.pages j).tail < page_size) (on_first : position.page ≡ some i) where
  abbrev page : Page
  page = p.pages j

  follows : (p.pages i).next ≡ some j
  follows = v.chain.1.0

  apart : j ≢ i
  apart = v.distinct.0.0

  push_back-second : (b : ℕ) → push_back (some i) b p ≡ some (true, put_page p j (grown page b))
  unfolding push_back append_behind room_after store_back
  push_back-second b =
      let alone : ltb 1 (p.pages i).ref ≡ false = ground (arith, one) in
      let space : (page.tail == page_size) ≡ false = ground arith in
      simp (◌>>=◌, alone, last_page_lem p i j (i ∷ []) v, space, lt→ltb page.tail page_size room)

  start :
      (b : ℕ)
      → prev (end (some i)) (put_page p j (grown page b))
        ≡ some (iterator (some i) (some j) page.tail, put_page p j (grown page b))
  start b =
      let pushed = grown page b in
      let q = put_page p j pushed in
      let at_i : q.pages i ≡ p.pages i = update_ne p.pages j i pushed (λ e. apart (sym e)) in
      let at_j : q.pages j ≡ pushed = update_self p.pages j pushed in
      let next = λ (a : Page). a.next in
      let tail = ap (λ (a : Page). a.tail) at_j in
      let head = ap (λ (a : Page). a.head) at_j in
      prev-end_second q i j
        (last_from-second 127 q.pages i j (ap next at_i ∙ follows) (ap next at_j ∙ v.chain.1.1))
        (omega (arith, tail, head, v.used.1.0.head_le))
      ∙ ap (λ a. some (iterator (some i) (some j) a, q)) (omega (arith, tail))

  not_end : same position (end (some i)) ≡ false
  unfolding same end
  not_end =
      let away : same_ptr position.page none ≡ false = ap (λ a. same_ptr a none) on_first in
      rw away (and-false (position.idx == 0))

  loop :
      (b : ℕ)
      → shift_up steps (iterator (some i) (some j) page.tail) position (put_page p j (grown page b))
        ≡ none
  loop b =
      shift_up-crossing p i j apart follows full steps (page.tail - page.head) (grown page b)
        page.tail position (omega (arith, v.used.1.0.head_le)) room
        (omega (arith, v.used.1.0.tail_le)) on_first

  -- Whatever the byte and the place on the first page: `insert` reads behind the first page's buffer, so
  -- that it has no result.
  pub insert_faults : insert (some i) position x p ≡ none
  unfolding insert insert_checked
  insert_faults =
      let alone : ltb 1 (p.pages i).ref ≡ false = ground (arith, one) in
      let n = length (contents p.pages (i ∷ j ∷ [])) in
      elim (Bool-cases (n == 0)) [
        | inl e ↦
            rw
              (
                ◌>>=◌,
                alone,
                size_lem {p = p} {m = some i} (i ∷ j ∷ []) v,
                e,
                push_back-second 0,
                start 0,
                not_end,
                loop 0,
              )
              refl
        | inr ne ↦
            let b = get_or (contents p.pages (i ∷ j ∷ [])) (dec_size n) illegal_ref in
            rw
              (
                ◌>>=◌,
                alone,
                size_lem {p = p} {m = some i} (i ∷ j ∷ []) v,
                ne,
                at_lem {p = p} {m = some i} (i ∷ j ∷ []) (dec_size n) v,
                push_back-second b,
                start b,
                not_end,
                loop b,
              )
              refl
      ]
