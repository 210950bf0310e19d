-- ===== src/Msg/Insert.antt =====
-- `insert` of msg.h in a message of one page that has room.
use decom.Base.{
  Option, ℕ, zero, suc, ◌+◌, ◌-◌, ◌≤◌, ◌<◌, ◌≡◌, ◌≢◌, refl, ap, sym, subst, ◌∙◌, true, false, some,
  [], ◌∷◌, ◌++◌, length, length-append, take, drop, arith, ◌==◌, ltb, if◌then◌else◌, update,
  update_ne, append-nil, Bool-cases, inl, inr, get_or, lt→ltb, ltb→lt,
}
use decom.Msg.Pool.{page_size, dec_size, Page, Pool, put_page, ◌>>=◌, pure}
use decom.Msg.Page.{up_bytes, span-up_bytes}
use decom.Msg.Chain.{IsMsg, contents, page_bytes, span, length-span, span-update_ge}
use decom.Msg.Last.{IsMsg-replace_last, contents_replace_last, grown}
use decom.Msg.Read.{size_lem, at_lem, last_page_lem}
use decom.Msg.Ops.{at, push_back, append_behind, room_after, store_back, illegal_ref}
use decom.Msg.Iterator.{Iterator, shift_up, insert, insert_checked, steps, end, prev}
use decom.Msg.Steps.{
  iterator, read_at-inside, write_at-inside, prev-inside, prev-end-put_page, same-end, same-same,
  same-apart,
}

shift_up-run :
    (p : Pool) (i k n : ℕ) (pg : Page) (position idx : ℕ)
    → idx ≡ position + n
    → pg.head ≤ position
    → idx < page_size
    → n < k
    → shift_up k
        (iterator (some i) (some i) idx)
        (iterator (some i) (some i) position)
        (put_page p i pg)
      ≡ some (tt, put_page p i (record pg { bytes = up_bytes n pg.bytes idx }))
unfolding shift_up
shift_up-run p i zero n pg position idx e head le fuel = absurd (omega arith)
shift_up-run p i (suc k) zero pg position idx e head le fuel =
    let there : idx ≡ position = omega arith in
    subst
      (λ a.
        shift_up (suc k) (iterator (some i) (some i) idx) (iterator (some i) (some i) a)
          (put_page p i pg)
        ≡ some (tt, put_page p i pg))
      there (simp (same-same (iterator (some i) (some i) idx)))
shift_up-run p i (suc k) (suc n) pg position idx e head le fuel =
    let x = pg.bytes (idx - 1) in
    let moved = record pg { bytes = update pg.bytes idx x } in
    simp
      (
        ◌>>=◌,
        same-apart (some i) i idx position (omega arith),
        prev-inside p i (some i) pg i idx (omega arith),
        read_at-inside p i (some i) pg (idx - 1) (omega arith),
        write_at-inside p i (some i) pg idx x le,
        prev-inside p i (some i) moved i idx (omega arith),
      )
      (shift_up-run p i k n moved position (idx - 1) (omega arith) head (omega arith) (omega arith))

-- A message of one page with one reference and room for a byte.
module _ (p : Pool) (i k x : ℕ) (v : IsMsg p.pages (some i) (i ∷ [])) (one : (p.pages i).ref ≡ 1)
    (room : (p.pages i).tail < page_size) (inside : k ≤ length (contents p.pages (i ∷ []))) where
  abbrev page : Page
  page = p.pages i

  abbrev behind : ℕ
  behind = page.tail - page.head - k

  count : k + behind ≡ page.tail - page.head
  count = omega (
    arith,
    inside,
    length-append (page_bytes page) [],
    length-span page.bytes page.head (page.tail - page.head),
  )

  push_back-single : (b : ℕ) → push_back (some i) b p ≡ some (true, put_page p i (grown page b))
  unfolding push_back append_behind room_after store_back
  push_back-single b =
      let alone : ltb 1 page.ref ≡ false = ground (arith, one) in
      let space : (page.tail == page_size) ≡ false = ground arith in
      simp (◌>>=◌, alone, last_page_lem p i i [] v, space, lt→ltb page.tail page_size room)

  abbrev inserted : ℕ → Page
  inserted b = record (grown page b) {
    bytes = update (up_bytes behind (grown page b).bytes page.tail) (page.head + k) x;
  }

  -- The place before the byte `k`, or the end.
  abbrev pub spot : Iterator
  spot =
      if ltb (page.head + k) page.tail
      then iterator (some i) (some i) (page.head + k)
      else end (some i)

  insert-inside :
      (b : ℕ)
      → page.head + k < page.tail
      → (shift_up steps
            (iterator (some i) (some i) page.tail)
            (iterator (some i) (some i) (page.head + k))
            (put_page p i (grown page b))
          ≡ some (
            tt,
            put_page p i
                (record (grown page b) { bytes = up_bytes behind (grown page b).bytes page.tail }),
          ))
  insert-inside b lt =
      shift_up-run p i steps behind (grown page b) (page.head + k) page.tail (omega (arith, count))
        (omega arith) room (omega arith)

  size_before : ℕ
  size_before = length (contents p.pages (i ∷ []))

  -- `back()`, or 0 for an empty message.
  last_byte : ℕ
  last_byte =
      if size_before == 0
      then 0
      else get_or (contents p.pages (i ∷ [])) (dec_size size_before) illegal_ref

  back-run :
      (if length (contents p.pages (i ∷ [])) == 0
          then pure 0
          else at (some i) (dec_size (length (contents p.pages (i ∷ [])))))
        p
      ≡ some (last_byte, p)
  unfolding last_byte size_before
  back-run = elim (Bool-cases (length (contents p.pages (i ∷ [])) == 0)) [
    | inl e ↦ rw e refl
    | inr ne ↦
        rw ne
          (at_lem {p = p} {m = some i} (i ∷ []) (dec_size (length (contents p.pages (i ∷ [])))) v)
  ]

  start :
      (b : ℕ)
      → prev (end (some i)) (put_page p i (grown page b))
        ≡ some (iterator (some i) (some i) page.tail, put_page p i (grown page b))
  start b =
      prev-end-put_page p i (grown page b) v.chain.1 (omega (arith, v.used.0.head_le))
      ∙ ap (λ a. some (iterator (some i) (some i) a, put_page p i (grown page b))) (omega arith)

  insert_checked-inside :
      page.head + k < page.tail
      → insert_checked (some i) (iterator (some i) (some i) (page.head + k)) x p
        ≡ some (iterator (some i) (some i) (page.head + k), put_page p i (inserted last_byte))
  unfolding insert_checked
  insert_checked-inside lt =
      let shifted = record (grown page last_byte) {
        bytes = up_bytes behind (grown page last_byte).bytes page.tail;
      } in
      rw
        (
          ◌>>=◌,
          size_lem {p = p} {m = some i} (i ∷ []) v,
          back-run,
          push_back-single last_byte,
          start last_byte,
          same-end (some i) (some i) i (page.head + k),
          insert-inside last_byte lt,
          write_at-inside p i (some i) shifted (page.head + k) x (omega arith),
        )
        refl

  insert_checked-end :
      page.tail ≤ page.head + k
      → insert_checked (some i) (end (some i)) x p
        ≡ some (iterator (some i) (some i) (page.head + k), put_page p i (inserted last_byte))
  unfolding insert_checked
  insert_checked-end ge =
      let there : page.tail ≡ page.head + k = omega (arith, count, v.used.0.head_le) in
      let none_behind : zero ≡ behind = omega (arith, count, v.used.0.head_le) in
      let b = last_byte in
      let outcome : ℕ → ℕ → Option (Iterator × Pool) = λ n a. some (
        iterator (some i) (some i) a,
        put_page p i (record (grown page b) {
          bytes = update (up_bytes n (grown page b).bytes page.tail) a x;
        }),
      ) in
      rw
        (
          ◌>>=◌,
          size_lem {p = p} {m = some i} (i ∷ []) v,
          back-run,
          push_back-single b,
          start b,
          same-same (end (some i)),
          write_at-inside p i (some i) (grown page b) page.tail x room,
        )
        (ap (outcome 0) there ∙ ap (λ n. outcome n (page.head + k)) none_behind)

  insert-run :
      insert (some i) spot x p
      ≡ some (iterator (some i) (some i) (page.head + k), put_page p i (inserted last_byte))
  unfolding insert
  insert-run =
      let alone : ltb 1 page.ref ≡ false = ground (arith, one) in
      elim (Bool-cases (ltb (page.head + k) page.tail)) [
        | inl lt ↦
            rw (◌>>=◌, alone, lt) (insert_checked-inside (ltb→lt (page.head + k) page.tail lt))
        | inr ge ↦ rw (◌>>=◌, alone, ge) (insert_checked-end (ground arith))
      ]

  bytes_inserted :
      (b : ℕ) → page_bytes (inserted b) ≡ take k (page_bytes page) ++ (x ∷ drop k (page_bytes page))
  bytes_inserted b =
      let f = (grown page b).bytes in
      let h = page.head in
      let more : page.tail + 1 - h ≡ k + suc behind = omega (arith, count, v.used.0.head_le) in
      let top : page.tail ≡ h + k + behind = omega (arith, count, v.used.0.head_le) in
      let before : span f h (k + behind) ≡ page_bytes page =
        span-update_ge page.bytes h (k + behind) page.tail b (omega (arith, top))
        ∙ ap (span page.bytes h) count in
      ap (span (inserted b).bytes h) more
      ∙ (ap (λ t. span (update (up_bytes behind f t) (h + k) x) h (k + suc behind)) top
          ∙ (span-up_bytes f h k behind x ∙ ap (λ l. take k l ++ (x ∷ drop k l)) before))

  -- `insert` before the byte `k`, or at the end, of a message of one page with one reference and room
  -- behind its bytes returns the place of the new byte, and the well-formed message holds it between
  -- the bytes that were before and behind the place; no other page is changed.
  pub insert_lem :
      (q : Pool) × (insert (some i) spot x p
        ≡ some (iterator (some i) (some i) ((p.pages i).head + k), q))
      × IsMsg q.pages (some i) (i ∷ [])
      × (contents q.pages (i ∷ [])
          ≡ take k (contents p.pages (i ∷ [])) ++ (x ∷ drop k (contents p.pages (i ∷ []))))
      × ((a : ℕ) → a ≢ i → q.pages a ≡ p.pages a)
  insert_lem = (
    put_page p i (inserted last_byte),
    insert-run,
    IsMsg-replace_last [] i (inserted last_byte) v v.used.0.referenced
        (omega (arith, v.used.0.head_le)) (omega arith) v.chain.1,
    contents_replace_last [] i (inserted last_byte) v
        ∙ (bytes_inserted last_byte
            ∙ ap (λ l. take k l ++ (x ∷ drop k l)) (sym (append-nil (page_bytes page)))),
    λ a ne. update_ne p.pages i a (inserted last_byte) ne,
  )
