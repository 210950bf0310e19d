-- ===== src/Msg/PushBack.antt =====
-- `push_back` of msg.h appends a byte, on every branch.
use decom.Base.{
  ℕ, ◌<◌, ◌≡◌, ◌≢◌, refl, ap, sym, subst, ◌∙◌, ◌⊎◌, none, some, List, [], ◌∷◌, snoc, Bool, true,
  false, All, All-right, arith, ◌==◌, if◌then◌else◌, update_ne, Bool-cases, inl, inr, lt→ltb,
}
use decom.Msg.Pool.{
  ◌>>=◌, page_size, pool_pages, Ptr, Pool, take_page, page_alloc, put_page, fresh_page,
}
use decom.Msg.Chain.{contents, IsUsed, IsMsg, Seg-snoc}
use decom.Msg.Alloc.{IsExhausted, page_alloc_cases}
use decom.Msg.Read.{last_page_lem}
use decom.Msg.Last.{
  IsMsg-replace_last, contents_replace_last, contents_last, grown, IsMsg-store, contents_store,
  IsMsg-link, contents_link, tail_linked,
}
use decom.Msg.Ops.{room_after, store_back, append_behind, push_back}

-- What is left of the message `m` of the pages `is`, after a byte `x` was pushed with result `ok`.
pub record Pushed (p : Pool) (m : Ptr) (is : List ℕ) (x : ℕ) (ok : Bool) (q : Pool) (is' : List ℕ)
    : Type 0 where
  pub valid : IsMsg q.pages m is'
  pub holds :
      contents q.pages is' ≡ (if ok then snoc (contents p.pages is) x else contents p.pages is)
  -- It fails only for want of a page.
  pub refused : (ok ≡ true) ⊎ IsExhausted p.pages
  -- All other pages in use are as they were.
  pub kept : (a : ℕ) → (p.pages a).ref ≢ 0 → All (λ i. i ≢ a) is → q.pages a ≡ p.pages a

abbrev pub Outcome : Pool → Ptr → List ℕ → ℕ → Type 0
Outcome p m is x =
    (ok : Bool) × (q : Pool) × (is' : List ℕ) × (push_back m x p ≡ some (ok, q))
    × Pushed p m is x ok q is'

room_after_space :
    (p : Pool) (l : ℕ) → ((p.pages l).tail == page_size) ≡ false → room_after l p ≡ some (some l, p)
unfolding room_after
room_after_space p l space = rw (room_after, ◌>>=◌, space) refl

room_after_full :
    (p : Pool) (l : ℕ)
    → ((p.pages l).tail == page_size) ≡ true
    → page_alloc p ≡ (none, p)
    → room_after l p ≡ some (none, put_page p l (record (p.pages l) { next = none }))
unfolding room_after
room_after_full p l full no_page = rw (room_after, ◌>>=◌, full, no_page) refl

room_after_link :
    (p : Pool) (l j : ℕ)
    → ((p.pages l).tail == page_size) ≡ true
    → page_alloc p ≡ (some j, take_page p j)
    → (take_page p j).pages l ≡ p.pages l
    → room_after l p
      ≡ some (some j, put_page (take_page p j) l (record (p.pages l) { next = some j }))
unfolding room_after
room_after_link p l j full page same_l = rw (room_after, ◌>>=◌, full, page, same_l) refl

module _ (p : Pool) (m : Ptr) (pre : List ℕ) (l x : ℕ) (v : IsMsg p.pages m (snoc pre l)) where
  ends : (p.pages l).next ≡ none
  ends = (Seg-snoc p.pages m pre l none v.chain).1

  last-IsUsed : IsUsed p.pages l
  last-IsUsed = (All-right (IsUsed p.pages) pre (l ∷ []) v.used).0

  not_last : (a : ℕ) → All (λ i. i ≢ a) (snoc pre l) → a ≢ l
  not_last a ne e = (All-right (λ i. i ≢ a) pre (l ∷ []) ne).0 (sym e)

  finish_room :
      ((p.pages l).tail == page_size) ≡ false
      → (ok : Bool) × (q : Pool) × (is' : List ℕ) × (append_behind l x p ≡ some (ok, q))
        × Pushed p m (snoc pre l) x ok q is'
  unfolding append_behind room_after store_back
  finish_room space = (
    true,
    put_page p l (grown (p.pages l) x),
    snoc pre l,
    rw
        (
          append_behind,
          ◌>>=◌,
          room_after_space p l space,
          store_back,
          lt→ltb (p.pages l).tail page_size (ground (arith, last-IsUsed.tail_le)),
        )
        refl,
    record {
      valid = IsMsg-store pre l x v (ground (arith, last-IsUsed.tail_le));
      holds = contents_store pre l x v (ground (arith, last-IsUsed.tail_le));
      refused = inl refl;
      kept = λ a r ne. update_ne p.pages l a (grown (p.pages l) x) (not_last a ne);
    },
  )

  finish_full :
      ((p.pages l).tail == page_size) ≡ true
      → page_alloc p ≡ (none, p)
      → IsExhausted p.pages
      → (ok : Bool) × (q : Pool) × (is' : List ℕ) × (append_behind l x p ≡ some (ok, q))
        × Pushed p m (snoc pre l) x ok q is'
  unfolding append_behind room_after store_back
  finish_full full no_page ex = (
    false,
    put_page p l (record (p.pages l) { next = none }),
    snoc pre l,
    rw (append_behind, ◌>>=◌, room_after_full p l full no_page),
    record {
      valid =
          IsMsg-replace_last pre l (record (p.pages l) { next = none }) v last-IsUsed.referenced
            last-IsUsed.head_le last-IsUsed.tail_le refl;
      holds =
          contents_replace_last pre l (record (p.pages l) { next = none }) v
          ∙ sym (contents_last pre l (p.pages l) v);
      refused = inr ex;
      kept = λ a r ne. update_ne p.pages l a (record (p.pages l) { next = none }) (not_last a ne);
    },
  )

  finish_link :
      (j : ℕ)
      → ((p.pages l).tail == page_size) ≡ true
      → page_alloc p ≡ (some j, take_page p j)
      → j < pool_pages
      → (p.pages j).ref ≡ 0
      → (ok : Bool) × (q : Pool) × (is' : List ℕ) × (append_behind l x p ≡ some (ok, q))
        × Pushed p m (snoc pre l) x ok q is'
  unfolding append_behind room_after store_back
  finish_link j full page hj unused = (
    true,
    put_page mid j (grown (mid.pages j) x),
    snoc (snoc pre l) j,
    rw
        (
          append_behind,
          ◌>>=◌,
          room_after_link p l j full page same_l,
          store_back,
          lt→ltb (mid.pages j).tail page_size room,
        )
        refl,
    record {
      valid = IsMsg-store (snoc pre l) j x grown_chain room;
      holds =
          contents_store (snoc pre l) j x grown_chain room
          ∙ ap (λ bs. snoc bs x) (contents_link pre l j v hj unused);
      refused = inl refl;
      kept = λ a r ne.
          update_ne mid.pages j a (grown (mid.pages j) x) (λ e. r (rw e unused))
          ∙ update_ne (take_page p j).pages l a (record (p.pages l) { next = some j })
              (not_last a ne)
          ∙ update_ne p.pages j a (fresh_page (p.pages j)) (λ e. r (rw e unused));
    },
  )
    where
      mid : Pool
      mid = put_page (take_page p j) l (record (p.pages l) { next = some j })

      grown_chain : IsMsg mid.pages m (snoc (snoc pre l) j)
      grown_chain = IsMsg-link pre l j v hj unused

      room : (mid.pages j).tail < page_size
      room = omega (arith, tail_linked pre l j v hj unused)

      same_l : (take_page p j).pages l ≡ p.pages l
      same_l =
          update_ne p.pages j l (fresh_page (p.pages j))
            (λ e. absurd (omega (arith, last-IsUsed.referenced, ap (λ i. (p.pages i).ref) e)))

  finish_pushes :
      (ok : Bool) × (q : Pool) × (is' : List ℕ) × (append_behind l x p ≡ some (ok, q))
      × Pushed p m (snoc pre l) x ok q is'
  finish_pushes = elim (Bool-cases ((p.pages l).tail == page_size)) [
    | inr space ↦ finish_room space
    | inl full ↦ elim (page_alloc_cases p) [
      | inl (j, page, hj, unused) ↦ finish_link j full page hj unused
      | inr (no_page, ex) ↦ finish_full full no_page ex
    ]
  ]

-- A list that is not empty, from its end.
unsnoc : (i : ℕ) (is : List ℕ) → (pre : List ℕ) × (l : ℕ) × (i ∷ is ≡ snoc pre l)
unsnoc i [] = ([], i, refl)
unsnoc i (j ∷ is) = let (pre, l, e) = unsnoc j is in (i ∷ pre, l, ap (λ t. i ∷ t) e)

-- `push_back` on a message whose first page has one reference always returns. It appends the byte
-- to what the message holds if it returns true. If it returns false the pool has no free page left,
-- and the message holds what it held. Either way the result is a well-formed message with the same
-- first page, and no other page in use is changed.
pub push_back-snoc :
    (p : Pool) (i : ℕ) (is : List ℕ) (x : ℕ)
    → IsMsg p.pages (some i) is
    → (p.pages i).ref ≡ 1
    → Outcome p (some i) is x
unfolding push_back
push_back-snoc p i [] x v sole = cc (v.chain)
push_back-snoc p i (j ∷ is) x v sole =
    let (pre, l, e) = unsnoc j is in
    let v' : IsMsg p.pages (some i) (snoc pre l) = subst (IsMsg p.pages (some i)) e v in
    let (ok, q, is', run, pushed) = finish_pushes p (some i) pre l x v' in
    (
      ok,
      q,
      is',
      rw (push_back, sole, ◌>>=◌, last_page_lem p i l pre v') run,
      subst (λ js. Pushed p (some i) js x ok q is') (sym e) pushed,
    )

-- On a message without a page, and on one whose first page is shared, `push_back` fails and changes
-- nothing.
pub push_back_refused :
    (p : Pool) (m : Ptr) (x : ℕ)
    → ((i : ℕ) → m ≡ some i → 1 < (p.pages i).ref)
    → push_back m x p ≡ some (false, p)
unfolding push_back
push_back_refused p none x h = refl
push_back_refused p (some i) x h = ground (arith, h i refl)
