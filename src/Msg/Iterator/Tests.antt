-- ===== src/Msg/Iterator/Tests.antt =====
-- Iterators of msg.h, and the operations that use them, at concrete messages.
use decom.Base.{
  ℕ, ◌+◌, ◌%◌, ◌≡◌, ◌≢◌, ◌↔◌, refl, Bool, true, false, none, some, [], ◌∷◌, ◌++◌, take, drop, arith,
  ◌==◌, if◌then◌else◌,
}
use decom.Msg.Pool.{Page, Pool}
use decom.Msg.Chain.{IsMsg, contents}
use decom.Msg.Iterator.{equal, insert, erase}
use decom.Msg.Steps.{iterator}
use decom.Msg.Walk.{equal-eq_contents, equal_empty}
use decom.Msg.Erase.{erase_lem}
use decom.Msg.Insert.{insert_lem}
use decom.Msg.Crossing.{insert_faults}

abbrev page_of : ℕ → ℕ → Page
page_of head tail = record {
  bytes = λ a. a % 2;
  head = head;
  tail = tail;
  ref = 1;
  read_only = false;
  next = none;
}

-- Page 0 holds three bytes, pages 1 and 2 hold two and one of the same, pages 3 and 4 none, and pages 5
-- and 6 are a message whose first page is full.
abbrev pages : ℕ → Page
pages i =
    if i == 0
    then page_of 32 35
    else if i == 1
    then record (page_of 126 128) { next = some 2 }
    else if i == 2
    then page_of 0 1
    else if i == 3
    then page_of 32 32
    else if i == 4
    then page_of 33 33
    else if i == 5
    then record (page_of 126 128) { next = some 6 }
    else page_of 0 2

abbrev pool : Pool
pool = record { pages = pages; used_pages = 7; used_pages_max = 7 }

three : IsMsg pages (some 0) (0 ∷ [])
three = record { chain = (refl, refl); distinct = (tt, tt); used = (omega arith, tt) }

two_pages : IsMsg pages (some 1) (1 ∷ 2 ∷ [])
two_pages = record {
  chain = (refl, (refl, refl));
  distinct = ((omega arith, tt), (tt, tt));
  used = (omega arith, (omega arith, tt));
}

equal-eq_contents_example :
    (b : Bool) × (equal (some 1) (some 0) pool ≡ some (b, pool))
    × ((b ≡ true) ↔ (contents pages (0 ∷ []) ≡ contents pages (1 ∷ 2 ∷ [])))
equal-eq_contents_example =
    equal-eq_contents pool 0 1 [] (2 ∷ []) three two_pages (omega arith, tt)
      (omega arith, (omega arith, tt))

nothing : IsMsg pages (some 3) (3 ∷ [])
nothing = record { chain = (refl, refl); distinct = (tt, tt); used = (omega arith, tt) }

nothing_either : IsMsg pages (some 4) (4 ∷ [])
nothing_either = record { chain = (refl, refl); distinct = (tt, tt); used = (omega arith, tt) }

-- Two messages without a byte differ.
equal_empty_example : equal (some 4) (some 3) pool ≡ some (false, pool)
equal_empty_example =
    equal_empty pool 3 4 nothing nothing_either refl refl (omega arith) (omega arith)

erase_lem_example :
    (q : Pool) × (erase (some 0) (iterator (some 0) (some 0) (32 + 1)) pool
      ≡ some (iterator (some 0) (some 0) (32 + 1), q))
    × IsMsg q.pages (some 0) (0 ∷ [])
    × (contents q.pages (0 ∷ []) ≡ take 1 (0 ∷ 1 ∷ 0 ∷ []) ++ drop 2 (0 ∷ 1 ∷ 0 ∷ []))
    × ((a : ℕ) → a ≢ 0 → q.pages a ≡ pages a)
erase_lem_example = erase_lem pool 0 1 three refl (omega arith)

insert_lem_example :
    (q : Pool) × (insert (some 0) (iterator (some 0) (some 0) (32 + 1)) 9 pool
      ≡ some (iterator (some 0) (some 0) (32 + 1), q))
    × IsMsg q.pages (some 0) (0 ∷ [])
    × (contents q.pages (0 ∷ []) ≡ take 1 (0 ∷ 1 ∷ 0 ∷ []) ++ (9 ∷ drop 1 (0 ∷ 1 ∷ 0 ∷ [])))
    × ((a : ℕ) → a ≢ 0 → q.pages a ≡ pages a)
insert_lem_example = insert_lem pool 0 1 9 three refl (omega arith) (omega arith)

behind_full : IsMsg pages (some 5) (5 ∷ 6 ∷ [])
behind_full = record {
  chain = (refl, (refl, refl));
  distinct = ((omega arith, tt), (tt, tt));
  used = (omega arith, (omega arith, tt));
}

insert_faults_example : insert (some 5) (iterator (some 5) (some 5) 127) 9 pool ≡ none
insert_faults_example =
    insert_faults pool 5 6 9 (iterator (some 5) (some 5) 127) behind_full refl refl (omega arith)
      refl
