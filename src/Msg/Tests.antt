-- ===== src/Msg/Tests.antt =====
-- Runs of msg.h, and its theorems at concrete messages.
use decom.Base.{ℕ, ◌≡◌, refl, false, Option, none, some, List, [], ◌∷◌, arith, ◌==◌, if◌then◌else◌}
use decom.Msg.Pool.{Page, Pool, Cmd, pure, ◌>>=◌, ◌>>◌, find_free, page_alloc, page_free, Ptr}
use decom.Msg.Chain.{IsMsg}
use decom.Msg.Ops.{
  create, last_from, last_page, room_after, store_back, append_behind, push_back, size_from, size,
  at, store_front, push_front, pop_front, drop_back, unlink_from, pop_back,
}
use decom.Msg.Bulk.{copy, copy_into, copy_from, create_from, push_all, get, get_from, get_range}
use decom.Msg.Read.{at_lem}
use decom.Msg.PushBack.{Outcome, push_back-snoc}
use decom.Msg.Front.{FrontOutcome, push_front-cons}
use decom.Msg.PopFront.{Popped, pop_front-tail}

abbrev junk : Page
junk = record { bytes = λ a. 0xAA; head = 7; tail = 3; ref = 9; read_only = false; next = some 5 }

abbrev start : Pool
start = record { pages = λ i. record junk { ref = 0 }; used_pages = 0; used_pages_max = 0 }

-- The result of a run.
abbrev result : {A : Type 0} → Option (A × Pool) → Option A
result none = none
result (some (a, p)) = some a

abbrev bytes_of : Ptr → Cmd (List ℕ)
bytes_of m = do out ← get m 1000 0; elim out [ none ↦ pure [] | some bs ↦ pure bs ]

pops_in_order :
    result (
      (do
        m ← create_from (1 ∷ 2 ∷ 3 ∷ []) 32
        (m, done) ← push_front m 9
        m ← pop_front m
        pop_back m
        bytes_of m)
        start)
    ≡ some (1 ∷ 2 ∷ [])
unfolding create_from create push_all page_alloc find_free push_back last_page last_from
    append_behind room_after store_back push_front store_front pop_front pop_back drop_back
    unlink_from page_free get size size_from get_from get_range
pops_in_order = refl

-- A full page, so that the next byte goes to a new one.
abbrev full_page : Page
full_page = record {
  bytes = λ a. a;
  head = 126;
  tail = 128;
  ref = 1;
  read_only = false;
  next = none;
}

abbrev full_pool : Pool
full_pool = record {
  pages = λ i. if i == 0 then full_page else record junk { ref = 0 };
  used_pages = 1;
  used_pages_max = 1;
}

-- The copy of a message of two pages holds the bytes of the first one.
copies_first_page :
    result ((do done ← push_back (some 0) 5; m ← copy (some 0); bytes_of m) full_pool)
    ≡ some (126 ∷ 127 ∷ [])
unfolding push_back last_page last_from append_behind room_after store_back page_alloc find_free
    copy copy_into copy_from get size size_from get_from get_range
copies_first_page = refl

full-IsMsg : IsMsg full_pool.pages (some 0) (0 ∷ [])
full-IsMsg = record { chain = (refl, refl); distinct = (tt, tt); used = (omega arith, tt) }

push_back-snoc_example : Outcome full_pool (some 0) (0 ∷ []) 5
push_back-snoc_example = push_back-snoc full_pool 0 (0 ∷ []) 5 full-IsMsg refl

push_front-cons_example : FrontOutcome full_pool 0 (0 ∷ []) 5
push_front-cons_example = push_front-cons full_pool 0 5 [] full-IsMsg refl

pop_front-tail_example :
    (m' : Ptr) × (q : Pool) × (is' : List ℕ) × (pop_front (some 0) full_pool ≡ some (m', q))
    × Popped full_pool (0 ∷ []) 126 m' q is'
pop_front-tail_example = pop_front-tail full_pool 0 [] full-IsMsg refl (omega arith)

at_lem_example : at (some 0) 1 full_pool ≡ some (127, full_pool)
at_lem_example = at_lem (0 ∷ []) 1 full-IsMsg
