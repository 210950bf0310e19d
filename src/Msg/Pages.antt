-- ===== src/Msg/Pages.antt =====
-- A message of msg.h for the layers that copy messages: the bytes of each of its pages.
use decom.Base.{ℕ, List, [], ◌∷◌, ◌++◌, join, length}

abbrev pub Pages : Type 0
Pages = List (List ℕ)

-- All bytes of a message.
abbrev pub whole : Pages → List ℕ
whole pages = join pages

-- What a deep copy holds, by the copy constructor or `operator=`: the loops copy the first page for every
-- page, each time to a new one, and end on the last of these.
unfoldable pub kept : Pages → List ℕ
kept [] = []
kept (page ∷ pages) = page

-- What a walk from `begin` to `end` visits: a page without bytes has one place, whose byte is what
-- `memory` says, by the number of pages behind it.
unfoldable pub walk : (memory : ℕ → ℕ) → Pages → List ℕ
walk memory [] = []
walk memory ([] ∷ pages) = memory (length pages) ∷ walk memory pages
walk memory ((x ∷ xs) ∷ pages) = (x ∷ xs) ++ walk memory pages
