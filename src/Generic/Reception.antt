-- ===== src/Generic/Reception.antt =====
-- dev_generic.h: a message that is received in parts.
use decom.Msg.Pages.{Pages, whole, walk}
use decom.Base.{
  Bool, true, false, All, is_empty, none, some, List, [], ◌∷◌, ◌++◌, ℕ, if◌then◌else◌, join, ◌≡◌,
  refl, ap, sym, ◌∙◌, append_assoc, append-nil, Bool-cases, inl, inr,
}
use mathlib.Core.Bool.{and-false}
use decom.Layer.{Eid}
use decom.Generic.Device.{Generic, receive, collect, is_foreign, read, take_message}

-- All parts but the last.
abbrev pub receive_parts : (Pages → Pages) → Generic → List Pages → Eid → Generic
receive_parts change s [] id = s
receive_parts change s (part ∷ parts) id =
    receive_parts change (receive change s part id true).0 parts id

-- The device takes messages for this identifier.
abbrev pub IsTaking : Generic → Eid → Type 0
IsTaking s id = (s.is_open ≡ true) × (is_foreign s id ≡ false)

receive_part :
    (change : Pages → Pages) (s : Generic) (data_ : Pages) (id : Eid)
    → IsTaking s id
    → receive change s data_ id true
      ≡ (record s { rx_msg = collect s data_; receive_last_more = true }, none)
unfolding receive is_foreign collect
receive_part change s data_ id (is, own) = rw (is, own) refl

collect_more :
    (s : Generic) (part : Pages) → s.receive_last_more ≡ true → collect s part ≡ s.rx_msg ++ part
unfolding collect
collect_more s part m = rw m refl

collect_first : (s : Generic) (part : Pages) → s.receive_last_more ≡ false → collect s part ≡ part
unfolding collect
collect_first s part m = rw m refl

IsTaking-stored :
    (s : Generic) (got : Pages) (id : Eid)
    → IsTaking s id
    → IsTaking (record s { rx_msg = got; receive_last_more = true }) id
unfolding is_foreign
IsTaking-stored s got id taking = taking

-- The parts behind the first one.
receive_parts-more :
    (change : Pages → Pages) (s : Generic) (parts : List Pages) (id : Eid)
    → IsTaking s id
    → s.receive_last_more ≡ true
    → receive_parts change s parts id
      ≡ record s { rx_msg = s.rx_msg ++ join parts; receive_last_more = true }
receive_parts-more change s [] id taking m =
    ap (λ b. record s { receive_last_more = b }) m
    ∙ ap (λ l. record s { rx_msg = l; receive_last_more = true }) (sym (append-nil s.rx_msg))
receive_parts-more change s (part ∷ parts) id taking m =
    let got : collect s part ≡ s.rx_msg ++ part = collect_more s part m in
    let next = receive_part change s part id taking in
    let stored = record s { rx_msg = s.rx_msg ++ part; receive_last_more = true } in
    rw (next, got)
      (receive_parts-more change stored parts id (IsTaking-stored s (s.rx_msg ++ part) id taking)
          refl
        ∙ ap (λ l. record s { rx_msg = l; receive_last_more = true })
            (append_assoc s.rx_msg part (join parts)))

-- What the device has after the first parts of a message.
after_parts :
    (change : Pages → Pages) (s : Generic) (part : Pages) (parts : List Pages) (id : Eid)
    → IsTaking s id
    → s.receive_last_more ≡ false
    → receive_parts change s (part ∷ parts) id
      ≡ record s { rx_msg = part ++ join parts; receive_last_more = true }
after_parts change s part parts id taking none_yet =
    let got : collect s part ≡ part = collect_first s part none_yet in
    let next = receive_part change s part id taking in
    let stored = record s { rx_msg = part; receive_last_more = true } in
    rw (next, got)
      (receive_parts-more change stored parts id (IsTaking-stored s part id taking) refl)

-- What the application is to get: the bytes of the whole message, or those that a walk over what the
-- callback leaves of it visits.
abbrev pub left : (memory : ℕ → ℕ) → (Pages → Pages) → (callback : Bool) → Pages → List ℕ
left memory change callback data_ = if callback then walk memory (change data_) else whole data_

-- The page has a byte.
abbrev pub IsFilled : List ℕ → Type 0
IsFilled page = is_empty page ≡ false

walk-whole : (memory : ℕ → ℕ) (data_ : Pages) → All IsFilled data_ → walk memory data_ ≡ whole data_
unfolding walk
walk-whole memory [] filled = refl
walk-whole memory ([] ∷ data_) filled = cc
walk-whole memory ((x ∷ xs) ∷ data_) filled =
    ap (λ l. (x ∷ xs) ++ l) (walk-whole memory data_ filled.1)

receive_last :
    (memory : ℕ → ℕ) (change : Pages → Pages) (s : Generic) (data_ : Pages) (id : Eid)
    → IsTaking s id
    → All IsFilled (collect s data_)
    → (read memory none (receive change s data_ id false).0).1
      ≡ some (left memory change s.has_callback (collect s data_), s.rx_eid)
unfolding receive is_foreign collect read take_message
receive_last memory change s data_ id (is, own) filled = elim (Bool-cases s.has_callback) [
  | inl e ↦ rw (is, own, e, and-false) refl
  | inr ne ↦
      rw (is, own, ne, and-false)
        (ap (λ bytes. some (bytes, s.rx_eid)) (walk-whole memory (collect s data_) filled))
]

callback_last :
    (change : Pages → Pages) (s : Generic) (data_ : Pages) (id : Eid)
    → IsTaking s id
    → (receive change s data_ id false).1
      ≡ (if s.has_callback then some (collect s data_, id) else none)
unfolding receive is_foreign collect
callback_last change s data_ id (is, own) = elim (Bool-cases s.has_callback) [
  | inl e ↦ rw (is, own, e) refl
  | inr ne ↦ rw (is, own, ne) refl
]

-- A message in several parts, whose pages all have a byte, for the identifier that is open or for any, is
-- read as a whole without waiting if the device was open, expected no further part and has no callback. If
-- a callback is set, it is called once, with the whole message, whose pages it may change, and what is read
-- is what a walk over the pages that it leaves visits. The identifier that is read is not that of the
-- message, but the one that the device had.
pub read-receive_parts :
    (memory : ℕ → ℕ) (change : Pages → Pages) (s : Generic) (part : Pages) (parts : List Pages)
    (last : Pages) (id : Eid)
    → IsTaking s id
    → s.receive_last_more ≡ false
    → All IsFilled ((part ++ join parts) ++ last)
    → ((read memory none
          (receive change (receive_parts change s (part ∷ parts) id) last id false).0).1
        ≡ some (left memory change s.has_callback ((part ++ join parts) ++ last), s.rx_eid))
      × ((receive change (receive_parts change s (part ∷ parts) id) last id false).1
          ≡ (if s.has_callback then some ((part ++ join parts) ++ last, id) else none))
unfolding is_foreign collect
read-receive_parts memory change s part parts last id taking none_yet filled =
    let after = record s { rx_msg = part ++ join parts; receive_last_more = true } in
    rw (after_parts change s part parts id taking none_yet) (
      receive_last memory change after last id taking filled,
      callback_last change after last id taking,
    )
