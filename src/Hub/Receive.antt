-- ===== src/Hub/Receive.antt =====
-- prot_hub.h: who gets a message.
use decom.Msg.Pages.{Pages, whole, kept}
use decom.Base.{
  ℕ, suc, ◌≡◌, ◌≢◌, refl, Bool, true, false, Option, none, some, List, [], ◌∷◌, leb, if◌then◌else◌,
  Bool-cases, inl, inr,
}
use decom.Layer.{Eid}
use decom.Hub.Dispatch.{UpperLayer, Call, received, takes, count_from, distribute, receive}

-- The layers that match an identifier, in the order of their registration.
abbrev pub takers : List UpperLayer → Eid → List UpperLayer
takers [] id = []
takers (u ∷ layers) id = let rest = takers layers id in if takes u id then u ∷ rest else rest

abbrev pub receive_all : List UpperLayer → List ℕ → Eid → (more : Bool) → List Call
receive_all [] bytes id more = []
receive_all (u ∷ layers) bytes id more =
    received u.layer bytes id more ∷ receive_all layers bytes id more

distribute-takers :
    (change : ℕ → List ℕ → List ℕ) (layers : List UpperLayer) (left org : List ℕ) (id : Eid)
    (more : Bool)
    → distribute change false layers left org id more ≡ receive_all (takers layers id) org id more
unfolding distribute
distribute-takers change [] left org id more = refl
distribute-takers change (u ∷ layers) left org id more = elim (Bool-cases (takes u id)) [
  | inl takes_it ↦
      rw (takes_it, distribute-takers change layers (change u.layer org) org id more) refl
  | inr skips ↦ rw (skips, distribute-takers change layers left org id more) refl
]

-- What two or more layers get: the first layer of all, if it matches, the message, and the others what its
-- copy keeps.
abbrev pub receive_copies : List UpperLayer → Pages → Eid → (more : Bool) → List Call
receive_copies [] data_ id more = []
receive_copies (u ∷ layers) data_ id more =
    let others = receive_all (takers layers id) (kept data_) id more in
    if takes u id then received u.layer (whole data_) id more ∷ others else others

distribute-first :
    (change : ℕ → List ℕ → List ℕ) (layers : List UpperLayer) (data_ : Pages) (id : Eid)
    (more : Bool)
    → distribute change true layers (whole data_) (kept data_) id more
      ≡ receive_copies layers data_ id more
unfolding distribute
distribute-first change [] data_ id more = refl
distribute-first change (u ∷ layers) data_ id more = elim (Bool-cases (takes u id)) [
  | inl takes_it ↦
      rw
        (
          takes_it,
          distribute-takers change layers (change u.layer (whole data_)) (kept data_) id more,
        )
        refl
  | inr skips ↦ rw (skips, distribute-takers change layers (whole data_) (kept data_) id more) refl
]

-- What the counting loop makes of the layers that match.
abbrev counted : Option UpperLayer → ℕ → List UpperLayer → Option UpperLayer × ℕ
counted last cnt [] = (last, cnt)
counted last cnt (u ∷ us) =
    if leb 2 (suc cnt) then (some u, suc cnt) else counted (some u) (suc cnt) us

count_from-takers :
    (layers : List UpperLayer) (id : Eid) (last : Option UpperLayer) (cnt : ℕ)
    → count_from layers id last cnt ≡ counted last cnt (takers layers id)
unfolding count_from
count_from-takers [] id last cnt = refl
count_from-takers (u ∷ layers) id last cnt = elim (Bool-cases (takes u id)) [
  | inl takes_it ↦ rw (takes_it, count_from-takers layers id (some u) (suc cnt)) refl
  | inr skips ↦ rw (skips, count_from-takers layers id last cnt) refl
]

-- The choice that `receive` makes from the layers that match.
abbrev chosen : Option UpperLayer × ℕ → List Call → List ℕ → Eid → Bool → Option (List Call)
chosen (it, cnt) all bytes id more =
    if leb 2 cnt
    then some all
    else elim it [ none ↦ none | some u ↦ some (received u.layer bytes id more ∷ []) ]

-- What the layers that match get: one alone the message itself.
abbrev pub shares : List UpperLayer → List UpperLayer → Pages → Eid → (more : Bool) → List Call
shares [] layers data_ id more = []
shares (u ∷ []) layers data_ id more = received u.layer (whole data_) id more ∷ []
shares (u ∷ v ∷ us) layers data_ id more = receive_copies layers data_ id more

chosen-counted :
    (us layers : List UpperLayer) (data_ : Pages) (id : Eid) (more : Bool)
    → us ≢ []
    → chosen (counted none 0 us) (receive_copies layers data_ id more) (whole data_) id more
      ≡ some (shares us layers data_ id more)
chosen-counted [] layers data_ id more ne = absurd (ne refl)
chosen-counted (u ∷ []) layers data_ id more ne = refl
chosen-counted (u ∷ v ∷ us) layers data_ id more ne = refl

-- If at least one upper layer matches the identifier of a received message, then every matching layer
-- is given a message once, in the order of registration, whatever the layers before it have done to
-- theirs: one matching layer alone, and the first layer of all, the message as it was received, any other
-- one its first page only.
pub receive-takers :
    (change : ℕ → List ℕ → List ℕ) (layers : List UpperLayer) (data_ : Pages) (id : Eid)
    (more : Bool)
    → takers layers id ≢ []
    → receive change layers data_ id more ≡ some (shares (takers layers id) layers data_ id more)
unfolding receive
receive-takers change layers data_ id more some_take =
    rw (receive, count_from-takers layers id none 0, distribute-first change layers data_ id more)
      (chosen-counted (takers layers id) layers data_ id more some_take)

-- If no upper layer matches the identifier of a received message, `receive` has no result: the code
-- calls through an iterator that it has not set.
pub receive-no_taker :
    (change : ℕ → List ℕ → List ℕ) (layers : List UpperLayer) (data_ : Pages) (id : Eid)
    (more : Bool)
    → takers layers id ≡ []
    → receive change layers data_ id more ≡ none
unfolding receive
receive-no_taker change layers data_ id more none_take =
    rw (receive, count_from-takers layers id none 0, none_take) refl
