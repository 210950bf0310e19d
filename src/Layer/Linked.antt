-- ===== src/Layer/Linked.antt =====
-- layer.h: the pointers of a stack stand for the list of its layers.
use decom.Base.{
  subst, ℕ, ◌≡◌, ◌≢◌, refl, sym, ◌∙◌, ◌==◌, true, not, Option, none, some, List, [], ◌∷◌, All,
  update, update_ne, Bool-cases, inl, inr, arith, ==_iff,
}
use decom.Layer.Stack.{Stack, relink, member, first}

-- Every layer's upper layer is the next one.
abbrev pub IsUp : (ℕ → Option ℕ) → List ℕ → Type 0
IsUp u [] = Unit
IsUp u (x ∷ xs) = (u x ≡ first xs) × IsUp u xs

-- Every layer's lower layer is the one in front of it.
abbrev pub IsDown : (ℕ → Option ℕ) → Option ℕ → List ℕ → Type 0
IsDown d below [] = Unit
IsDown d below (x ∷ xs) = (d x ≡ below) × IsDown d (some x) xs

abbrev pub IsStack : Stack → List ℕ → Type 0
IsStack s xs = IsDown s.lower_ none xs × IsUp s.upper_ xs

-- What holds of the layer that a pointer leads to, if any.
abbrev pub Of : (ℕ → Type 0) → Option ℕ → Type 0
Of P none = Unit {0}
Of P (some x) = P x

pub IsUp-update :
    (u : ℕ → Option ℕ) (p : ℕ) (v : Option ℕ) (xs : List ℕ)
    → All (λ x. x ≢ p) xs
    → IsUp u xs
    → IsUp (update u p v) xs
IsUp-update u p v [] ne up = tt
IsUp-update u p v (x ∷ xs) ne up = (update_ne u p x v ne.0 ∙ up.0, IsUp-update u p v xs ne.1 up.1)

pub IsDown-update :
    (d : ℕ → Option ℕ) (p : ℕ) (v below : Option ℕ) (xs : List ℕ)
    → All (λ x. x ≢ p) xs
    → IsDown d below xs
    → IsDown (update d p v) below xs
IsDown-update d p v below [] ne down = tt
IsDown-update d p v below (x ∷ xs) ne down =
    (update_ne d p x v ne.0 ∙ down.0, IsDown-update d p v (some x) xs ne.1 down.1)

pub relink_ne :
    (f : ℕ → Option ℕ) (p v : Option ℕ) (x : ℕ) → Of (λ y. y ≢ x) p → relink f p v x ≡ f x
relink_ne f none v x ne = refl
relink_ne f (some y) v x ne = update_ne f y x v (λ e. ne (sym e))

first-Of : (P : ℕ → Type 0) (xs : List ℕ) → All P xs → Of P (first xs)
first-Of P [] all = tt
first-Of P (x ∷ xs) all = all.0

-- What holds of all layers above the first one holds of the upper layer of each.
pub upper-Of :
    (P : ℕ → Type 0) (u : ℕ → Option ℕ) (a : ℕ) (xs : List ℕ)
    → member a xs ≡ true
    → IsUp u xs
    → All P xs
    → Of P (u a)
upper-Of P u a [] m up all = cc
upper-Of P u a (x ∷ xs) m up all = elim (Bool-cases (x == a)) [
  | inl e ↦
      let same : x ≡ a = (==_iff x a).0 e in
      subst (λ y. Of P (u y)) same (subst (Of P) (sym up.0) (first-Of P xs all.1))
  | inr ne ↦ upper-Of P u a xs (rw ne at m) up.1 all.1
]

-- The same for the lower layer of each, if it holds of the layer below the first one.
pub lower-Of :
    (P : ℕ → Type 0) (d : ℕ → Option ℕ) (a : ℕ) (below : Option ℕ) (xs : List ℕ)
    → member a xs ≡ true
    → IsDown d below xs
    → Of P below
    → All P xs
    → Of P (d a)
lower-Of P d a below [] m down under all = cc
lower-Of P d a below (x ∷ xs) m down under all = elim (Bool-cases (x == a)) [
  | inl e ↦
      let same : x ≡ a = (==_iff x a).0 e in
      subst (λ y. Of P (d y)) same (subst (Of P) (sym down.0) under)
  | inr ne ↦ lower-Of P d a (some x) xs (rw ne at m) down.1 all.0 all.1
]

pub not-member : (a : ℕ) (xs : List ℕ) → not (member a xs) ≡ true → All (λ x. x ≢ a) xs
not-member a [] h = tt
not-member a (x ∷ xs) h = elim (Bool-cases (x == a)) [
  | inl e ↦ cc
  | inr ne ↦ ((λ same. ground (arith, same, ne)), not-member a xs (rw ne at h))
]
