-- ===== src/Layer/Destroy.antt =====
-- layer.h: a layer that is destroyed leaves its neighbours linked to each other.
use decom.Base.{
  subst, ℕ, ◌≡◌, ◌≢◌, ap, sym, ◌∙◌, ◌==◌, true, Option, none, some, List, [], ◌∷◌, All, update_self,
  erase, Distinct, Bool-cases, inl, inr, arith, ==_iff,
}
use decom.Layer.Stack.{relink, member, first}
use decom.Layer.Linked.{IsUp, IsDown, Of, IsUp-update, IsDown-update, relink_ne, upper-Of, lower-Of}

Of-behind :
    (x : ℕ) (xs : List ℕ) (p : Option ℕ)
    → Of (λ b. All (λ y. y ≢ b) (x ∷ xs)) p
    → Of (λ b. All (λ y. y ≢ b) xs) p
Of-behind x xs none out = tt
Of-behind x xs (some b) out = out.1

IsUp-relink :
    (u : ℕ → Option ℕ) (p v : Option ℕ) (xs : List ℕ)
    → Of (λ b. All (λ y. y ≢ b) xs) p
    → IsUp u xs
    → IsUp (relink u p v) xs
IsUp-relink u none v xs ne up = up
IsUp-relink u (some b) v xs ne up = IsUp-update u b v xs ne up

-- The layers behind one that goes away.
IsDown-behind :
    (d : ℕ → Option ℕ) (below : Option ℕ) (x : ℕ) (xs : List ℕ)
    → Distinct xs
    → IsDown d (some x) xs
    → IsDown (relink d (first xs) below) below xs
IsDown-behind d below x [] dis down = tt
IsDown-behind d below x (y ∷ ys) dis down =
    (update_self d y below, IsDown-update d y below (some y) ys dis.0 down.1)

-- The layer `this` is destroyed.
module _ (this : ℕ) where
  pub lower_apart :
      (d : ℕ → Option ℕ) (below : Option ℕ) (xs : List ℕ)
      → member this xs ≡ true
      → Of (λ y. y ≢ this) below
      → IsDown d below xs
      → Of (λ y. y ≢ this) (d this)
  lower_apart d below [] m under down = cc
  lower_apart d below (x ∷ xs) m under down = elim (Bool-cases (x == this)) [
    | inl e ↦
        let same : x ≡ this = (==_iff x this).0 e in
        subst (λ y. Of (λ z. z ≢ this) (d y)) same (subst (Of (λ z. z ≢ this)) (sym down.0) under)
    | inr ne ↦ lower_apart d (some x) xs (rw ne at m) (λ same. ground (arith, same, ne)) down.1
  ]

  -- The layer in front of the one that goes away gets its upper layer, and another one keeps its own.
  upper-erase :
      (u d : ℕ → Option ℕ) (x : ℕ) (xs : List ℕ)
      → member this xs ≡ true
      → Distinct (x ∷ xs)
      → IsUp u (x ∷ xs)
      → IsDown d (some x) xs
      → relink u (d this) (u this) x ≡ first (erase this xs)
  upper-erase u d x [] m dis up down = cc
  upper-erase u d x (y ∷ ys) m dis up down = elim (Bool-cases (y == this)) [
    | inl e ↦
        let same : y ≡ this = (==_iff y this).0 e in
        let lower : d this ≡ some x = ap d (sym same) ∙ down.0 in
        rw (e, lower) (update_self u x (u this) ∙ (ap u (sym same) ∙ up.1.0))
    | inr ne ↦
        let apart = lower-Of (λ z. z ≢ x) d this (some y) ys (rw ne at m) down.1 dis.0.0 dis.0.1 in
        rw ne (relink_ne u (d this) (u this) x apart ∙ up.0)
  ]

  pub IsUp-erase :
      (u d : ℕ → Option ℕ) (below : Option ℕ) (xs : List ℕ)
      → member this xs ≡ true
      → Distinct xs
      → IsUp u xs
      → IsDown d below xs
      → Of (λ b. All (λ y. y ≢ b) xs) below
      → IsUp (relink u (d this) (u this)) (erase this xs)
  IsUp-erase u d below [] m dis up down out = tt
  IsUp-erase u d below (x ∷ xs) m dis up down out = elim (Bool-cases (x == this)) [
    | inl e ↦
        let same : x ≡ this = (==_iff x this).0 e in
        let lower : d this ≡ below = ap d (sym same) ∙ down.0 in
        rw e (
          subst (λ p. IsUp (relink u p (u this)) xs) (sym lower)
            (IsUp-relink u below (u this) xs (Of-behind x xs below out) up.1))
    | inr ne ↦ rw ne (
      upper-erase u d x xs (rw ne at m) dis up down.1,
      IsUp-erase u d (some x) xs (rw ne at m) dis.1 up.1 down.1 dis.0,
    )
  ]

  pub IsDown-erase :
      (u d : ℕ → Option ℕ) (below : Option ℕ) (xs : List ℕ)
      → member this xs ≡ true
      → Distinct xs
      → IsUp u xs
      → IsDown d below xs
      → IsDown (relink d (u this) (d this)) below (erase this xs)
  IsDown-erase u d below [] m dis up down = tt
  IsDown-erase u d below (x ∷ xs) m dis up down = elim (Bool-cases (x == this)) [
    | inl e ↦
        let same : x ≡ this = (==_iff x this).0 e in
        let lower : d this ≡ below = ap d (sym same) ∙ down.0 in
        let upper : u this ≡ first xs = ap u (sym same) ∙ up.0 in
        rw (e, lower, upper) (IsDown-behind d below x xs dis.1 down.1)
    | inr ne ↦ rw ne (
      relink_ne d (u this) (d this) x (upper-Of (λ y. y ≢ x) u this xs (rw ne at m) up.1 dis.0)
          ∙ down.0,
      IsDown-erase u d (some x) xs (rw ne at m) dis.1 up.1 down.1,
    )
  ]
