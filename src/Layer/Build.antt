-- ===== src/Layer/Build.antt =====
-- layer.h: a layer that is built on another one stands between it and its upper layer.
use decom.Base.{
  subst, ℕ, ◌≡◌, ◌≢◌, refl, ap, sym, ◌∙◌, ◌==◌, true, Option, some, List, [], ◌∷◌, All, update,
  update_self, update_ne, Distinct, Bool-cases, inl, inr, arith, ==_iff,
}
use decom.Layer.Stack.{relink, insert_above, member, first}
use decom.Layer.Linked.{IsUp, IsDown, IsUp-update, IsDown-update, relink_ne, upper-Of}

first-insert_above : (this lower : ℕ) (xs : List ℕ) → first (insert_above this lower xs) ≡ first xs
first-insert_above this lower [] = refl
first-insert_above this lower (x ∷ xs) = elim (Bool-cases (x == lower)) [
  | inl e ↦ rw e refl
  | inr ne ↦ rw ne refl
]

-- A layer is built on `lower`.
module _ (this lower : ℕ) (apart : this ≢ lower) where
  pub IsUp-insert_above :
      (u : ℕ → Option ℕ) (xs : List ℕ)
      → member lower xs ≡ true
      → All (λ x. x ≢ this) xs
      → Distinct xs
      → IsUp u xs
      → IsUp (update (update u this (u lower)) lower (some this)) (insert_above this lower xs)
  IsUp-insert_above u [] m new d up = cc
  IsUp-insert_above u (x ∷ xs) m new d up =
      let u1 = update u this (u lower) in
      let u2 = update u1 lower (some this) in
      elim (Bool-cases (x == lower)) [
        | inl e ↦
            let same : x ≡ lower = (==_iff x lower).0 e in
            let upper : u lower ≡ first xs = ap u (sym same) ∙ up.0 in
            rw e (
              ap u2 same ∙ update_self u1 lower (some this),
              (
                update_ne u1 lower this (some this) apart ∙ (update_self u this (u lower) ∙ upper),
                IsUp-update u1 lower (some this) xs (subst (λ y. All (λ z. z ≢ y) xs) same d.0)
                    (IsUp-update u this (u lower) xs new.1 up.1),
              ),
            )
        | inr ne ↦
            let other : x ≢ lower = λ same. ground (arith, same, ne) in
            rw ne (
              update_ne u1 lower x (some this) other
                  ∙ (update_ne u this x (u lower) new.0
                      ∙ (up.0 ∙ sym (first-insert_above this lower xs))),
              IsUp-insert_above u xs (rw ne at m) new.1 d.1 up.1,
            )
      ]

  -- The layers from the one on which `this` is built.
  IsDown-above :
      (d : ℕ → Option ℕ) (below : Option ℕ) (x : ℕ) (xs : List ℕ)
      → All (λ y. y ≢ this) (x ∷ xs)
      → Distinct (x ∷ xs)
      → IsDown d below (x ∷ xs)
      → IsDown (relink (update d this (some x)) (first xs) (some this)) below (x ∷ this ∷ xs)
  IsDown-above d below x [] new dis down =
      (update_ne d this x (some x) new.0 ∙ down.0, (update_self d this (some x), tt))
  IsDown-above d below x (y ∷ ys) new dis down =
      let d1 = update d this (some x) in
      (
        update_ne d1 y x (some this) (λ e. dis.0.0 (sym e))
            ∙ (update_ne d this x (some x) new.0 ∙ down.0),
        (
          update_ne d1 y this (some this) (λ e. new.1.0 (sym e)) ∙ update_self d this (some x),
          (
            update_self d1 y (some this),
            IsDown-update d1 y (some this) (some y) ys dis.1.0
                (IsDown-update d this (some x) (some y) ys new.1.1 down.1.1),
          ),
        ),
      )

  pub IsDown-insert_above :
      (u d : ℕ → Option ℕ) (below : Option ℕ) (xs : List ℕ)
      → member lower xs ≡ true
      → All (λ x. x ≢ this) xs
      → Distinct xs
      → IsUp u xs
      → IsDown d below xs
      → IsDown
          (relink (update d this (some lower)) (u lower) (some this))
          below
          (insert_above this lower xs)
  IsDown-insert_above u d below [] m new dis up down = cc
  IsDown-insert_above u d below (x ∷ xs) m new dis up down =
      let d1 = update d this (some lower) in
      elim (Bool-cases (x == lower)) [
        | inl e ↦
            let same : x ≡ lower = (==_iff x lower).0 e in
            let upper : u lower ≡ first xs = ap u (sym same) ∙ up.0 in
            rw e (
              subst
                (λ p.
                  IsDown (relink (update d this (some lower)) p (some this)) below (x ∷ this ∷ xs))
                (sym upper)
                (subst
                  (λ y.
                    IsDown (relink (update d this (some y)) (first xs) (some this)) below
                      (x ∷ this ∷ xs))
                  same (IsDown-above d below x xs new dis down)))
        | inr ne ↦ rw ne (
          relink_ne d1 (u lower) (some this) x
                (upper-Of (λ y. y ≢ x) u lower xs (rw ne at m) up.1 dis.0)
              ∙ (update_ne d this x (some lower) new.0 ∙ down.0),
          IsDown-insert_above u d (some x) xs (rw ne at m) new.1 dis.1 up.1 down.1,
        )
      ]
