-- ===== src/Layer/Changes.antt =====
-- layer.h: what layers that are built and destroyed at runtime leave of a stack.
use decom.Base.{
  and-true_parts, ℕ, zero, suc, ◌+◌, ◌≡◌, ◌≢◌, refl, ap, sym, ◌∙◌, ◌==◌, true, Option, none, some,
  List, [], ◌∷◌, length, All, update_self, erase, erase-Distinct, Distinct, Bool-cases, inl, inr,
  arith, ==_iff,
}
use decom.Layer.Stack.{
  Stack, construct, destruct, receive_path, send_path, Change, build, destroy, run, insert_above,
  shape, member, is_allowed, first, last_of, reverse_onto,
}
use decom.Layer.Stack.{construct_communicator}
use decom.Layer.Linked.{relink_ne, IsUp, IsDown, IsStack, not-member}
use decom.Layer.Build.{IsUp-insert_above, IsDown-insert_above}
use decom.Layer.Destroy.{lower_apart, IsUp-erase, IsDown-erase}

All-insert_above :
    (P : ℕ → Type 0) (this lower : ℕ) (xs : List ℕ)
    → P this
    → All P xs
    → All P (insert_above this lower xs)
All-insert_above P this lower [] p all = tt
All-insert_above P this lower (x ∷ xs) p all = elim (Bool-cases (x == lower)) [
  | inl e ↦ rw e (all.0, (p, all.1))
  | inr ne ↦ rw ne (all.0, All-insert_above P this lower xs p all.1)
]

Distinct-insert_above :
    (this lower : ℕ) (xs : List ℕ)
    → All (λ x. x ≢ this) xs
    → Distinct xs
    → Distinct (insert_above this lower xs)
Distinct-insert_above this lower [] new dis = tt
Distinct-insert_above this lower (x ∷ xs) new dis = elim (Bool-cases (x == lower)) [
  | inl e ↦ rw e (((λ e'. new.0 (sym e')), dis.0), (new.1, dis.1))
  | inr ne ↦ rw ne (
    All-insert_above (λ y. y ≢ x) this lower xs (λ e. new.0 (sym e)) dis.0,
    Distinct-insert_above this lower xs new.1 dis.1,
  )
]

member_apart :
    (this lower : ℕ) (xs : List ℕ) → member lower xs ≡ true → All (λ x. x ≢ this) xs → this ≢ lower
member_apart this lower [] m new = cc
member_apart this lower (x ∷ xs) m new = elim (Bool-cases (x == lower)) [
  | inl e ↦ λ same. new.0 ((==_iff x lower).0 e ∙ sym same)
  | inr ne ↦ member_apart this lower xs (rw ne at m) new.1
]

construct-IsStack :
    (s : Stack) (this lower : ℕ) (xs : List ℕ)
    → member lower xs ≡ true
    → All (λ x. x ≢ this) xs
    → Distinct xs
    → IsStack s xs
    → IsStack (construct s this lower) (insert_above this lower xs)
unfolding construct
construct-IsStack s this lower xs m new dis (down, up) =
    let apart = member_apart this lower xs m new in
    (
      IsDown-insert_above this lower apart s.upper_ s.lower_ none xs m new dis up down,
      IsUp-insert_above this lower apart s.upper_ xs m new dis up,
    )

destruct-IsStack :
    (s : Stack) (this : ℕ) (xs : List ℕ)
    → member this xs ≡ true
    → Distinct xs
    → IsStack s xs
    → IsStack (destruct s this) (erase this xs)
unfolding destruct
destruct-IsStack s this xs m dis (down, up) =
    let apart = lower_apart this s.lower_ none xs m tt down in
    (
      rw (relink_ne s.upper_ (s.lower_ this) (s.upper_ this) this apart)
          (IsDown-erase this s.upper_ s.lower_ none xs m dis up down),
      IsUp-erase this s.upper_ s.lower_ none xs m dis up down tt,
    )

run-IsStack :
    (s : Stack) (xs : List ℕ) (changes : List Change)
    → Distinct xs
    → IsStack s xs
    → is_allowed xs changes ≡ true
    → IsStack (run s changes) (shape xs changes)
run-IsStack s xs [] dis st ok = st
run-IsStack s xs (build this lower ∷ changes) dis st ok =
    let (m, ok') = and-true_parts ok in
    let (n, rest) = and-true_parts ok' in
    let new = not-member this xs n in
    run-IsStack (construct s this lower) (insert_above this lower xs) changes
      (Distinct-insert_above this lower xs new dis) (construct-IsStack s this lower xs m new dis st)
      rest
run-IsStack s xs (destroy this ∷ changes) dis st ok =
    let (m, rest) = and-true_parts ok in
    run-IsStack (destruct s this) (erase this xs) changes (erase-Distinct this xs dis)
      (destruct-IsStack s this xs m dis st) rest

receive_path-none : (s : Stack) (n : ℕ) → receive_path n s none ≡ []
unfolding receive_path
receive_path-none s zero = refl
receive_path-none s (suc n) = refl

receive_path_lem :
    (s : Stack) (extra : ℕ) (xs : List ℕ)
    → IsUp s.upper_ xs
    → receive_path (length xs + extra) s (first xs) ≡ xs
unfolding receive_path
receive_path_lem s extra [] up = receive_path-none s (0 + extra)
receive_path_lem s extra (x ∷ xs) up =
    let n : suc (length xs) + extra ≡ suc (length xs + extra) = omega arith in
    ap (λ n. receive_path n s (some x)) n
    ∙ ap (λ l. x ∷ l)
        (ap (λ p. receive_path (length xs + extra) s p) up.0 ∙ receive_path_lem s extra xs up.1)

send_path-none : (s : Stack) (n : ℕ) → send_path n s none ≡ []
unfolding send_path
send_path-none s zero = refl
send_path-none s (suc n) = refl

send_path_lem :
    (s : Stack) (extra : ℕ) (below : Option ℕ) (xs : List ℕ)
    → IsDown s.lower_ below xs
    → send_path (length xs + extra) s (last_of below xs) ≡ reverse_onto xs (send_path extra s below)
unfolding send_path
send_path_lem s extra below [] down = ap (λ n. send_path n s below) (omega arith)
send_path_lem s extra below (x ∷ xs) down =
    let n : suc (length xs) + extra ≡ length xs + suc extra = omega arith in
    ap (λ n. send_path n s (last_of (some x) xs)) n
    ∙ (send_path_lem s (suc extra) (some x) xs down.1
        ∙ ap (λ p. reverse_onto xs (x ∷ send_path extra s p)) down.0)

communicator-IsStack : (s : Stack) (this : ℕ) → IsStack (construct_communicator s this) (this ∷ [])
unfolding construct_communicator
communicator-IsStack s this =
    ((update_self s.lower_ this none, tt), (update_self s.upper_ this none, tt))

-- Layers that are built on a communicator, each on a layer that stands, and destroyed in any order,
-- leave a stack through which a received message takes its way up as in the list of the layers, where a
-- new layer stands right behind its lower one, and a sent message its way down in the opposite order.
pub run-paths :
    (memory : Stack) (bottom : ℕ) (changes : List Change) (extra : ℕ)
    → is_allowed (bottom ∷ []) changes ≡ true
    → (receive_path
          (length (shape (bottom ∷ []) changes) + extra)
          (run (construct_communicator memory bottom) changes)
          (first (shape (bottom ∷ []) changes))
        ≡ shape (bottom ∷ []) changes)
      × (send_path
            (length (shape (bottom ∷ []) changes) + extra)
            (run (construct_communicator memory bottom) changes)
            (last_of none (shape (bottom ∷ []) changes))
          ≡ reverse_onto (shape (bottom ∷ []) changes) [])
run-paths memory bottom changes extra ok =
    let s = construct_communicator memory bottom in
    let ys = shape (bottom ∷ []) changes in
    let (down, up) =
      run-IsStack s (bottom ∷ []) changes (tt, tt) (communicator-IsStack memory bottom) ok in
    (
      receive_path_lem (run s changes) extra ys up,
      send_path_lem (run s changes) extra none ys down
          ∙ ap (reverse_onto ys) (send_path-none (run s changes) extra),
    )
