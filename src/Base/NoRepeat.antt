-- ===== src/Base/NoRepeat.antt =====
-- Lists without repetition, and why one over the numbers below `n` has at most `n` elements.
use decom.Base.Tests.{◌==◌, if◌then◌else◌, Bool-cases, ==_iff}
use decom.Base.Lists.{snoc, length, All, All-left, All-right, All-append}
use Prim.Native.Nat.{ℕ, zero, suc, ◌≤◌, ◌<◌}
use mathlib.Core.Path.{◌≡◌}
use mathlib.Core.Logic.{◌≢◌, inl, inr}
use mathlib.Core.List.{List, [], ◌∷◌}
use native.Mathlib.Omega.{arith}

abbrev pub Distinct : List ℕ → Type 0
Distinct [] = Unit
Distinct (i ∷ is) = All (λ j. j ≢ i) is × Distinct is

pub Distinct-snoc : (is : List ℕ) (l : ℕ) → Distinct is → All (λ j. j ≢ l) is → Distinct (snoc is l)
Distinct-snoc [] l d n = (tt, tt)
Distinct-snoc (i ∷ is) l d n = (
  All-append (λ j. j ≢ i) is (l ∷ []) d.0 ((λ e. n.0 (omega arith)), tt),
  Distinct-snoc is l d.1 n.1,
)

-- The last element of a list without repetition is not among the others.
pub Distinct-last : (is : List ℕ) (l : ℕ) → Distinct (snoc is l) → Distinct is × All (λ j. j ≢ l) is
Distinct-last [] l d = (tt, tt)
Distinct-last (i ∷ is) l d =
    let ih = Distinct-last is l d.1 in
    let ne = All-right (λ j. j ≢ i) is (l ∷ []) d.0 in
    ((All-left (λ j. j ≢ i) is (l ∷ []) d.0, ih.0), ((λ e. ne.0 (omega arith)), ih.1))

abbrev pub erase : ℕ → List ℕ → List ℕ
erase v [] = []
erase v (x ∷ xs) = if x == v then xs else x ∷ erase v xs

All-lt-pred :
    (n : ℕ) (xs : List ℕ) → All (λ x. x < suc n) xs → All (λ j. j ≢ n) xs → All (λ x. x < n) xs
All-lt-pred n [] h ne = tt
All-lt-pred n (x ∷ xs) h ne = (omega (arith, h.0, ne.0), All-lt-pred n xs h.1 ne.1)

pub All-erase {ℓ} : (P : ℕ → Type ℓ) (v : ℕ) (xs : List ℕ) → All P xs → All P (erase v xs)
All-erase P v [] h = tt
All-erase P v (x ∷ xs) h = elim (Bool-cases (x == v)) [
  | inl e ↦ rw e h.1
  | inr ne ↦ rw ne (h.0, All-erase P v xs h.1)
]

pub erase-Distinct : (v : ℕ) (xs : List ℕ) → Distinct xs → Distinct (erase v xs)
erase-Distinct v [] d = tt
erase-Distinct v (x ∷ xs) d = elim (Bool-cases (x == v)) [
  | inl e ↦ rw e d.1
  | inr ne ↦ rw ne (All-erase (λ j. j ≢ x) v xs d.0, erase-Distinct v xs d.1)
]

erase-lt :
    (n : ℕ) (xs : List ℕ) → Distinct xs → All (λ x. x < suc n) xs → All (λ x. x < n) (erase n xs)
erase-lt n [] d h = tt
erase-lt n (x ∷ xs) d h = elim (Bool-cases (x == n)) [
  | inl e ↦ let x_is : x ≡ n = (==_iff x n).0 e in rw e (All-lt-pred n xs h.1 (rw x_is at d.0))
  | inr ne ↦ rw ne (ground arith, erase-lt n xs d.1 h.1)
]

length-erase : (v : ℕ) (xs : List ℕ) → length xs ≤ suc (length (erase v xs))
length-erase v [] = omega arith
length-erase v (x ∷ xs) = ground (arith, length-erase v xs)

pub length-Distinct-le : (n : ℕ) (xs : List ℕ) → Distinct xs → All (λ x. x < n) xs → length xs ≤ n
length-Distinct-le n [] d h = omega arith
length-Distinct-le zero (x ∷ xs) d h = absurd (omega (arith, h.0))
length-Distinct-le (suc n) (x ∷ xs) d h = omega (
  arith,
  length-erase n (x ∷ xs),
  length-Distinct-le n (erase n (x ∷ xs)) (erase-Distinct n (x ∷ xs) d) (erase-lt n (x ∷ xs) d h),
)
