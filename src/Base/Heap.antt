-- ===== src/Base/Heap.antt =====
-- Stores as functions from addresses.
use decom.Base.Tests.{◌==◌, if◌then◌else◌, ==_refl, ==_ne}
use Prim.Native.Nat.{ℕ}
use mathlib.Core.Path.{◌≡◌}
use mathlib.Core.Logic.{◌≢◌}

-- A write at one address.
abbrev pub update {ℓ} : {A : Type ℓ} → (ℕ → A) → ℕ → A → ℕ → A
update h p v a = if a == p then v else h a

pub update_self {ℓ} : {A : Type ℓ} (h : ℕ → A) (p : ℕ) (v : A) → update h p v p ≡ v
update_self h p v = rw (==_refl p)

pub update_ne {ℓ} : {A : Type ℓ} (h : ℕ → A) (p a : ℕ) (v : A) → a ≢ p → update h p v a ≡ h a
update_ne h p a v ne = rw (==_ne a p ne)
