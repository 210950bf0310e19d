-- ===== src/Msg/Page.antt =====
-- Writes to one page of the pool, and bytes that move by one place within a page.
use decom.Base.{
  take-append_le, take_all, update_self, update_ne, ℕ, zero, suc, ◌+◌, ◌-◌, ◌≤◌, ◌<◌, ◌≡◌, refl, ap,
  sym, ◌∙◌, ◌∷◌, ◌++◌, take, drop, arith, ◌==◌, ltb, leb, ◌&&◌, if◌then◌else◌, update, Bool-cases,
  inl, inr, ==_iff,
}
use mathlib.Core.Path.{fun_ext}
use decom.Msg.Pool.{Page, Pool, put_page}
use decom.Msg.Chain.{span, length-span}

update-update {ℓ} :
    {A : Type ℓ} (h : ℕ → A) (i : ℕ) (a b : A) → update (update h i a) i b ≡ update h i b
update-update h i a b = fun_ext λ j. ground arith

update_same {ℓ} : {A : Type ℓ} (h : ℕ → A) (i : ℕ) → update h i (h i) ≡ h
update_same h i = fun_ext λ j. elim (Bool-cases (j == i)) [
  | inl e ↦ let there : j ≡ i = (==_iff j i).0 e in rw e (ap h (sym there))
  | inr ne ↦ rw ne refl
]

pub put_page-put_page :
    (p : Pool) (i : ℕ) (a b : Page) → put_page (put_page p i a) i b ≡ put_page p i b
put_page-put_page p i a b = ap (λ h. record p { pages = h }) (update-update p.pages i a b)

pub put_page_same : (p : Pool) (i : ℕ) → put_page p i (p.pages i) ≡ p
put_page_same p i = ap (λ h. record p { pages = h }) (update_same p.pages i)

-- The loop of `erase`: `n` bytes move down, the first to `idx`.
abbrev pub down_bytes : ℕ → (ℕ → ℕ) → ℕ → ℕ → ℕ
down_bytes zero f idx = f
down_bytes (suc n) f idx = down_bytes n (update f idx (f (idx + 1))) (idx + 1)

-- The loop of `insert`: `n` bytes move up, the first to `idx`.
abbrev pub up_bytes : ℕ → (ℕ → ℕ) → ℕ → ℕ → ℕ
up_bytes zero f idx = f
up_bytes (suc n) f idx = up_bytes n (update f idx (f (idx - 1))) (idx - 1)

down_bytes_lem :
    (n : ℕ) (f : ℕ → ℕ) (idx a : ℕ)
    → down_bytes n f idx a ≡ (if leb idx a && ltb a (idx + n) then f (a + 1) else f a)
down_bytes_lem zero f idx a = ground arith
down_bytes_lem (suc n) f idx a =
    down_bytes_lem n (update f idx (f (idx + 1))) (idx + 1) a ∙ ground arith

up_bytes_lem :
    (n : ℕ) (f : ℕ → ℕ) (idx a : ℕ)
    → n ≤ idx
    → up_bytes n f idx a ≡ (if ltb (idx - n) a && leb a idx then f (a - 1) else f a)
up_bytes_lem zero f idx a le = ground arith
up_bytes_lem (suc n) f idx a le =
    up_bytes_lem n (update f idx (f (idx - 1))) (idx - 1) a (omega arith) ∙ ground arith

span-cong : (f : ℕ → ℕ) {i j m n : ℕ} → i ≡ j → m ≡ n → span f i m ≡ span f j n
span-cong f e e' = rw (e, e') refl

span-add : (f : ℕ → ℕ) (i k m : ℕ) → span f i (k + m) ≡ span f i k ++ span f (i + k) m
span-add f i zero m = span-cong f (omega arith) (omega arith)
span-add f i (suc k) m =
    let n : suc k + m ≡ suc (k + m) = omega arith in
    ap (λ n. span f i n) n
    ∙ ap (λ l. f i ∷ l)
        (span-add f (i + 1) k m ∙ ap (λ a. span f (i + 1) k ++ span f a m) (omega arith))

span-ext :
    (f g : ℕ → ℕ) (i j n : ℕ) → ((a : ℕ) → a < n → f (i + a) ≡ g (j + a)) → span f i n ≡ span g j n
span-ext f g i j zero e = refl
span-ext f g i j (suc n) e =
    let here : f i ≡ g j = ap f (omega arith) ∙ (e 0 (omega arith) ∙ ap g (omega arith)) in
    let rest : span f (i + 1) n ≡ span g (j + 1) n =
      span-ext f g (i + 1) (j + 1) n
        (λ a lt. ap f (omega arith) ∙ (e (suc a) (omega arith) ∙ ap g (omega arith))) in
    rw (here, rest) refl

take-span : (f : ℕ → ℕ) (i k m : ℕ) → take k (span f i (k + m)) ≡ span f i k
take-span f i k m =
    ap (take k) (span-add f i k m)
    ∙ (take-append_le k (span f i k) (span f (i + k) m) (omega (arith, length-span f i k))
        ∙ take_all k (span f i k) (omega (arith, length-span f i k)))

drop-span : (f : ℕ → ℕ) (i k m : ℕ) → drop k (span f i (k + m)) ≡ span f (i + k) m
drop-span f i zero m = span-cong f (omega arith) (omega arith)
drop-span f i (suc k) m =
    let n : suc k + m ≡ suc (k + m) = omega arith in
    ap (λ n. drop (suc k) (span f i n)) n
    ∙ (drop-span f (i + 1) k m ∙ span-cong f (omega arith) refl)

-- The bytes of a page behind the loop of `erase` at its byte `k`, with `m` bytes behind it.
pub span-down_bytes :
    (f : ℕ → ℕ) (i k m : ℕ)
    → span (down_bytes m f (i + k)) i (k + m)
      ≡ take k (span f i (k + suc m)) ++ drop (suc k) (span f i (k + suc m))
span-down_bytes f i k m =
    let g = down_bytes m f (i + k) in
    let front : span g i k ≡ span f i k =
      span-ext g f i i k (λ a lt. down_bytes_lem m f (i + k) (i + a) ∙ ground arith) in
    let back : span g (i + k) m ≡ span f (i + suc k) m = span-ext g f (i + k) (i + suc k) m (λ a lt.
      down_bytes_lem m f (i + k) (i + k + a) ∙ (inside (i + k) m a lt ∙ ap f (omega arith))) in
    span-add g i k m
    ∙ (rw (front, back, take-span f i k (suc m))
        (ap (λ l. span f i k ++ l)
          (sym (drop-span f i (suc k) m) ∙ ap (λ n. drop (suc k) (span f i n)) (omega arith))))
  where
    inside :
        (b m a : ℕ)
        → a < m
        → (if leb b (b + a) && ltb (b + a) (b + m) then f (b + a + 1) else f (b + a))
          ≡ f (b + a + 1)
    inside b m a lt = ground arith

-- The bytes of a page behind the loop of `insert` at its byte `k`, with `m` bytes from there on, when
-- the new byte `x` has come to its place.
pub span-up_bytes :
    (f : ℕ → ℕ) (i k m x : ℕ)
    → span (update (up_bytes m f (i + k + m)) (i + k) x) i (k + suc m)
      ≡ take k (span f i (k + m)) ++ (x ∷ drop k (span f i (k + m)))
span-up_bytes f i k m x =
    let u = up_bytes m f (i + k + m) in
    let g = update u (i + k) x in
    let front : span g i k ≡ span f i k = span-ext g f i i k (λ a lt.
      update_ne u (i + k) (i + a) x (λ e. omega arith)
      ∙ (up_bytes_lem m f (i + k + m) (i + a) (omega arith) ∙ ground arith)) in
    let back : span g (i + k + 1) m ≡ span f (i + k) m = span-ext g f (i + k + 1) (i + k) m (λ a lt.
      update_ne u (i + k) (i + k + 1 + a) x (λ e. omega arith)
      ∙ (up_bytes_lem m f (i + k + m) (i + k + 1 + a) (omega arith)
          ∙ (inside (i + k) m a lt ∙ ap f (omega arith)))) in
    span-add g i k (suc m)
    ∙ rw (front, back, update_self u (i + k) x, take-span f i k m, drop-span f i k m) refl
  where
    inside :
        (b m a : ℕ)
        → a < m
        → (if ltb (b + m - m) (b + 1 + a) && leb (b + 1 + a) (b + m)
            then f (b + 1 + a - 1)
            else f (b + 1 + a))
          ≡ f (b + 1 + a - 1)
    inside b m a lt = ground arith
