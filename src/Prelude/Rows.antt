-- ===== src/Prelude/Rows.antt =====
-- What an update of one row does to the rows, as a relation with its consequences.
use Prim.Native.Nat.{ℕ, zero, suc, ◌+◌, ◌≤◌}
use mathlib.Core.Path.{◌≡◌, refl, subst, ap}
use mathlib.Core.Logic.{◌≢◌, ◌⊎◌, inl, inr}
use mathlib.Core.Option.{some}
use mathlib.Core.List.{List, [], ◌∷◌, ◌++◌}
use native.Mathlib.Omega.{arith}
use certpilot.Prelude.Lists.{length, get_elem?, set, All}

-- `ys` is `xs` with one `x` replaced by `y`.
pub data Replaced {ℓ} {A : Type ℓ} (x y : A) : List A → List A → Type ℓ where
  here : {xs : List A} → Replaced x y (x ∷ xs) (y ∷ xs)
  there : {z : A} {xs ys : List A} → Replaced x y xs ys → Replaced x y (z ∷ xs) (z ∷ ys)

-- The rows of which `P` holds, in their order.
pub data Chosen {ℓ} {A : Type ℓ} (P : A → Type 0) : List A → List A → Type ℓ where
  none_left : Chosen P [] []
  takes : {xs ys : List A} (x : A) → P x → Chosen P xs ys → Chosen P (x ∷ xs) (x ∷ ys)
  leaves : {xs ys : List A} (x : A) → ¬ P x → Chosen P xs ys → Chosen P (x ∷ xs) ys

-- The sum of a measure of the rows.
abbrev pub total {ℓ} : {A : Type ℓ} → (A → ℕ) → List A → ℕ
total w [] = 0
total w (x ∷ xs) = w x + total w xs

module _ {ℓ} {A : Type ℓ} where
  pub total-append : (w : A → ℕ) (xs ys : List A) → total w (xs ++ ys) ≡ total w xs + total w ys
  total-append w [] ys = omega arith
  total-append w (x ∷ xs) ys = omega (arith, total-append w xs ys)

  pub total-single : (w : A → ℕ) (x : A) → total w (x ∷ []) ≡ w x
  total-single w x = omega arith

  pub total-get :
      (w : A → ℕ) (xs : List A) (i : ℕ) (x : A) → get_elem? xs i ≡ some x → w x ≤ total w xs
  total-get w [] i x h = cc
  total-get w (y ∷ xs) zero x h = ground arith
  total-get w (y ∷ xs) (suc i) x h = omega (arith, total-get w xs i x h)

  -- Two places contribute both.
  pub total-two :
      (w : A → ℕ) (xs : List A) (i k : ℕ) (x y : A)
      → get_elem? xs i ≡ some x
      → get_elem? xs k ≡ some y
      → i ≢ k
      → w x + w y ≤ total w xs
  total-two w [] i k x y p q n = cc
  total-two w (z ∷ xs) zero zero x y p q n = absurd (n refl)
  total-two w (z ∷ xs) zero (suc k) x y p q n = ground (arith, total-get w xs k y q)
  total-two w (z ∷ xs) (suc i) zero x y p q n = ground (arith, total-get w xs i x p)
  total-two w (z ∷ xs) (suc i) (suc k) x y p q n =
      omega (arith, total-two w xs i k x y p q (λ e. n (ap suc e)))

  pub Replaced-total :
      (w : A → ℕ) {x y : A} {xs ys : List A}
      → Replaced x y xs ys
      → total w ys + w x ≡ total w xs + w y
  Replaced-total w here = omega arith
  Replaced-total w (there r) = omega (arith, Replaced-total w r)

  pub Replaced-length : {x y : A} {xs ys : List A} → Replaced x y xs ys → length ys ≡ length xs
  Replaced-length here = refl
  Replaced-length (there r) = ap suc (Replaced-length r)

  pub Replaced-All {κ} :
      (P : A → Type κ) {x y : A} {xs ys : List A}
      → Replaced x y xs ys
      → All P xs
      → (P x → P y)
      → All P ys
  Replaced-All P here h f = (f h.0, h.1)
  Replaced-All P (there r) h f = (h.0, Replaced-All P r h.1 f)

  pub Replaced-old {κ} :
      (P : A → Type κ) {x y : A} {xs ys : List A} → Replaced x y xs ys → All P xs → P x
  Replaced-old P here h = h.0
  Replaced-old P (there r) h = Replaced-old P r h.1

  -- Every place but the one that was replaced holds what it held.
  pub Replaced-get :
      {x y : A} {xs ys : List A}
      → Replaced x y xs ys
      → (i : ℕ) (z : A) → get_elem? xs i ≡ some z
      → ((z ≡ x) × (get_elem? ys i ≡ some y)) ⊎ (get_elem? ys i ≡ some z)
  Replaced-get here zero z h = inl (cc, refl)
  Replaced-get here (suc i) z h = inr h
  Replaced-get (there r) zero z h = inr h
  Replaced-get (there r) (suc i) z h = Replaced-get r i z h

  pub Replaced-set :
      (xs : List A) (i : ℕ) {x : A} (y : A) → get_elem? xs i ≡ some x → Replaced x y xs (set xs i y)
  Replaced-set [] i y h = cc
  Replaced-set (z ∷ xs) zero {x} y h = subst (λ a. Replaced a y (z ∷ xs) (y ∷ xs)) (cc) here
  Replaced-set (z ∷ xs) (suc i) y h = there (Replaced-set xs i y h)
