-- ===== src/Prelude/Results.antt =====
-- Go's (value, error) pairs, with the errors of a component as a type of its own.
use mathlib.Core.Path.{◌≡◌, refl}

pub data Result {ℓ κ} (E : Type ℓ) (A : Type κ) : Type (ℓ ⊔ κ) where
  err : E → Result E A
  ok : A → Result E A

-- A change of the value, where there is no error.
abbrev pub map_ok {ℓ κ μ} :
    {E : Type ℓ} {A : Type κ} {B : Type μ} → (A → B) → Result E A → Result E B
map_ok change (err e) = err e
map_ok change (ok a) = ok (change a)

-- What a caller is left with that only logs an error.
abbrev pub or_unchanged {ℓ κ} : {E : Type ℓ} {A : Type κ} → A → Result E A → A
or_unchanged a (ok b) = b
or_unchanged a (err e) = a

pub ok_injective {ℓ κ} :
    {E : Type ℓ} {A : Type κ} {a b : A} → ◌≡◌ {A = Result E A} (ok a) (ok b) → a ≡ b
ok_injective h = cc

pub map_ok-ok {ℓ κ μ} :
    {E : Type ℓ} {A : Type κ} {B : Type μ} (change : A → B) (r : Result E A) {b : B}
    → map_ok change r ≡ ok b
    → (a : A) × (r ≡ ok a) × (change a ≡ b)
map_ok-ok change (err e) h = cc
map_ok-ok change (ok a) h = (a, refl, ok_injective h)

pub map_ok-err {ℓ κ μ} :
    {E : Type ℓ} {A : Type κ} {B : Type μ} (change : A → B) (r : Result E A) {e : E}
    → map_ok change r ≡ err e
    → r ≡ err e
map_ok-err change (err e) h = cc
map_ok-err change (ok a) h = cc
