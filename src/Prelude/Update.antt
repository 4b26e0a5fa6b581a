-- ===== src/Prelude/Update.antt =====
-- The loop that the store writes for every update of a row: walk the rows, skip those with another
-- key, change the first that fits and return; past the last row, fail.
use mathlib.Core.Bool.{Bool, true, false}
use mathlib.Core.List.{List, [], ◌∷◌}
use mathlib.Core.Path.{◌≡◌, refl, subst}
use mathlib.Core.Logic.{inl, inr}
use certpilot.Prelude.Tests.{Bool-cases}
use certpilot.Prelude.Lists.{All}
use certpilot.Prelude.Results.{Result, ok, err, map_ok, map_ok-ok}
use certpilot.Prelude.Rows.{Replaced, here, there}

module _ {ℓ κ} {E : Type ℓ} {A : Type κ} where
  abbrev pub update_first : (A → Bool) → (A → Result E A) → E → List A → Result E (List A)
  update_first hit change missing [] = err missing
  update_first hit change missing (x ∷ xs) = elim (hit x) [
    | true ↦ map_ok (λ y. y ∷ xs) (change x)
    | false ↦ map_ok (λ ys. x ∷ ys) (update_first hit change missing xs)
  ]

  -- A successful update replaces one row that fits by what the change makes of it.
  pub record Updated (hit : A → Bool) (change : A → Result E A) (xs ys : List A)
      : Type (ℓ ⊔ κ) where
    pub old : A
    pub new : A
    pub hits : hit old ≡ true
    pub changed : change old ≡ ok new
    pub replaced : Replaced old new xs ys

  pub update_first-Updated :
      (hit : A → Bool) (change : A → Result E A) (missing : E) (xs : List A) {ys : List A}
      → update_first hit change missing xs ≡ ok ys
      → Updated hit change xs ys
  update_first-Updated hit change missing [] h = cc
  update_first-Updated hit change missing (x ∷ xs) {ys} h = elim (Bool-cases (hit x)) [
    | inl e ↦
        let (y, c, r) = map_ok-ok (λ y. y ∷ xs) (change x) (rw (e, update_first) at h) in
        record {
          old = x;
          new = y;
          hits = e;
          changed = c;
          replaced = subst (Replaced x y (x ∷ xs)) r here;
        }
    | inr e ↦
        let (zs, u, r) =
          map_ok-ok (λ zs. x ∷ zs) (update_first hit change missing xs)
            (rw (e, update_first) at h) in
        let rest = update_first-Updated hit change missing xs u in
        record {
          old = rest.old;
          new = rest.new;
          hits = rest.hits;
          changed = rest.changed;
          replaced = subst (Replaced rest.old rest.new (x ∷ xs)) r (there rest.replaced);
        }
  ]

  -- With no row that fits the loop runs past the end.
  pub update_first-miss :
      (hit : A → Bool) (change : A → Result E A) (missing : E) (xs : List A)
      → All (λ x. hit x ≡ false) xs
      → update_first hit change missing xs ≡ err missing
  update_first-miss hit change missing [] h = refl
  update_first-miss hit change missing (x ∷ xs) h =
      rw (h.0, update_first) (rw (update_first-miss hit change missing xs h.1))
