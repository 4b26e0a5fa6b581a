-- ===== src/Deploy/Agent/Leases.antt =====
-- core/store/inmemory.go, ClaimAgentDeploymentJobs: what the loop that writes the leases does to the rows.
use mathlib.Core.List.{Perm, perm_middle}
use mathlib.Core.List.Perm
use certpilot.Prelude.{
  ℕ, zero, suc, ◌≡◌, ◌≢◌, sym, ◌∙◌, ap, subst, some, some_injective, List, [], ◌∷◌, ◌++◌, map, Text,
  Time, Duration, get_elem?, get_elem?-set_ne, set, All,
}
use certpilot.Deploy.Job.{DeploymentJob}
use certpilot.Deploy.Queue.{leased}
use certpilot.Deploy.Queue.Waits.{leased-moves}
use certpilot.Deploy.Agent.{lease_all}

-- The places are different ones.
abbrev pub AreApart {ℓ} : {A : Type ℓ} → List (ℕ × A) → Type 0
AreApart [] = Unit {0}
AreApart (c ∷ cs) = All (λ d. c.0 ≢ d.0) cs × AreApart cs

-- Rows of which `P` holds are replaced by their images under `f`, all others are kept; the third list
-- holds the images.
pub data Updated {ℓ} {A : Type ℓ} (P : A → Type 0) (f : A → A)
    : List A → List A → List A → Type ℓ where
  none_left : Updated P f [] [] []
  keeps :
      {xs ys images : List A} (x : A)
      → Updated P f xs ys images
      → Updated P f (x ∷ xs) (x ∷ ys) images
  updates :
      {xs ys images : List A} (x y : A)
      → P x
      → y ≡ f x
      → Updated P f xs ys images
      → Updated P f (x ∷ xs) (y ∷ ys) (y ∷ images)

module _ {ℓ} {A : Type ℓ} (P : A → Type 0) (f : A → A) where
  pub Updated-refl : (xs : List A) → Updated P f xs xs []
  Updated-refl [] = none_left
  Updated-refl (x ∷ xs) = keeps x (Updated-refl xs)

  Updated-set :
      ((a : A) → f a ≢ a)
      → {xs ys images : List A} → Updated P f xs ys images
      → (i : ℕ) (x : A) → get_elem? xs i ≡ some x
      → get_elem? ys i ≡ some x
      → P x
      → (images' : List A) × Updated P f xs (set ys i (f x)) images' × Perm images' (f x ∷ images)
  Updated-set moves none_left i x old new p = absurd (cc)
  Updated-set moves (keeps {xs} {ys} {images} y u) zero x old new p =
      let e = some_injective old in
      (f x ∷ images, updates y (f x) (subst P (sym e) p) (ap f (sym e)) u, Perm.refl (f x ∷ images))
  Updated-set moves (keeps y u) (suc i) x old new p =
      let (images', u', perm) = Updated-set moves u i x old new p in (images', keeps y u', perm)
  Updated-set moves (updates y z q e u) zero x old new p =
      absurd (moves x (ap f (sym (some_injective old)) ∙ sym e ∙ some_injective new))
  Updated-set moves (updates {xs} {ys} {images} y z q e u) (suc i) x old new p =
      let (images', u', perm) = Updated-set moves u i x old new p in
      (z ∷ images', updates y z q e u', Perm.trans (Perm.cons z perm) (Perm.swap (f x) z images))

module _ (P : DeploymentJob → Type 0) (worker : Text) (lease : Duration) (now clock : Time) where
  -- A row that is still in the queue as it was before the claim.
  abbrev pub IsWaiting : List DeploymentJob → List DeploymentJob → ℕ × DeploymentJob → Type 0
  IsWaiting jobs cur c = (get_elem? jobs c.0 ≡ some c.1) × (get_elem? cur c.0 ≡ some c.1) × P c.1

  IsWaiting-still :
      (jobs cur : List DeploymentJob) (i : ℕ) (v : DeploymentJob) (rows : List (ℕ × DeploymentJob))
      → All (λ d. i ≢ d.0) rows
      → All (IsWaiting jobs cur) rows
      → All (IsWaiting jobs (set cur i v)) rows
  IsWaiting-still jobs cur i v [] apart h = tt
  IsWaiting-still jobs cur i v ((k, b) ∷ rows) (ne, apart) ((old, new, p), h) =
      ((old, get_elem?-set_ne cur i k v ne ∙ new, p), IsWaiting-still jobs cur i v rows apart h)

  pub lease_all-Updated :
      (jobs cur given : List DeploymentJob) (rows : List (ℕ × DeploymentJob))
      → Updated P (leased worker lease now clock) jobs cur given
      → All (IsWaiting jobs cur) rows
      → AreApart rows
      → (given' : List DeploymentJob) × Updated P
          (leased worker lease now clock)
          jobs
          (lease_all worker lease now clock rows cur)
          given'
        × Perm given' (map (λ c. leased worker lease now clock c.1) rows ++ given)
  unfolding lease_all
  lease_all-Updated jobs cur given [] u h apart = (given, u, Perm.refl given)
  lease_all-Updated jobs cur given ((i, j) ∷ rows) u ((old, new, p), h) (ne, apart) =
      let out = leased worker lease now clock j in
      let (given1, u1, perm1) =
        Updated-set P (leased worker lease now clock) (leased-moves worker lease now clock) u i j
          old new p in
      let (given2, u2, perm2) =
        lease_all-Updated jobs (set cur i out) given1 rows u1
          (IsWaiting-still jobs cur i out rows ne h) apart in
      let others = map (λ c. leased worker lease now clock c.1) rows in
      (
        given2,
        u2,
        Perm.trans perm2 (Perm.trans (Perm.append_left others perm1) (perm_middle others given)),
      )
