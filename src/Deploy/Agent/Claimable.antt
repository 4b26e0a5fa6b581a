-- ===== src/Deploy/Agent/Claimable.antt =====
-- core/store/inmemory.go, ClaimAgentDeploymentJobs: the sorted rows that pass, and the first of them.
use certpilot.Prelude.{
  ℕ, zero, suc, min, ◌+◌, ◌≡◌, ◌≢◌, refl, sym, ◌∙◌, ap, Bool, Bool-cases, inl, inr, true, some,
  List, [], ◌∷◌, map, arith, length, take, get_elem?, total, All, All-map, if◌then◌else◌,
}
use certpilot.Deploy.Job.{DeploymentJob}
use certpilot.Deploy.Queue.{more_urgent_deployment}
use certpilot.Deploy.Agent.{insert_by_urgency, claimable_from}
use certpilot.Deploy.Agent.Leases.{AreApart}

All-insert :
    (P : ℕ × DeploymentJob → Type 0) (i : ℕ) (j : DeploymentJob) (rest : List (ℕ × DeploymentJob))
    → P (i, j)
    → All P rest
    → All P (insert_by_urgency i j rest)
unfolding insert_by_urgency
All-insert P i j [] h p = (h, tt)
All-insert P i j ((k, b) ∷ rest) h p = elim (Bool-cases (more_urgent_deployment b j)) [
  | inl e ↦ rw (e, insert_by_urgency) (p.0, All-insert P i j rest h p.1)
  | inr e ↦ rw (e, insert_by_urgency) (h, p)
]

insert-AreApart :
    (i : ℕ) (j : DeploymentJob) (rest : List (ℕ × DeploymentJob))
    → All (λ d. i ≢ d.0) rest
    → AreApart rest
    → AreApart (insert_by_urgency i j rest)
unfolding insert_by_urgency
insert-AreApart i j [] ne apart = (tt, tt)
insert-AreApart i j ((k, b) ∷ rest) ne apart = elim (Bool-cases (more_urgent_deployment b j)) [
  | inl e ↦
      rw (e, insert_by_urgency)
        (
          All-insert (λ d. k ≢ d.0) i j rest (λ eq. ne.0 (sym eq)) apart.0,
          insert-AreApart i j rest ne.1 apart.1,
        )
  | inr e ↦ rw (e, insert_by_urgency) (ne, apart)
]

length-insert_by_urgency :
    (i : ℕ) (j : DeploymentJob) (rest : List (ℕ × DeploymentJob))
    → length (insert_by_urgency i j rest) ≡ suc (length rest)
unfolding insert_by_urgency
length-insert_by_urgency i j [] = refl
length-insert_by_urgency i j ((k, b) ∷ rest) = elim (Bool-cases (more_urgent_deployment b j)) [
  | inl e ↦ rw (e, insert_by_urgency) (ap suc (length-insert_by_urgency i j rest))
  | inr e ↦ rw (e, insert_by_urgency) refl
]

-- A row that passes, with its place in the list that starts at place `i`.
abbrev pub IsPlaced : (DeploymentJob → Bool) → ℕ → List DeploymentJob → ℕ × DeploymentJob → Type 0
IsPlaced test i js c = (n : ℕ) × (c.0 ≡ i + n) × (get_elem? js n ≡ some c.1) × (test c.1 ≡ true)

abbrev pub passing : (DeploymentJob → Bool) → List DeploymentJob → ℕ
passing test = total (λ j. if test j then 1 else 0)

module _ (test : DeploymentJob → Bool) where
  further :
      (i : ℕ) (j : DeploymentJob) (js : List DeploymentJob)
      → All (IsPlaced test (suc i) js) (claimable_from test (suc i) js)
      → All (IsPlaced test i (j ∷ js)) (claimable_from test (suc i) js)
  further i j js =
      All-map (IsPlaced test (suc i) js) (IsPlaced test i (j ∷ js)) (claimable_from test (suc i) js)
        λ c (n, at, found, passed). (suc n, at ∙ omega arith, found, passed)

  pub claimable_from-IsPlaced :
      (i : ℕ) (js : List DeploymentJob) → All (IsPlaced test i js) (claimable_from test i js)
  unfolding claimable_from
  claimable_from-IsPlaced i [] = tt
  claimable_from-IsPlaced i (j ∷ js) =
      let rest = further i j js (claimable_from-IsPlaced (suc i) js) in
      elim (Bool-cases (test j)) [
        | inl e ↦
            rw (e, claimable_from)
              (All-insert (IsPlaced test i (j ∷ js)) i j (claimable_from test (suc i) js)
                (0, omega arith, refl, e) rest)
        | inr e ↦ rw (e, claimable_from) rest
      ]

  pub claimable_from-AreApart :
      (i : ℕ) (js : List DeploymentJob) → AreApart (claimable_from test i js)
  unfolding claimable_from
  claimable_from-AreApart i [] = tt
  claimable_from-AreApart i (j ∷ js) = elim (Bool-cases (test j)) [
    | inl e ↦
        let later =
          All-map (IsPlaced test (suc i) js) (λ d. i ≢ d.0) (claimable_from test (suc i) js)
            (λ d (n, at, found, passed) eq. omega arith) (claimable_from-IsPlaced (suc i) js) in
        rw (e, claimable_from)
          (insert-AreApart i j (claimable_from test (suc i) js) later
            (claimable_from-AreApart (suc i) js))
    | inr e ↦ rw (e, claimable_from) (claimable_from-AreApart (suc i) js)
  ]

  pub length-claimable_from :
      (i : ℕ) (js : List DeploymentJob) → length (claimable_from test i js) ≡ passing test js
  unfolding claimable_from
  length-claimable_from i [] = refl
  length-claimable_from i (j ∷ js) = elim (Bool-cases (test j)) [
    | inl e ↦
        rw (e, claimable_from)
          (length-insert_by_urgency i j (claimable_from test (suc i) js)
            ∙ omega (arith, length-claimable_from (suc i) js))
    | inr e ↦ rw (e, claimable_from) (omega (arith, length-claimable_from (suc i) js))
  ]

pub All-take :
    (P : ℕ × DeploymentJob → Type 0) (n : ℕ) (rows : List (ℕ × DeploymentJob))
    → All P rows
    → All P (take n rows)
All-take P zero rows h = tt
All-take P (suc n) [] h = tt
All-take P (suc n) (c ∷ rows) h = (h.0, All-take P n rows h.1)

pub take-AreApart :
    (n : ℕ) (rows : List (ℕ × DeploymentJob)) → AreApart rows → AreApart (take n rows)
take-AreApart zero rows h = tt
take-AreApart (suc n) [] h = tt
take-AreApart (suc n) (c ∷ rows) h =
    (All-take (λ d. c.0 ≢ d.0) n rows h.0, take-AreApart n rows h.1)

pub length-map-take :
    (f : ℕ × DeploymentJob → DeploymentJob) (n : ℕ) (rows : List (ℕ × DeploymentJob))
    → length (map f (take n rows)) ≡ min n (length rows)
length-map-take f zero rows = omega arith
length-map-take f (suc n) [] = omega arith
length-map-take f (suc n) (c ∷ rows) = omega (arith, length-map-take f n rows)
