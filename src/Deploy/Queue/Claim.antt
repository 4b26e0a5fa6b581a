-- ===== src/Deploy/Queue/Claim.antt =====
-- core/store/inmemory.go, ClaimDeploymentJob: which row a claim takes.
use certpilot.Prelude.{
  ℕ, suc, ◌+◌, ◌≡◌, ◌⊎◌, refl, sym, ◌∙◌, ap, inl, inr, Bool, true, false, ◌&&◌, Option, none, some,
  List, [], ◌∷◌, Text, Time, Duration, arith, Bool-cases, Option-cases, some_injective, get_elem?,
  set, All,
}
use certpilot.Deploy.Job.{DeploymentJob, Target}
use certpilot.Deploy.Queue.Waits.{MayGo, free-MayGo}
use certpilot.Deploy.Queue.{
  more_urgent_deployment, better, claim_deployment_job, is_claimable, is_ready, leased, on_agent,
  pick_from,
}

-- What the walk may return for the rows from the i-th on: the best before, or one of them that passes.
abbrev Picked :
    (DeploymentJob → Bool)
    → ℕ
    → Option (ℕ × DeploymentJob)
    → List DeploymentJob
    → ℕ
    → DeploymentJob
    → Type 0
Picked test i best js k b =
    (best ≡ some (k, b)) ⊎ ((n : ℕ) × (k ≡ i + n) × (get_elem? js n ≡ some b) × (test b ≡ true))

better-some :
    (test : DeploymentJob → Bool) (i : ℕ) (j : DeploymentJob) (best : Option (ℕ × DeploymentJob))
    (k : ℕ) (b : DeploymentJob)
    → better test i j best ≡ some (k, b)
    → (best ≡ some (k, b))
      ⊎ (◌≡◌ {A = Option (ℕ × DeploymentJob)} (some (i, j)) (some (k, b)) × (test j ≡ true))
unfolding better
better-some test i j none k b h = elim (Bool-cases (test j)) [
  | inl e ↦ inr (rw (e) at h, e)
  | inr e ↦ absurd (cc (rw (e) at h))
]
better-some test i j (some (m, c)) k b h =
    elim (Bool-cases (test j && more_urgent_deployment j c)) [
      | inl e ↦ inr (rw (e) at h, ground arith)
      | inr e ↦ inl (rw (e) at h)
    ]

better-none :
    (test : DeploymentJob → Bool) (i : ℕ) (j : DeploymentJob) (best : Option (ℕ × DeploymentJob))
    → better test i j best ≡ none
    → (best ≡ none) × (test j ≡ false)
unfolding better
better-none test i j none h = elim (Bool-cases (test j)) [
  | inl e ↦ absurd (cc (rw (e) at h))
  | inr e ↦ (refl, e)
]
better-none test i j (some (m, c)) h = elim (Bool-cases (test j && more_urgent_deployment j c)) [
  | inl e ↦ absurd (cc (rw (e) at h))
  | inr e ↦ absurd (cc (rw (e) at h))
]

pick_from-Picked :
    (test : DeploymentJob → Bool) (i : ℕ) (best : Option (ℕ × DeploymentJob))
    (js : List DeploymentJob) (k : ℕ) (b : DeploymentJob)
    → pick_from test i best js ≡ some (k, b)
    → Picked test i best js k b
unfolding pick_from
pick_from-Picked test i best [] k b h = inl h
pick_from-Picked test i best (j ∷ js) k b h =
    elim (pick_from-Picked test (suc i) (better test i j best) js k b h) [
      | inl e ↦ elim (better-some test i j best k b e) [
        | inl kept ↦ inl kept
        | inr (new, passed) ↦
            let pair = some_injective new in
            inr (
              0,
              sym (ap (λ p. p.0) pair) ∙ omega arith,
              ap some (ap (λ p. p.1) pair),
              ap test (sym (ap (λ p. p.1) pair)) ∙ passed,
            )
      ]
      | inr (n, at, found, passed) ↦ inr (suc n, omega arith, found, passed)
    ]

pick_from-none :
    (test : DeploymentJob → Bool) (i : ℕ) (best : Option (ℕ × DeploymentJob))
    (js : List DeploymentJob)
    → pick_from test i best js ≡ none
    → (best ≡ none) × All (λ j. test j ≡ false) js
unfolding pick_from
pick_from-none test i best [] h = (h, tt)
pick_from-none test i best (j ∷ js) h =
    let rest = pick_from-none test (suc i) (better test i j best) js h in
    let this = better-none test i j best rest.0 in (this.0, (this.1, rest.1))

-- What a claim may do: leave the rows alone when none may be claimed, or lease one that may.
pub data Claimed (targets : Text → Option Target) (worker : Text) (lease : Duration)
    (now clock : Time) (jobs : List DeploymentJob) (r : List DeploymentJob × Option DeploymentJob)
    : Type 0 where
  nothing :
      r ≡ (jobs, none)
      → All (λ j. is_claimable targets now jobs j ≡ false) jobs
      → Claimed targets worker lease now clock jobs r
  takes :
      (i : ℕ) (job : DeploymentJob)
      → get_elem? jobs i ≡ some job
      → is_ready now job ≡ true
      → on_agent (targets job.target_id) ≡ false
      → MayGo jobs job
      → r
        ≡ (set jobs i (leased worker lease now clock job), some (leased worker lease now clock job))
      → Claimed targets worker lease now clock jobs r

-- A claim for the core takes a ready row whose target has no agent, only if every job of an earlier wave of the certificate is settled and has not failed without a newer job for its binding, and, while the row has not failed itself, no other job of the certificate is outstanding with an error; it takes none only if no row may be claimed.
pub claim_deployment_job-Claimed :
    (targets : Text → Option Target) (worker : Text) (lease : Duration) (now clock : Time)
    (jobs : List DeploymentJob)
    → Claimed targets worker lease now clock jobs
        (claim_deployment_job targets worker lease now clock jobs)
unfolding claim_deployment_job is_claimable
claim_deployment_job-Claimed targets worker lease now clock jobs =
    let test = is_claimable targets now jobs in
    elim (Option-cases (pick_from test 0 none jobs)) [
      | inl e ↦
          Claimed.nothing (rw (e, claim_deployment_job) refl) (pick_from-none test 0 none jobs e).1
      | inr ((i, job), e) ↦ elim (pick_from-Picked test 0 none jobs i job e) [
        | inl wrong ↦ absurd cc
        | inr (n, at, found, passed) ↦
            Claimed.takes i job (ap (get_elem? jobs) (at ∙ omega arith) ∙ found) (ground arith)
              (ground arith) (free-MayGo jobs job (ground arith) (ground arith))
              (rw (e, claim_deployment_job) refl)
      ]
    ]
