-- ===== src/Deploy/Agent.antt =====
-- core/store/inmemory.go, ClaimAgentDeploymentJobs: what an agent is given to deploy on its own host. The
-- agent's targets are a test on target identifiers.
mod Leases
mod Claimable
mod Claim
mod Examples
use certpilot.Prelude.{
  ℕ, suc, Bool, ◌&&◌, ◌||◌, not, List, [], ◌∷◌, map, Text, Time, Duration, leb, ltb, if◌then◌else◌,
  set, take,
}
use certpilot.Deploy.Job.{DeploymentJob}
use certpilot.Deploy.Queue.{
  is_ready, held_back_by_a_failure, held_back_by_an_earlier_wave, more_urgent_deployment, leased,
}

pub agent_limit : ℕ → ℕ
agent_limit limit = if leb limit 0 || ltb 50 limit then 10 else limit

pub is_agents : (Text → Bool) → Time → List DeploymentJob → DeploymentJob → Bool
is_agents mine now jobs job =
    is_ready now job
    && mine job.target_id
    && not (held_back_by_a_failure jobs job)
    && not (held_back_by_an_earlier_wave jobs job)

-- A row goes before the first one that is not more urgent.
pub insert_by_urgency : ℕ → DeploymentJob → List (ℕ × DeploymentJob) → List (ℕ × DeploymentJob)
insert_by_urgency i j [] = (i, j) ∷ []
insert_by_urgency i j ((k, b) ∷ rest) =
    if more_urgent_deployment b j
    then (k, b) ∷ insert_by_urgency i j rest
    else (i, j) ∷ (k, b) ∷ rest

-- The rows that pass, with their places, most urgent first.
pub claimable_from : (DeploymentJob → Bool) → ℕ → List DeploymentJob → List (ℕ × DeploymentJob)
unfolding insert_by_urgency
claimable_from test i [] = []
claimable_from test i (j ∷ js) =
    let rest = claimable_from test (suc i) js in if test j then insert_by_urgency i j rest else rest

-- The loop that leases them, one place after the other.
pub lease_all :
    Text
    → Duration
    → Time
    → Time
    → List (ℕ × DeploymentJob)
    → List DeploymentJob
    → List DeploymentJob
lease_all worker lease now clock [] jobs = jobs
lease_all worker lease now clock ((i, j) ∷ rest) jobs =
    lease_all worker lease now clock rest (set jobs i (leased worker lease now clock j))

pub claim_agent_deployment_jobs :
    (Text → Bool)
    → Text
    → Duration
    → Time
    → Time
    → ℕ
    → List DeploymentJob
    → List DeploymentJob × List DeploymentJob
unfolding agent_limit is_agents claimable_from lease_all
claim_agent_deployment_jobs mine worker lease now clock limit jobs =
    let chosen = take (agent_limit limit) (claimable_from (is_agents mine now jobs) 0 jobs) in
    (
      lease_all worker lease now clock chosen jobs,
      map (λ c. leased worker lease now clock c.1) chosen,
    )
