-- ===== src/Deploy/Agent/Claim.antt =====
-- core/store/inmemory.go, ClaimAgentDeploymentJobs: which rows an agent is given, and the queue afterwards.
use mathlib.Core.List.{Perm, append-nil}
use certpilot.Prelude.{
  Chosen, none_left, takes, leaves, ℕ, min, ◌≤◌, ◌≡◌, refl, ◌∙◌, ap, Bool, Bool-cases, inl, inr,
  true, some, List, [], ◌∷◌, Text, Time, Duration, arith, length, take, get_elem?, All-map,
}
use certpilot.Deploy.Job.{DeploymentJob}
use certpilot.Deploy.Queue.{is_ready, leased}
use certpilot.Deploy.Queue.Waits.{
  MayGo, free-MayGo, MayGo-held_back_by_a_failure, MayGo-held_back_by_an_earlier_wave,
}
use certpilot.Deploy.Agent.{agent_limit, is_agents, claimable_from, claim_agent_deployment_jobs}
use certpilot.Deploy.Agent.Claimable.{
  IsPlaced, passing, claimable_from-IsPlaced, claimable_from-AreApart, length-claimable_from,
  All-take, take-AreApart, length-map-take,
}
use certpilot.Deploy.Agent.Leases.{Updated, Updated-refl, IsWaiting, lease_all-Updated}

-- A row that the agent may be given.
abbrev pub MayBeGiven : (Text → Bool) → Time → List DeploymentJob → DeploymentJob → Type 0
MayBeGiven mine now jobs job =
    (is_ready now job ≡ true) × (mine job.target_id ≡ true) × MayGo jobs job

-- What the claim did: the leased rows of the queue are the jobs that are handed out.
pub record HandedOut (mine : Text → Bool) (worker : Text) (lease : Duration) (now clock : Time)
    (limit : ℕ) (jobs : List DeploymentJob) (r : List DeploymentJob × List DeploymentJob)
    : Type 0 where
  pub rows : List DeploymentJob
  pub queue : Updated (MayBeGiven mine now jobs) (leased worker lease now clock) jobs r.0 rows
  pub handed : Perm rows r.1
  pub most : length r.1 ≤ 50
  pub candidates : List DeploymentJob
  pub eligible : Chosen (MayBeGiven mine now jobs) jobs candidates
  pub many : length r.1 ≡ min (agent_limit limit) (length candidates)

is_agents-MayBeGiven :
    (mine : Text → Bool) (now : Time) (jobs : List DeploymentJob) (job : DeploymentJob)
    → is_agents mine now jobs job ≡ true
    → MayBeGiven mine now jobs job
unfolding is_agents
is_agents-MayBeGiven mine now jobs job h =
    (ground arith, ground arith, free-MayGo jobs job (ground arith) (ground arith))

MayBeGiven-is_agents :
    (mine : Text → Bool) (now : Time) (jobs : List DeploymentJob) (job : DeploymentJob)
    → MayBeGiven mine now jobs job
    → is_agents mine now jobs job ≡ true
unfolding is_agents
MayBeGiven-is_agents mine now jobs job (ready, own, may) =
    let canary = MayGo-held_back_by_a_failure jobs job may in
    let waves = MayGo-held_back_by_an_earlier_wave jobs job may in simp (ready, own, canary, waves)

passing-Chosen :
    (mine : Text → Bool) (now : Time) (jobs js : List DeploymentJob)
    → (cs : List DeploymentJob) × Chosen (MayBeGiven mine now jobs) js cs
      × (passing (is_agents mine now jobs) js ≡ length cs)
passing-Chosen mine now jobs [] = ([], none_left, refl)
passing-Chosen mine now jobs (j ∷ js) =
    let (cs, picks, same) = passing-Chosen mine now jobs js in
    elim (Bool-cases (is_agents mine now jobs j)) [
      | inl e ↦ (
        j ∷ cs,
        takes j (is_agents-MayBeGiven mine now jobs j e) picks,
        rw e (omega (arith, same)),
      )
      | inr e ↦ (
        cs,
        leaves j (λ may. let passes = MayBeGiven-is_agents mine now jobs j may in cc) picks,
        rw e (omega (arith, same)),
      )
    ]

agent_limit_bounded : (limit : ℕ) → agent_limit limit ≤ 50
unfolding agent_limit
agent_limit_bounded limit = ground arith

-- A claim of an agent leases rows of the queue, leaves every other row of it alone, and hands out exactly the leased rows, at most 50: each was a ready row on one of the agent's targets that need not wait, which is that every earlier wave of its certificate is settled and has not failed without a newer job for its binding, and, while the row has not failed itself, no other job of the certificate is outstanding with an error. It hands out as many of these rows as there are, or as its limit allows if there are more.
pub claim_agent_deployment_jobs-HandedOut :
    (mine : Text → Bool) (worker : Text) (lease : Duration) (now clock : Time) (limit : ℕ)
    (jobs : List DeploymentJob)
    → HandedOut mine worker lease now clock limit jobs
        (claim_agent_deployment_jobs mine worker lease now clock limit jobs)
unfolding claim_agent_deployment_jobs
claim_agent_deployment_jobs-HandedOut mine worker lease now clock limit jobs =
    let test = is_agents mine now jobs in
    let all = claimable_from test 0 jobs in
    let P = MayBeGiven mine now jobs in
    let chosen = take (agent_limit limit) all in
    let waiting = All-take (IsWaiting P worker lease now clock jobs jobs) (agent_limit limit) all (
      All-map (IsPlaced test 0 jobs) (IsWaiting P worker lease now clock jobs jobs) all
        (λ c (n, at, found, passed).
          let here : get_elem? jobs c.0 ≡ some c.1 =
            ap (get_elem? jobs) (at ∙ omega arith) ∙ found in
          (here, here, is_agents-MayBeGiven mine now jobs c.1 passed))
        (claimable_from-IsPlaced test 0 jobs)) in
    let (given, queue, perm) =
      lease_all-Updated P worker lease now clock jobs jobs [] chosen
        (Updated-refl P (leased worker lease now clock) jobs) waiting
        (take-AreApart (agent_limit limit) all (claimable_from-AreApart test 0 jobs)) in
    let eligible = passing-Chosen mine now jobs jobs in
    let many = length-map-take (λ c. leased worker lease now clock c.1) (agent_limit limit) all in
    record {
      rows = given;
      queue = queue;
      handed = rw append-nil at perm;
      most = omega (arith, many, agent_limit_bounded limit);
      candidates = eligible.0;
      eligible = eligible.1;
      many = many ∙ ap (min (agent_limit limit)) (length-claimable_from test 0 jobs ∙ eligible.2);
    }
