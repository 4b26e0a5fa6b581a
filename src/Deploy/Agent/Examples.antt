-- ===== src/Deploy/Agent/Examples.antt =====
-- An agent that owns every target, and two waves of one certificate.
use certpilot.Prelude.{ℕ, true, none, some, List, [], ◌∷◌, Text, pos}
use certpilot.Deploy.Job.{DeploymentJob, Status, Reason, pending, succeeded}
use certpilot.Deploy.Agent.{claim_agent_deployment_jobs}
use certpilot.Deploy.Agent.Claim.{HandedOut, claim_agent_deployment_jobs-HandedOut}

abbrev wave_job : Text → Text → ℕ → Status → DeploymentJob
wave_job id binding wave status = record {
  id = id;
  deployment_id = binding;
  certificate_id = 7;
  target_id = binding;
  reason = Reason.renewal;
  status = status;
  run_after = 10;
  attempts = 0;
  locked_by = none;
  locked_until = none;
  last_error = 0;
  attempt_log = [];
  deploy_order = pos wave;
  fingerprint = 77;
  not_after = some 9000;
  escalated_at = none;
  triggered_by = none;
  actor_email = none;
  started_at = none;
  completed_at = none;
  created_at = 5;
  updated_at = 5;
}

abbrev waves : List DeploymentJob
waves = wave_job 1 31 0 succeeded ∷ wave_job 2 32 1 pending ∷ []

claim_agent_deployment_jobs-HandedOut_example :
    HandedOut
      (λ t. true)
      9
      100
      20
      21
      0
      waves
      (claim_agent_deployment_jobs (λ t. true) 9 100 20 21 0 waves)
claim_agent_deployment_jobs-HandedOut_example =
    claim_agent_deployment_jobs-HandedOut (λ t. true) 9 100 20 21 0 waves
