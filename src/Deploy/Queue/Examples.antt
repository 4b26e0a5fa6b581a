-- ===== src/Deploy/Queue/Examples.antt =====
-- Two waves of one certificate.
use certpilot.Prelude.{ℕ, ◌≤◌, Option, none, some, List, [], ◌∷◌, Text, arith, pos}
use certpilot.Deploy.Job.{DeploymentJob, Target, Status, Reason, pending, succeeded}
use certpilot.Deploy.Queue.{claim_deployment_job}
use certpilot.Deploy.Queue.Claim.{Claimed, claim_deployment_job-Claimed}
use certpilot.Deploy.Queue.Outstanding.{load}

abbrev wave_job : Text → Text → ℕ → Status → DeploymentJob
wave_job id binding wave status = record {
  id = id;
  deployment_id = binding;
  certificate_id = 7;
  target_id = binding;
  reason = Reason.renewal;
  status = status;
  run_after = 10;
  attempts = 0;
  locked_by = none;
  locked_until = none;
  last_error = 0;
  attempt_log = [];
  deploy_order = pos wave;
  fingerprint = 77;
  not_after = some 9000;
  escalated_at = none;
  triggered_by = none;
  actor_email = none;
  started_at = none;
  completed_at = none;
  created_at = 5;
  updated_at = 5;
}

abbrev staging_done : List DeploymentJob
staging_done = wave_job 1 31 0 succeeded ∷ wave_job 2 32 1 pending ∷ []

abbrev no_targets : Text → Option Target
no_targets t = none

claim_deployment_job-Claimed_example :
    Claimed no_targets 9 100 20 21 staging_done
      (claim_deployment_job no_targets 9 100 20 21 staging_done)
claim_deployment_job-Claimed_example =
    claim_deployment_job-Claimed no_targets 9 100 20 21 staging_done

one_each : (binding : Text) → load binding staging_done ≤ 1
one_each binding = ground arith
