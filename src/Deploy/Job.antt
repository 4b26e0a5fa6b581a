-- ===== src/Deploy/Job.antt =====
-- core/store/models.go: the rows of the deployment queue.
use certpilot.Prelude.{ℕ, Bool, true, false, Option, List, Text, Time, ℤ}

-- The texts of the status column; `unset` is the empty text, which an enqueue fills in.
pub data Status : Type 0 where
  unset pending running succeeded failed cancelled : Status

pub data Reason : Type 0 where
  unset renewal manual retry drift : Reason

pub record DeploymentAttempt : Type 0 where
  pub number : ℕ
  pub started_at : Time
  pub duration_ms : ℕ
  pub worker : Text
  pub detail : Text
  pub error : Text

pub record DeploymentJob : Type 0 where
  pub id : Text
  pub deployment_id : Text
  pub certificate_id : Text
  pub target_id : Text
  pub reason : Reason
  pub status : Status
  pub run_after : Time
  pub attempts : ℕ
  pub locked_by : Option Text
  pub locked_until : Option Time
  pub last_error : Text
  pub attempt_log : List DeploymentAttempt
  pub deploy_order : ℤ
  pub fingerprint : Text
  pub not_after : Option Time
  pub escalated_at : Option Time
  pub triggered_by : Option Text
  pub actor_email : Option Text
  pub started_at : Option Time
  pub completed_at : Option Time
  pub created_at : Time
  pub updated_at : Time

-- What a claim reads of a target.
pub record Target : Type 0 where
  pub agent_id : Option Text

abbrev pub is_pending : Status → Bool
is_pending pending = true
is_pending _ = false

abbrev pub is_running : Status → Bool
is_running running = true
is_running _ = false

abbrev pub is_failed : Status → Bool
is_failed failed = true
is_failed _ = false

abbrev pub is_outstanding : Status → Bool
is_outstanding pending = true
is_outstanding running = true
is_outstanding _ = false

-- `Outstanding` of a job that is there.
abbrev pub outstanding : DeploymentJob → Bool
outstanding j = is_outstanding j.status
