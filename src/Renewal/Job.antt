-- ===== src/Renewal/Job.antt =====
-- core/store/models.go: the rows of the renewal queue.
use certpilot.Prelude.{ℕ, Bool, true, false, Option, List, Text, Time}

-- The texts of the status column; `unset` is the empty text, which an enqueue fills in.
pub data Status : Type 0 where
  unset pending running succeeded failed cancelled : Status

pub data Reason : Type 0 where
  unset scheduled manual ari retry : Reason

pub record RenewalAttempt : Type 0 where
  pub number : ℕ
  pub started_at : Time
  pub duration_ms : ℕ
  pub deferred : Bool
  pub reason : Text
  pub worker : Text
  pub error : Text

pub record RenewalJob : Type 0 where
  pub id : Text
  pub certificate_id : Text
  pub reason : Reason
  pub status : Status
  pub run_after : Time
  pub attempts : ℕ
  pub locked_by : Option Text
  pub locked_until : Option Time
  pub last_error : Text
  pub attempt_log : List RenewalAttempt
  pub not_after : Option Time
  pub ca_account_id : Option Text
  pub fingerprint_at_enqueue : Text
  pub escalated_at : Option Time
  pub triggered_by : Option Text
  pub actor_email : Option Text
  pub started_at : Option Time
  pub completed_at : Option Time
  pub created_at : Time
  pub updated_at : Time

abbrev pub is_pending : Status → Bool
is_pending pending = true
is_pending _ = false

abbrev pub is_running : Status → Bool
is_running running = true
is_running _ = false

abbrev pub is_succeeded : Status → Bool
is_succeeded succeeded = true
is_succeeded _ = false

abbrev pub is_outstanding : Status → Bool
is_outstanding pending = true
is_outstanding running = true
is_outstanding _ = false

-- `Outstanding` of a job that is there.
abbrev pub outstanding : RenewalJob → Bool
outstanding j = is_outstanding j.status
