-- ===== src/Deploy/Queue.antt =====
-- core/store/inmemory.go: the operations on the deployment queue. The readings of the wall clock within
-- one call are one argument, `clock`, and the identifier that uuid.New would make is `fresh`. The map
-- of targets is a function.
pub mod Waits
pub mod Claim
pub mod Outstanding
mod Examples
use certpilot.Prelude.{
  ℕ, suc, ◌+◌, ◌-◌, Bool, true, false, ◌&&◌, ◌||◌, not, Option, none, some, List, [], ◌∷◌, ◌++◌,
  Text, Time, Duration, empty_text, is_text, is_none, is_zero_time, before, after, ltb, ◌==◌, ltb_ℤ,
  if◌then◌else◌, Result, ok, err, length, drop, set, update_first,
}
use certpilot.Deploy.Job.{
  Status, Reason, DeploymentAttempt, DeploymentJob, Target, pending, running, cancelled, is_pending,
  is_running, is_failed, outstanding,
}

pub data DeployError : Type 0 where
  needs_deployment : DeployError
  not_found : Text → DeployError
  not_held : Text → Text → DeployError
  not_outstanding : Text → DeployError

abbrev max_attempt_log : ℕ
max_attempt_log = 50

pub or_pending : Status → Status
or_pending Status.unset = pending
or_pending s = s

or_manual : Reason → Reason
or_manual Reason.unset = Reason.manual
or_manual r = r

-- The loop that looks for the binding's outstanding job.
pub find_binding : Text → List DeploymentJob → Option DeploymentJob
find_binding binding [] = none
find_binding binding (j ∷ js) =
    if j.deployment_id == binding && outstanding j then some j else find_binding binding js

pub stored_deployment : Text → Time → DeploymentJob → DeploymentJob
unfolding or_pending or_manual
stored_deployment fresh clock job = record job {
  id = if job.id == empty_text then fresh else job.id;
  status = or_pending job.status;
  reason = or_manual job.reason;
  run_after = if is_zero_time job.run_after then clock else job.run_after;
  created_at = clock;
  updated_at = clock;
}

-- The new queue, whether a row was created, and what `*job` holds on return.
unfoldable pub enqueue_deployment :
    Text
    → Time
    → DeploymentJob
    → List DeploymentJob
    → Result DeployError (List DeploymentJob × Bool × DeploymentJob)
unfolding find_binding stored_deployment
enqueue_deployment fresh clock job jobs =
    if job.deployment_id == empty_text
    then err needs_deployment
    else elim (find_binding job.deployment_id jobs) [
      | some existing ↦ ok (jobs, false, existing)
      | none ↦
          let stored = stored_deployment fresh clock job in ok (jobs ++ stored ∷ [], true, stored)
    ]

pub any_job : (DeploymentJob → Bool) → List DeploymentJob → Bool
any_job test [] = false
any_job test (j ∷ js) = test j || any_job test js

-- Another job for the same certificate has failed and is not settled.
pub is_failing_sibling : DeploymentJob → DeploymentJob → Bool
is_failing_sibling job other =
    not (other.id == job.id || not (other.certificate_id == job.certificate_id))
    && outstanding other
    && not (other.last_error == empty_text)

pub held_back_by_a_failure : List DeploymentJob → DeploymentJob → Bool
unfolding is_failing_sibling any_job
held_back_by_a_failure jobs job =
    job.last_error == empty_text && any_job (is_failing_sibling job) jobs

pub is_newer_for_binding : DeploymentJob → DeploymentJob → Bool
is_newer_for_binding job other =
    other.deployment_id == job.deployment_id && after other.created_at job.created_at

pub is_latest_job_for_binding : List DeploymentJob → DeploymentJob → Bool
unfolding is_newer_for_binding any_job
is_latest_job_for_binding jobs job = not (any_job (is_newer_for_binding job) jobs)

-- One turn of the loop over the others.
pub blocks_wave : List DeploymentJob → DeploymentJob → DeploymentJob → Bool
blocks_wave jobs job other =
    not (
      not (other.certificate_id == job.certificate_id)
      || not (ltb_ℤ other.deploy_order job.deploy_order))
    && (outstanding other || is_failed other.status && is_latest_job_for_binding jobs other)

pub held_back_by_an_earlier_wave : List DeploymentJob → DeploymentJob → Bool
unfolding blocks_wave any_job
held_back_by_an_earlier_wave jobs job = any_job (blocks_wave jobs job) jobs

lapsed : Option Time → Time → Bool
lapsed none now = false
lapsed (some until) now = before until now

pub is_ready : Time → DeploymentJob → Bool
unfolding lapsed
is_ready now job =
    is_pending job.status && not (after job.run_after now)
    || is_running job.status && lapsed job.locked_until now

pub on_agent : Option Target → Bool
on_agent none = false
on_agent (some t) = not (is_none t.agent_id)

-- Whether a claim of the core at `now` may take the job.
pub is_claimable : (Text → Option Target) → Time → List DeploymentJob → DeploymentJob → Bool
is_claimable targets now jobs job =
    is_ready now job
    && not (on_agent (targets job.target_id))
    && not (held_back_by_a_failure jobs job || held_back_by_an_earlier_wave jobs job)

urgent_by : Option Time → Option Time → Time → Time → Bool
urgent_by none none ra rb = before ra rb
urgent_by none (some db) ra rb = false
urgent_by (some da) none ra rb = true
urgent_by (some da) (some db) ra rb = if da == db then before ra rb else before da db

-- Orders that differ decide.
pub more_urgent_deployment : DeploymentJob → DeploymentJob → Bool
unfolding urgent_by
more_urgent_deployment a b =
    if ltb_ℤ a.deploy_order b.deploy_order
    then true
    else if ltb_ℤ b.deploy_order a.deploy_order
    then false
    else urgent_by a.not_after b.not_after a.run_after b.run_after

-- The best row so far, with its place in the slice.
pub better :
    (DeploymentJob → Bool)
    → ℕ
    → DeploymentJob
    → Option (ℕ × DeploymentJob)
    → Option (ℕ × DeploymentJob)
unfolding more_urgent_deployment
better test i j none = if test j then some (i, j) else none
better test i j (some (k, b)) =
    if test j && more_urgent_deployment j b then some (i, j) else some (k, b)

pub pick_from :
    (DeploymentJob → Bool)
    → ℕ
    → Option (ℕ × DeploymentJob)
    → List DeploymentJob
    → Option (ℕ × DeploymentJob)
unfolding better
pick_from test i best [] = best
pick_from test i best (j ∷ js) = pick_from test (suc i) (better test i j best) js

or_started : Option Time → Time → Option Time
or_started none now = some now
or_started (some t) now = some t

pub leased : Text → Duration → Time → Time → DeploymentJob → DeploymentJob
unfolding or_started
leased worker lease now clock j = record j {
  status = running;
  locked_by = some worker;
  locked_until = some (now + lease);
  attempts = suc j.attempts;
  started_at = or_started j.started_at now;
  updated_at = clock;
}

pub claim_deployment_job :
    (Text → Option Target)
    → Text
    → Duration
    → Time
    → Time
    → List DeploymentJob
    → List DeploymentJob × Option DeploymentJob
unfolding pick_from is_claimable leased
claim_deployment_job targets worker lease now clock jobs =
    elim (pick_from (is_claimable targets now jobs) 0 none jobs) [
      | none ↦ (jobs, none)
      | some (i, j) ↦ let best = leased worker lease now clock j in (set jobs i best, some best)
    ]

extend_one : Text → Text → Time → Time → DeploymentJob → Result DeployError DeploymentJob
extend_one id worker until clock j =
    if not (is_running j.status) || not (is_text j.locked_by worker)
    then err (not_held id worker)
    else ok (record j { locked_until = some until; updated_at = clock })

abbrev has_id : Text → DeploymentJob → Bool
has_id id j = j.id == id

pub extend_deployment_lease :
    Text → Text → Time → Time → List DeploymentJob → Result DeployError (List DeploymentJob)
unfolding extend_one
extend_deployment_lease id worker until clock =
    update_first (has_id id) (extend_one id worker until clock) (not_found id)

logged : List DeploymentAttempt → DeploymentAttempt → List DeploymentAttempt
logged log attempt =
    let grown = log ++ attempt ∷ [] in
    if ltb max_attempt_log (length grown)
    then drop (length grown - max_attempt_log) grown
    else grown

or_escalated : Bool → Option Time → Time → Option Time
or_escalated escalate at clock = if escalate && is_none at then some clock else at

pub completed : Status → DeploymentAttempt → Time → Bool → Time → DeploymentJob → DeploymentJob
unfolding logged or_escalated
completed status attempt run_after escalate clock j = record j {
  status = status;
  last_error = attempt.error;
  locked_by = none;
  locked_until = none;
  attempt_log = logged j.attempt_log attempt;
  run_after = if is_pending status then run_after else j.run_after;
  completed_at = if is_pending status then j.completed_at else some clock;
  escalated_at = or_escalated escalate j.escalated_at clock;
  updated_at = clock;
}

pub complete_deployment_job :
    Text
    → Status
    → DeploymentAttempt
    → Time
    → Bool
    → Time
    → List DeploymentJob
    → Result DeployError (List DeploymentJob)
unfolding completed
complete_deployment_job id status attempt run_after escalate clock =
    update_first (has_id id) (λ j. ok (completed status attempt run_after escalate clock j))
      (not_found id)

cancel_one : Text → Time → DeploymentJob → Result DeployError DeploymentJob
cancel_one id clock j =
    if not (outstanding j)
    then err (not_outstanding id)
    else ok (record j {
      status = cancelled;
      locked_by = none;
      locked_until = none;
      completed_at = some clock;
      updated_at = clock;
    })

pub cancel_deployment_job :
    Text → Time → List DeploymentJob → Result DeployError (List DeploymentJob)
unfolding cancel_one
cancel_deployment_job id clock = update_first (has_id id) (cancel_one id clock) (not_outstanding id)
