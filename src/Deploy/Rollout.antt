-- ===== src/Deploy/Rollout.antt =====
-- core/engine/deploy/rollout.go: a certificate is queued for deployment to every place it is bound to. The
-- bindings are those that the store lists for the certificate; `order_of` is the wave that the store has for
-- a target, none where it cannot be read; `fresh` and `clock` are what the store reads for the n-th binding.
pub mod Queued
mod Examples
use certpilot.Prelude.{
  ℕ, suc, ◌+◌, Bool, true, false, not, ◌&&◌, Option, none, some, List, [], ◌∷◌, ◌++◌, Text, Time,
  Duration, minute, ◌*◌, before, empty_text, ◌==◌, if◌then◌else◌, ℤ, pos, Result, ok, err, ◌||◌,
}
use certpilot.Renewal.Certificate.{Certificate}
use certpilot.Deploy.Job.{DeploymentJob, Reason, pending}
use certpilot.Deploy.Queue.{DeployError, enqueue_deployment}

-- A binding of a certificate to a target.
pub record CertificateDeployment : Type 0 where
  pub id : Text
  pub certificate_id : Text
  pub target_id : Text
  pub is_enabled : Bool
  pub deploy_on_renewal : Bool
  pub deployed_fingerprint : Text

pub record Rollout : Type 0 where
  pub queued : ℕ
  pub already : ℕ
  pub skipped : ℕ
  pub opted_out : ℕ
  pub jobs : List DeploymentJob

pub total_of : Rollout → ℕ
total_of r = r.queued + r.already + r.skipped + r.opted_out

-- What the call is made with, and what it reads from outside.
pub record Trigger : Type 0 where
  pub cert : Certificate
  pub reason : Reason
  pub actor : Option Text
  pub actor_email : Option Text
  pub now : Time
  pub order_of : Text → Option ℤ
  pub fresh : ℕ → Text
  pub clock : ℕ → Time

-- The queue, the counts, and the error that ended the loop.
pub record Progress : Type 0 where
  pub queue : List DeploymentJob
  pub rollout : Rollout
  pub failure : Option DeployError

abbrev pub empty_rollout : Rollout
empty_rollout = record { queued = 0; already = 0; skipped = 0; opted_out = 0; jobs = [] }

is_automatic : Reason → Bool
is_automatic Reason.renewal = true
is_automatic _ = false

-- A target that cannot be read goes with the first wave.
wave_of : Option ℤ → ℤ
wave_of none = pos 0
wave_of (some order) = order

pub job_for : Trigger → CertificateDeployment → DeploymentJob
unfolding wave_of
job_for t binding = record {
  id = empty_text;
  deployment_id = binding.id;
  certificate_id = t.cert.id;
  target_id = binding.target_id;
  reason = t.reason;
  status = pending;
  run_after = t.now;
  attempts = 0;
  locked_by = none;
  locked_until = none;
  last_error = empty_text;
  attempt_log = [];
  deploy_order = wave_of (t.order_of binding.target_id);
  fingerprint = t.cert.fingerprint_sha256;
  not_after = t.cert.not_after;
  escalated_at = none;
  triggered_by = t.actor;
  actor_email = t.actor_email;
  started_at = none;
  completed_at = none;
  created_at = 0;
  updated_at = 0;
}

-- What the loop does with the answer of the store.
pub counted :
    List DeploymentJob
    → Rollout
    → Result DeployError (List DeploymentJob × Bool × DeploymentJob)
    → Progress
counted queue out (err e) = record { queue = queue; rollout = out; failure = some e }
counted queue out (ok (after_it, created, row)) = record {
  queue = after_it;
  rollout = record out {
    queued = if created then suc out.queued else out.queued;
    already = if created then out.already else suc out.already;
    jobs = out.jobs ++ row ∷ [];
  };
  failure = none;
}

-- Whether the trigger deploys to the place.
pub is_chosen : Trigger → CertificateDeployment → Bool
unfolding is_automatic
is_chosen t binding =
    binding.is_enabled && not (is_automatic t.reason && not binding.deploy_on_renewal)

-- One turn of the loop.
pub place : Trigger → ℕ → CertificateDeployment → List DeploymentJob → Rollout → Progress
unfolding is_automatic counted job_for
place t n binding queue out =
    if not binding.is_enabled
    then record {
      queue = queue;
      rollout = record out { skipped = suc out.skipped };
      failure = none;
    }
    else if is_automatic t.reason && not binding.deploy_on_renewal
    then record {
      queue = queue;
      rollout = record out { opted_out = suc out.opted_out };
      failure = none;
    }
    else counted queue out (enqueue_deployment (t.fresh n) (t.clock n) (job_for t binding) queue)

pub place_from : Trigger → ℕ → List CertificateDeployment → List DeploymentJob → Rollout → Progress
unfolding place
place_from t n [] queue out = record { queue = queue; rollout = out; failure = none }
place_from t n (binding ∷ bindings) queue out =
    let turn = place t n binding queue out in
    elim turn.failure [
      | some e ↦ turn
      | none ↦ place_from t (suc n) bindings turn.queue turn.rollout
    ]

pub enqueue_for : Trigger → List CertificateDeployment → List DeploymentJob → Progress
unfolding place_from
enqueue_for t bindings queue = place_from t 0 bindings queue empty_rollout

-- Settled: whether every place that is switched on holds the certificate, and the time that its
-- verification moves to, if it moves.
abbrev pub deployed_verify_grace : Duration
deployed_verify_grace = 3 * minute

pub all_hold : Text → List CertificateDeployment → Bool
all_hold fingerprint [] = true
all_hold fingerprint (b ∷ bs) =
    (not b.is_enabled || b.deployed_fingerprint == fingerprint) && all_hold fingerprint bs

pub sooner_check : Time → Option Time → Option Time
sooner_check verify_at none = some verify_at
sooner_check verify_at (some verify_after) =
    if before verify_after verify_at then none else some verify_at

pub settled : Time → Text → Option Time → List CertificateDeployment → Bool × Option Time
unfolding all_hold sooner_check
settled now fingerprint verify_after [] = (false, none)
settled now fingerprint verify_after (b ∷ bs) =
    if all_hold fingerprint (b ∷ bs)
    then (true, sooner_check (now + deployed_verify_grace) verify_after)
    else (false, none)
