-- ===== src/Renewal/Scheduler.antt =====
-- core/engine/renewal/scheduler.go: the sweep that queues a renewal for every certificate that is due.
-- What the sweep reads from outside for its n-th certificate (the scheduler's clock, that of the store, and the identifier
-- that uuid.New would make) are functions of n.
pub mod Sweep
mod Examples
use certpilot.Prelude.{
  ℕ, suc, Bool, true, false, Option, none, List, [], ◌∷◌, Text, Time, empty_text, if◌then◌else◌,
  Result, ok, err,
}
use certpilot.Renewal.Job.{Reason, RenewalJob, pending}
use certpilot.Renewal.Certificate.{Certificate}
use certpilot.Renewal.Store.{StoreError, enqueue_renewal}
use certpilot.Renewal.Lead.{certificates_due}

pub record Readings : Type 0 where
  pub now : ℕ → Time
  pub clock : ℕ → Time
  pub fresh : ℕ → Text

-- The job that Enqueue hands to the store; what it does not set is the zero value.
pub job_for : Certificate → Reason → Option Text → Option Text → Time → RenewalJob
job_for cert reason actor_id actor_email now = record {
  id = empty_text;
  certificate_id = cert.id;
  reason = reason;
  status = pending;
  run_after = now;
  attempts = 0;
  locked_by = none;
  locked_until = none;
  last_error = empty_text;
  attempt_log = [];
  not_after = cert.not_after;
  ca_account_id = cert.ca_account_id;
  fingerprint_at_enqueue = cert.fingerprint_sha256;
  escalated_at = none;
  triggered_by = actor_id;
  actor_email = actor_email;
  started_at = none;
  completed_at = none;
  created_at = 0;
  updated_at = 0;
}

-- Enqueue: what the store answers, without the row.
pub enqueue :
    Readings
    → ℕ
    → Certificate
    → Reason
    → Option Text
    → Option Text
    → List RenewalJob
    → Result StoreError (List RenewalJob × Bool)
unfolding job_for
enqueue r n cert reason actor_id actor_email jobs =
    elim (enqueue_renewal (r.fresh n) (r.clock n)
      (job_for cert reason actor_id actor_email (r.now n)) jobs) [
        | err e ↦ err e
        | ok (jobs', created, row) ↦ ok (jobs', created)
      ]

-- One turn of the loop: a refusal is logged, and the sweep goes on.
pub queued : List RenewalJob → ℕ → Result StoreError (List RenewalJob × Bool) → List RenewalJob × ℕ
queued jobs enqueued (err e) = (jobs, enqueued)
queued jobs enqueued (ok (jobs', created)) = (jobs', if created then suc enqueued else enqueued)

-- The loop, from the n-th certificate on: the queue and how many rows it has created.
pub scan_from : Readings → ℕ → List Certificate → List RenewalJob → ℕ → List RenewalJob × ℕ
unfolding enqueue queued
scan_from r n [] jobs enqueued = (jobs, enqueued)
scan_from r n (cert ∷ certs) jobs enqueued =
    let after_it = queued jobs enqueued (enqueue r n cert Reason.scheduled none none jobs) in
    scan_from r (suc n) certs after_it.0 after_it.1

-- RunScan: the certificates of the store, those due at `at`, and the queue after the sweep.
pub run_scan : Readings → Time → ℕ → List Certificate → List RenewalJob → List RenewalJob × ℕ
unfolding scan_from
run_scan r at lead_days certificates jobs =
    scan_from r 0 (certificates_due at lead_days certificates) jobs 0
