-- ===== src/Renewal/Worker/Retry.antt =====
-- What a worker asks of the CA, and where a failed renewal goes.
use certpilot.Prelude.{
  ◌+◌, ◌≤◌, ◌<◌, ◌≡◌, refl, sym, subst, inl, inr, ◌⊎◌, Bool, true, ◌&&◌, Option, none, some, Text,
  Time, is_none, Bool-cases, All, All-map,
}
use certpilot.Renewal.Job.{RenewalJob, pending}
use certpilot.Renewal.Certificate.{Certificate}
use certpilot.Renewal.Lead.{held_elsewhere}
use certpilot.Renewal.Store.{has_id, completed}
use certpilot.Renewal.Store.Invariant.{copies}
use certpilot.Renewal.Store.Named.{complete-Changed}
use certpilot.Renewal.Pacing.{FloatLaws, min_retry_delay, retry_at, should_escalate}
use certpilot.Renewal.Pacing.Deadline.{IsDraw, retry_at_bounds, retry_at-lt-expiry}
use certpilot.Renewal.Worker.Published.{publish_if-jobs}
use certpilot.Renewal.Worker.{
  World, Run, Renewer, attempt_of, finish, conclude, already_renewed, on_certificate, execute,
  rate_limited,
}

-- Why a job is settled without the CA.
abbrev pub NeedsNoCa : Run → RenewalJob → World → Option Certificate → Type 0
NeedsNoCa r job w none = Unit {0}
NeedsNoCa r job w (some cert) =
    (held_elsewhere cert.key_custody ≡ true)
    ⊎ (already_renewed job cert ≡ true)
    ⊎ ((limit : Time × Text) × (rate_limited r w r.started job.ca_account_id ≡ some limit))

settled_alone :
    (r : Run) (renew other : Renewer) (job : RenewalJob) (w : World) (o : Option Certificate)
    → NeedsNoCa r job w o
    → on_certificate r renew job w o ≡ on_certificate r other job w o
unfolding on_certificate
settled_alone r renew other job w none h = refl
settled_alone r renew other job w (some cert) (inl held) = rw held
settled_alone r renew other job w (some cert) (inr (inl done)) =
    elim (Bool-cases (held_elsewhere cert.key_custody)) [ inl e ↦ rw e | inr e ↦ rw (e, done) ]
settled_alone r renew other job w (some cert) (inr (inr (limit, e))) = rw e

-- A job whose certificate is gone, whose key is held elsewhere, which an earlier attempt has already
-- done, or which the quota holds back, is settled without the renewer: the result is the same with any.
pub execute-asks_no_ca :
    (r : Run) (renew other : Renewer) (job : RenewalJob) (w : World)
    → NeedsNoCa r job w (w.certificates job.certificate_id)
    → execute r renew job w ≡ execute r other job w
unfolding execute
execute-asks_no_ca r renew other job w h =
    settled_alone r renew other job w (w.certificates job.certificate_id) h

-- A row back on the queue after a failure.
pub record Retried (r : Run) (job : RenewalJob) (e : Text) (j : RenewalJob) : Type 0 where
  pub waiting : j.status ≡ pending
  pub recorded : j.last_error ≡ e
  pub not_hurried : r.started + min_retry_delay ≤ j.run_after
  pub in_time :
      (not_after : Time)
      → job.not_after ≡ some not_after
      → r.started + min_retry_delay < not_after
      → j.run_after < not_after

completed-Retried :
    (r : Run) (job : RenewalJob) (e : Text) (escalate : Bool) (x : RenewalJob)
    → FloatLaws r.floats
    → IsDraw r.bytes
    → Retried r job e (
        completed pending
          (attempt_of r job (some e))
          (retry_at r.floats r.bytes job.attempts job.not_after r.started)
          escalate
          r.clock
          x)
unfolding completed attempt_of
completed-Retried r job e escalate x laws draw = record {
  waiting = refl;
  recorded = refl;
  not_hurried = (retry_at_bounds r.floats laws r.bytes draw job.attempts job.not_after r.started).0;
  in_time = λ not_after expires room.
      rw expires
        (retry_at-lt-expiry r.floats laws r.bytes draw job.attempts not_after r.started room);
}

abbrev pub AllRetried : Run → RenewalJob → Text → World → Type 0
AllRetried r job e w = All (λ j. has_id job.id j ≡ true → Retried r job e j) w.jobs

-- Where names are distinct, a failure that the renewer reports puts the rows of the job back on the queue with the error, for a minute later at the earliest, and before the certificate expires if it has more than a minute left, given the laws of the conversions and random bytes.
pub conclude-Retried :
    (r : Run) (job : RenewalJob) (cert : Certificate) (w : World) (e : Text)
    → FloatLaws r.floats
    → IsDraw r.bytes
    → copies job.id w.jobs ≤ 1
    → AllRetried r job e (conclude r job cert w (some e))
unfolding conclude finish
conclude-Retried r job cert w e laws draw h =
    let escalate = should_escalate job.attempts job.not_after r.started in
    rw (publish_if-jobs (escalate && is_none job.escalated_at)) (
      All-map _ (λ j. has_id job.id j ≡ true → Retried r job e j) _
        (λ j changed named.
          let (x, q) = changed named in
          subst (Retried r job e) (sym q) (completed-Retried r job e escalate x laws draw))
        (complete-Changed job.id pending (attempt_of r job (some e)) _ escalate r.clock w.jobs h))
