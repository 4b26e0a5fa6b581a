-- ===== src/Renewal/Store/Examples.antt =====
-- The theorems on the renewal queue at small queues.
use certpilot.Prelude.{
  ℕ, ◌≡◌, ◌≢◌, refl, true, false, none, some, List, [], ◌∷◌, Text, Time, arith, ok,
}
use certpilot.Renewal.Job.{Reason, RenewalJob, pending, running}
use certpilot.Renewal.Store.{enqueue_renewal, claim_renewal_job}
use certpilot.Renewal.Store.Claim.{Claimed, claim_renewal_job-Claimed}
use certpilot.Renewal.Store.Invariant.{Inv}
use certpilot.Renewal.Store.Steps.{Reach, here, next, enqueues, claims, Reach-Inv}
use certpilot.Renewal.Store.Lease.{Held, Step-Held, claim_while-Held, claim_renewal_job-Held}

abbrev scheduled : Text → Time → RenewalJob
scheduled cert deadline = record {
  id = 0;
  certificate_id = cert;
  reason = Reason.scheduled;
  status = pending;
  run_after = 10;
  attempts = 0;
  locked_by = none;
  locked_until = none;
  last_error = 0;
  attempt_log = [];
  not_after = some deadline;
  ca_account_id = none;
  fingerprint_at_enqueue = 77;
  escalated_at = none;
  triggered_by = none;
  actor_email = none;
  started_at = none;
  completed_at = none;
  created_at = 0;
  updated_at = 0;
}

abbrev row_of : Text → Text → Time → RenewalJob
row_of id cert deadline = record (scheduled cert deadline) {
  id = id;
  created_at = 5;
  updated_at = 5;
}

abbrev two_rows : List RenewalJob
two_rows = row_of 1 21 900 ∷ row_of 2 22 800 ∷ []

two_rows_enqueued :
    enqueue_renewal 2 5 (scheduled 22 800) (row_of 1 21 900 ∷ [])
    ≡ ok (two_rows, true, row_of 2 22 800)
unfolding enqueue_renewal
two_rows_enqueued = refl

refused_twice :
    enqueue_renewal 3 6 (scheduled 22 700) two_rows ≡ ok (two_rows, false, row_of 2 22 800)
unfolding enqueue_renewal
refused_twice = refl

abbrev running_row : Text → Text → Time → Text → Time → Time → RenewalJob
running_row id cert deadline worker now until = record (row_of id cert deadline) {
  status = running;
  attempts = 1;
  locked_by = some worker;
  locked_until = some until;
  started_at = some now;
  updated_at = 30;
}

abbrev after_claim : List RenewalJob
after_claim = row_of 1 21 900 ∷ running_row 2 22 800 9 20 120 ∷ []

-- The job that expires first is taken, though it was enqueued last.
claimed_second :
    claim_renewal_job 9 100 20 30 two_rows ≡ (after_claim, some (running_row 2 22 800 9 20 120))
unfolding claim_renewal_job
claimed_second = refl

-- Another worker, while the lease stands, is given the other job.
claimed_first : claim_renewal_job 8 100 50 30 after_claim ≡ (
  running_row 1 21 900 8 50 150 ∷ running_row 2 22 800 9 20 120 ∷ [],
  some (running_row 1 21 900 8 50 150),
)
unfolding claim_renewal_job
claimed_first = refl

two_rows_reached : Reach [] two_rows
unfolding enqueue_renewal
two_rows_reached =
    next
      (next here (
        enqueues 1 5 (scheduled 21 900)
          (record {
            idle = refl;
            unheld = refl;
            untimed = refl;
            log_bounded = omega arith;
            unused = refl;
          })
          refl))
      (enqueues 2 5 (scheduled 22 800)
        (record {
          idle = refl;
          unheld = refl;
          untimed = refl;
          log_bounded = omega arith;
          unused = refl;
        })
        refl)

Reach-Inv_example : Inv two_rows
Reach-Inv_example = Reach-Inv two_rows_reached

claim_renewal_job-Claimed_example :
    Claimed 9 100 20 30 two_rows (claim_renewal_job 9 100 20 30 two_rows)
claim_renewal_job-Claimed_example = claim_renewal_job-Claimed 9 100 20 30 two_rows

after_claim-Inv : Inv after_claim
unfolding claim_renewal_job
after_claim-Inv = Reach-Inv (next two_rows_reached (claims 9 100 20 30))

after_claim-Held : Held 2 9 120 after_claim
after_claim-Held = claim_renewal_job-Held 9 100 20 30 two_rows after_claim _ claimed_second

claim_while-Held_example : ◌≢◌ {A = ℕ} 1 2
claim_while-Held_example =
    claim_while-Held 2 9 120 8 100 50 30 after_claim _ _ after_claim-Inv after_claim-Held
      (omega arith) claimed_first

Step-Held_example : Held 2 9 120 (claim_renewal_job 8 100 50 60 after_claim).0
Step-Held_example =
    Step-Held 2 9 120 (claims 8 100 50 60) (omega arith) after_claim-Inv after_claim-Held
