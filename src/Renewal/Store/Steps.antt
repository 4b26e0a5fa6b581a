-- ===== src/Renewal/Store/Steps.antt =====
-- The calls of the store on the renewal queue as steps, and what every history of them keeps.
use certpilot.Prelude.{
  ◌≤◌, ◌≡◌, subst, Bool, true, false, Option, none, List, [], ◌∷◌, ◌++◌, Text, Time, Duration,
  empty_text, arith, ◌==◌, if◌then◌else◌, length, All, All-append, total-append, total-single,
  Replaced, Replaced-old, Replaced-set, Result, ok, ok_injective, update_first,
  update_first-Updated,
}
use certpilot.Renewal.Job.{
  Status, RenewalAttempt, RenewalJob, is_outstanding, is_running, outstanding,
}
use certpilot.Renewal.Store.{
  StoreError, max_attempt_log, stored_job, enqueue_renewal, leased, claim_renewal_job,
  extend_renewal_lease, complete_renewal_job, cancel_renewal_job, defer_renewal_job, has_id,
}
use certpilot.Renewal.Store.Enqueue.{Enqueued, enqueue_renewal-Enqueued}
use certpilot.Renewal.Store.Claim.{Claimed, claim_renewal_job-Claimed}
use certpilot.Renewal.Store.Invariant.{
  counts_for, counts_id, load, copies, IsSound, Inv, empty-Inv, Keeps, Replaced-Inv, leased-Keeps,
  extend_one-Keeps, cancel_one-Keeps, completed-Keeps, deferred_job-Keeps,
}

-- A job as the callers of an enqueue build it: not running, with no lease, and with a name that no
-- row has once the default is filled in.
pub record IsNew (fresh : Text) (job : RenewalJob) (jobs : List RenewalJob) : Type 0 where
  pub idle : is_running job.status ≡ false
  pub unheld : job.locked_by ≡ none
  pub untimed : job.locked_until ≡ none
  pub log_bounded : length job.attempt_log ≤ max_attempt_log
  pub unused : copies (if job.id == empty_text then fresh else job.id) jobs ≡ 0

-- The row with this name, if there is one, has not been closed.
abbrev pub IsOpen : Text → List RenewalJob → Type 0
IsOpen id jobs = All (λ j. has_id id j ≡ true → outstanding j ≡ true) jobs

-- One call that changes the queue. Who completes a job reports it as not running, and puts it back on
-- the queue only while it is open.
pub data Step (jobs : List RenewalJob) : List RenewalJob → Type 0 where
  enqueues :
      (fresh : Text) (clock : Time) (job : RenewalJob) {after_it : List RenewalJob} {created : Bool}
      {seen : RenewalJob}
      → IsNew fresh job jobs
      → enqueue_renewal fresh clock job jobs ≡ ok (after_it, created, seen)
      → Step jobs after_it
  claims :
      (worker : Text) (lease : Duration) (now clock : Time)
      → Step jobs (claim_renewal_job worker lease now clock jobs).0
  extends :
      (id worker : Text) (until clock : Time) {after_it : List RenewalJob}
      → extend_renewal_lease id worker until clock jobs ≡ ok after_it
      → Step jobs after_it
  completes :
      (id : Text) (status : Status) (attempt : RenewalAttempt) (run_after : Time) (escalate : Bool)
      (clock : Time) {after_it : List RenewalJob}
      → is_running status ≡ false
      → (is_outstanding status ≡ true → IsOpen id jobs)
      → complete_renewal_job id status attempt run_after escalate clock jobs ≡ ok after_it
      → Step jobs after_it
  cancels :
      (id : Text) (clock : Time) {after_it : List RenewalJob}
      → cancel_renewal_job id clock jobs ≡ ok after_it
      → Step jobs after_it
  defers :
      (id : Text) (run_after : Time) (reason : Text) (escalate : Bool) (clock : Time)
      {after_it : List RenewalJob}
      → IsOpen id jobs
      → defer_renewal_job id run_after reason escalate clock jobs ≡ ok after_it
      → Step jobs after_it

pub data Reach (start : List RenewalJob) : List RenewalJob → Type 0 where
  here : Reach start start
  next : {xs ys : List RenewalJob} → Reach start xs → Step xs ys → Reach start ys

appended-Inv :
    (fresh : Text) (clock : Time) (job : RenewalJob) (jobs : List RenewalJob)
    → IsNew fresh job jobs
    → load job.certificate_id jobs ≡ 0
    → Inv jobs
    → Inv (jobs ++ stored_job fresh clock job ∷ [])
unfolding stored_job
appended-Inv fresh clock job jobs n free v =
    let stored = stored_job fresh clock job in
    record {
      one_each = λ c. ground (
        arith,
        total-append (counts_for c) jobs (stored ∷ []),
        total-single (counts_for c) stored,
        free,
        v.one_each c,
      );
      distinct = λ i. ground (
        arith,
        total-append (counts_id i) jobs (stored ∷ []),
        total-single (counts_id i) stored,
        v.distinct i,
        n.unused,
      );
      sound = All-append IsSound jobs (stored ∷ []) v.sound (ground arith, tt);
    }

updated-Inv :
    (id : Text) (change : RenewalJob → Result StoreError RenewalJob) (missing : StoreError)
    (jobs : List RenewalJob) {ys : List RenewalJob}
    → ((x y : RenewalJob) → Replaced x y jobs ys → has_id id x ≡ true → change x ≡ ok y → Keeps x y)
    → update_first (has_id id) change missing jobs ≡ ok ys
    → Inv jobs
    → Inv ys
updated-Inv id change missing jobs keeps h v =
    let u = update_first-Updated (has_id id) change missing jobs h in
    Replaced-Inv u.replaced (keeps u.old u.new u.replaced u.hits u.changed) v

enqueue-Inv :
    (fresh : Text) (clock : Time) (job : RenewalJob) (jobs : List RenewalJob) {ys : List RenewalJob}
    {created : Bool} {seen : RenewalJob}
    → IsNew fresh job jobs
    → enqueue_renewal fresh clock job jobs ≡ ok (ys, created, seen)
    → Inv jobs
    → Inv ys
enqueue-Inv fresh clock job jobs {ys} n h v = go (enqueue_renewal-Enqueued fresh clock job jobs)
  where
    go : Enqueued fresh clock job jobs (enqueue_renewal fresh clock job jobs) → Inv ys
    go (Enqueued.nameless e r) = cc
    go (Enqueued.already i existing at same open_before r) = subst Inv (cc) v
    go (Enqueued.creates free r) = subst Inv (cc) (appended-Inv fresh clock job jobs n free v)

claim-Inv :
    (worker : Text) (lease : Duration) (now clock : Time) (jobs : List RenewalJob)
    → Inv jobs
    → Inv (claim_renewal_job worker lease now clock jobs).0
claim-Inv worker lease now clock jobs v =
    go (claim_renewal_job worker lease now clock jobs)
      (claim_renewal_job-Claimed worker lease now clock jobs)
  where
    go : (r : List RenewalJob × Option RenewalJob) → Claimed worker lease now clock jobs r → Inv r.0
    go _ (Claimed.idle h) = v
    go _ (Claimed.takes i j h) =
        Replaced-Inv (Replaced-set jobs i (leased worker lease now clock j) h.0)
          (leased-Keeps worker lease now clock j h.1) v

open_row :
    (id : Text) (x y : RenewalJob) (jobs ys : List RenewalJob)
    → Replaced x y jobs ys
    → IsOpen id jobs
    → has_id id x ≡ true
    → outstanding x ≡ true
open_row id x y jobs ys r h = Replaced-old (λ j. has_id id j ≡ true → outstanding j ≡ true) r h

-- Every call keeps the invariant.
pub Step-Inv : {xs ys : List RenewalJob} → Step xs ys → Inv xs → Inv ys
unfolding extend_renewal_lease complete_renewal_job cancel_renewal_job defer_renewal_job
Step-Inv {xs} (enqueues fresh clock job n h) v = enqueue-Inv fresh clock job xs n h v
Step-Inv {xs} (claims worker lease now clock) v = claim-Inv worker lease now clock xs v
Step-Inv {xs} (extends id worker until clock h) v =
    updated-Inv id _ _ xs (λ x y r e c. extend_one-Keeps id worker until clock x y c) h v
Step-Inv {xs} {ys} (completes id status attempt run_after escalate clock idle open_before h) v =
    updated-Inv id _ _ xs
      (λ x y r e c. subst (Keeps x) (ok_injective c) (
        completed-Keeps status attempt run_after escalate clock x idle
          (λ o. open_row id x y xs ys r (open_before o) e)))
      h v
Step-Inv {xs} (cancels id clock h) v =
    updated-Inv id _ _ xs (λ x y r e c. cancel_one-Keeps id clock x y c) h v
Step-Inv {xs} {ys} (defers id run_after reason escalate clock open_before h) v =
    updated-Inv id _ _ xs
      (λ x y r e c. subst (Keeps x) (ok_injective c) (
        deferred_job-Keeps run_after reason escalate clock x
          (open_row id x y xs ys r open_before e)))
      h v

-- From the empty queue, every history of calls leads to a queue where a certificate has at most one outstanding job, names are distinct, and a lease stands exactly while its job runs, if enqueued jobs are idle and have unused names, no completion reports a running job, and completions and deferrals put a job back on the queue only while it is open.
pub Reach-Inv : {jobs : List RenewalJob} → Reach [] jobs → Inv jobs
Reach-Inv here = empty-Inv
Reach-Inv (next r s) = Step-Inv s (Reach-Inv r)
