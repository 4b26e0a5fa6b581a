-- ===== src/Renewal/Store.antt =====
-- core/store/inmemory.go: the operations on the renewal queue. The readings of the wall clock within
-- one call are one argument, `clock`, and the identifier that uuid.New would make is `fresh`.
pub mod Claim
pub mod Invariant
pub mod Enqueue
pub mod Steps
pub mod Lease
pub mod Named
pub mod Recent
mod Examples
use certpilot.Prelude.{
  ℕ, suc, ◌+◌, ◌-◌, Bool, true, false, ◌&&◌, ◌||◌, not, Option, none, some, List, [], ◌∷◌, ◌++◌,
  Text, Time, Duration, empty_text, is_text, is_none, is_zero_time, before, after, ltb, ◌==◌,
  if◌then◌else◌, Result, ok, err, length, drop, set, update_first,
}
use certpilot.Renewal.Job.{
  Status, Reason, RenewalAttempt, RenewalJob, pending, running, cancelled, is_pending, is_running,
  is_succeeded, outstanding,
}

pub data StoreError : Type 0 where
  needs_certificate : StoreError
  not_found : Text → StoreError
  not_held : Text → Text → StoreError
  not_outstanding : Text → StoreError

abbrev pub max_attempt_log : ℕ
max_attempt_log = 50

pub or_pending : Status → Status
or_pending Status.unset = pending
or_pending s = s

or_scheduled : Reason → Reason
or_scheduled Reason.unset = Reason.scheduled
or_scheduled r = r

-- The loop that looks for the certificate's outstanding job.
pub find_outstanding : Text → List RenewalJob → Option RenewalJob
find_outstanding cert [] = none
find_outstanding cert (j ∷ js) =
    if j.certificate_id == cert && outstanding j then some j else find_outstanding cert js

-- The row that an enqueue stores, defaults filled in.
pub stored_job : Text → Time → RenewalJob → RenewalJob
unfolding or_pending or_scheduled
stored_job fresh clock job = record job {
  id = if job.id == empty_text then fresh else job.id;
  status = or_pending job.status;
  reason = or_scheduled job.reason;
  run_after = if is_zero_time job.run_after then clock else job.run_after;
  created_at = clock;
  updated_at = clock;
}

-- The new queue, whether a row was created, and what `*job` holds on return.
unfoldable pub enqueue_renewal :
    Text
    → Time
    → RenewalJob
    → List RenewalJob
    → Result StoreError (List RenewalJob × Bool × RenewalJob)
unfolding find_outstanding stored_job
enqueue_renewal fresh clock job jobs =
    if job.certificate_id == empty_text
    then err needs_certificate
    else elim (find_outstanding job.certificate_id jobs) [
      | some existing ↦ ok (jobs, false, existing)
      | none ↦ let stored = stored_job fresh clock job in ok (jobs ++ stored ∷ [], true, stored)
    ]

lapsed : Option Time → Time → Bool
lapsed none now = false
lapsed (some until) now = before until now

-- Whether a claim at `now` may take the job.
pub is_ready : Time → RenewalJob → Bool
unfolding lapsed
is_ready now job =
    is_pending job.status && not (after job.run_after now)
    || is_running job.status && lapsed job.locked_until now

urgent_by : Option Time → Option Time → Time → Time → Bool
urgent_by none none ra rb = before ra rb
urgent_by none (some db) ra rb = false
urgent_by (some da) none ra rb = true
urgent_by (some da) (some db) ra rb = if da == db then before ra rb else before da db

pub more_urgent : RenewalJob → RenewalJob → Bool
unfolding urgent_by
more_urgent a b = urgent_by a.not_after b.not_after a.run_after b.run_after

-- The best row so far, with its place in the slice: the loop keeps a pointer to it.
pub better : Time → ℕ → RenewalJob → Option (ℕ × RenewalJob) → Option (ℕ × RenewalJob)
unfolding is_ready more_urgent
better now i j none = if is_ready now j then some (i, j) else none
better now i j (some (k, b)) =
    if is_ready now j && more_urgent j b then some (i, j) else some (k, b)

pub pick_from : Time → ℕ → Option (ℕ × RenewalJob) → List RenewalJob → Option (ℕ × RenewalJob)
unfolding better
pick_from now i best [] = best
pick_from now i best (j ∷ js) = pick_from now (suc i) (better now i j best) js

or_started : Option Time → Time → Option Time
or_started none now = some now
or_started (some t) now = some t

pub leased : Text → Duration → Time → Time → RenewalJob → RenewalJob
unfolding or_started
leased worker lease now clock j = record j {
  status = running;
  locked_by = some worker;
  locked_until = some (now + lease);
  attempts = suc j.attempts;
  started_at = or_started j.started_at now;
  updated_at = clock;
}

pub claim_renewal_job :
    Text → Duration → Time → Time → List RenewalJob → List RenewalJob × Option RenewalJob
unfolding pick_from leased
claim_renewal_job worker lease now clock jobs = elim (pick_from now 0 none jobs) [
  | none ↦ (jobs, none)
  | some (i, j) ↦ let best = leased worker lease now clock j in (set jobs i best, some best)
]

pub extend_one : Text → Text → Time → Time → RenewalJob → Result StoreError RenewalJob
extend_one id worker until clock j =
    if not (is_running j.status) || not (is_text j.locked_by worker)
    then err (not_held id worker)
    else ok (record j { locked_until = some until; updated_at = clock })

abbrev pub has_id : Text → RenewalJob → Bool
has_id id j = j.id == id

pub extend_renewal_lease :
    Text → Text → Time → Time → List RenewalJob → Result StoreError (List RenewalJob)
unfolding extend_one
extend_renewal_lease id worker until clock =
    update_first (has_id id) (extend_one id worker until clock) (not_found id)

-- The attempt log with one more entry, the oldest dropped past the limit.
pub logged : List RenewalAttempt → RenewalAttempt → List RenewalAttempt
logged log attempt =
    let grown = log ++ attempt ∷ [] in
    if ltb max_attempt_log (length grown)
    then drop (length grown - max_attempt_log) grown
    else grown

-- `escalated_at` is set once and left.
or_escalated : Bool → Option Time → Time → Option Time
or_escalated escalate at clock = if escalate && is_none at then some clock else at

unfoldable pub completed : Status → RenewalAttempt → Time → Bool → Time → RenewalJob → RenewalJob
unfolding logged or_escalated
completed status attempt run_after escalate clock j = record j {
  status = status;
  last_error = attempt.error;
  locked_by = none;
  locked_until = none;
  attempt_log = logged j.attempt_log attempt;
  run_after = if is_pending status then run_after else j.run_after;
  completed_at = if is_pending status then j.completed_at else some clock;
  escalated_at = or_escalated escalate j.escalated_at clock;
  updated_at = clock;
}

pub complete_renewal_job :
    Text
    → Status
    → RenewalAttempt
    → Time
    → Bool
    → Time
    → List RenewalJob
    → Result StoreError (List RenewalJob)
unfolding completed
complete_renewal_job id status attempt run_after escalate clock =
    update_first (has_id id) (λ j. ok (completed status attempt run_after escalate clock j))
      (not_found id)

pub cancel_one : Text → Time → RenewalJob → Result StoreError RenewalJob
cancel_one id clock j =
    if not (outstanding j)
    then err (not_outstanding id)
    else ok (record j {
      status = cancelled;
      locked_by = none;
      locked_until = none;
      completed_at = some clock;
      updated_at = clock;
    })

pub cancel_renewal_job : Text → Time → List RenewalJob → Result StoreError (List RenewalJob)
unfolding cancel_one
cancel_renewal_job id clock = update_first (has_id id) (cancel_one id clock) (not_outstanding id)

pub deferral : Text → Time → RenewalAttempt
deferral reason clock = record {
  number = 0;
  started_at = clock;
  duration_ms = 0;
  deferred = true;
  reason = reason;
  worker = empty_text;
  error = empty_text;
}

unfoldable pub deferred_job : Time → Text → Bool → Time → RenewalJob → RenewalJob
unfolding logged or_escalated deferral
deferred_job run_after reason escalate clock j = record j {
  status = pending;
  run_after = run_after;
  attempts = j.attempts - 1;
  locked_by = none;
  locked_until = none;
  attempt_log = logged j.attempt_log (deferral reason clock);
  escalated_at = or_escalated escalate j.escalated_at clock;
  updated_at = clock;
}

pub defer_renewal_job :
    Text → Time → Text → Bool → Time → List RenewalJob → Result StoreError (List RenewalJob)
unfolding deferred_job
defer_renewal_job id run_after reason escalate clock =
    update_first (has_id id) (λ j. ok (deferred_job run_after reason escalate clock j))
      (not_found id)

-- The renewals of one account that completed at `since` or later.
unfoldable pub spent_by : Text → Time → RenewalJob → Option Time → Bool
spent_by account since j none = false
spent_by account since j (some done) =
    is_succeeded j.status && is_text j.ca_account_id account && not (before done since)

unfoldable pub earliest : Option Time → Option Time → Option Time
earliest none done = done
earliest (some o) none = some o
earliest (some o) (some d) = if before d o then some d else some o

-- How many there are, and when the oldest completed.
unfoldable pub count_recent_from : Text → Time → ℕ → Option Time → List RenewalJob → ℕ × Option Time
unfolding spent_by earliest
count_recent_from account since count oldest [] = (count, oldest)
count_recent_from account since count oldest (j ∷ js) =
    let counts = spent_by account since j j.completed_at in
    count_recent_from account since (if counts then suc count else count)
      (if counts then earliest oldest j.completed_at else oldest) js

unfoldable pub count_recent_renewals : Text → Time → List RenewalJob → ℕ × Option Time
unfolding count_recent_from
count_recent_renewals account since = count_recent_from account since 0 none
