-- ===== src/Renewal/Scheduler/Sweep.antt =====
-- What one sweep leaves in the queue.
use certpilot.Prelude.{
  ℕ, suc, ◌+◌, ◌≤◌, ◌≡◌, ◌≢◌, refl, ap, ◌∙◌, true, none, List, [], ◌∷◌, ◌++◌, Text, Time,
  empty_text, arith, ◌==◌, if◌then◌else◌, length, length-append, total-get, All, total-append,
  total-single,
}
use certpilot.Renewal.Job.{Reason, RenewalJob, outstanding}
use certpilot.Renewal.Certificate.{Certificate}
use certpilot.Renewal.Store.{stored_job}
use certpilot.Renewal.Store.Invariant.{load, counts_for}
use certpilot.Renewal.Store.Enqueue.{Enqueued, enqueue_renewal-Enqueued, counts_for-stored_job}
use certpilot.Renewal.Lead.{is_due, certificates_due}
use certpilot.Renewal.Lead.Due.{All-certificates_due}
use certpilot.Renewal.Scheduler.{Readings, job_for, enqueue, queued, scan_from, run_scan}

-- No certificate has two outstanding jobs.
abbrev pub OneEach : List RenewalJob → Type 0
OneEach jobs = (cert : Text) → load cert jobs ≤ 1

-- What queueing one certificate does to the queue and to the count.
pub record Grown (xs : List RenewalJob) (n : ℕ) (ys : List RenewalJob) (m : ℕ) : Type 0 where
  pub kept : (cert : Text) → load cert xs ≤ load cert ys
  pub one_each : OneEach xs → OneEach ys
  pub counted : m + length xs ≡ n + length ys

abbrev QueuesOne : Certificate → List RenewalJob → ℕ → List RenewalJob × ℕ → Type 0
QueuesOne cert jobs n after_it =
    Grown jobs n after_it.0 after_it.1
    × (cert.id ≢ empty_text → OneEach jobs → load cert.id after_it.0 ≡ 1)

unchanged : (cert : Certificate) (jobs : List RenewalJob) (n : ℕ) → Grown jobs n jobs n
unchanged cert jobs n = record { kept = λ c. omega arith; one_each = λ h. h; counted = refl }

module _ (r : Readings) (k : ℕ) (cert : Certificate) (jobs : List RenewalJob) (n : ℕ) where
  abbrev its_job : RenewalJob
  its_job = job_for cert Reason.scheduled none none (r.now k)

  abbrev its_row : RenewalJob
  its_row = stored_job (r.fresh k) (r.clock k) its_job

  its_load :
      (c : Text) → load c (jobs ++ its_row ∷ []) ≡ load c jobs + (if cert.id == c then 1 else 0)
  unfolding job_for
  its_load c =
      total-append (counts_for c) jobs (its_row ∷ [])
      ∙ ap (λ more. load c jobs + more)
          (total-single (counts_for c) its_row
            ∙ counts_for-stored_job (r.fresh k) (r.clock k) its_job c refl)

  appended : load cert.id jobs ≡ 0 → QueuesOne cert jobs n (jobs ++ its_row ∷ [], suc n)
  appended free = (
    record {
      kept = λ c. omega (arith, its_load c);
      one_each = λ h c. grows c (h c);
      counted = omega (arith, length-append jobs (its_row ∷ []));
    },
    λ named h. ground (arith, its_load cert.id),
  )
    where
      grows : (c : Text) → load c jobs ≤ 1 → load c (jobs ++ its_row ∷ []) ≤ 1
      grows c h = ground (arith, its_load c, free)

  open_counts :
      (i : ℕ) (existing : RenewalJob)
      → existing.certificate_id ≡ its_job.certificate_id
      → outstanding existing ≡ true
      → counts_for cert.id existing ≡ 1
  unfolding job_for
  open_counts i existing same is_open = ground arith

  queued-enqueue :
      QueuesOne cert jobs n (queued jobs n (enqueue r k cert Reason.scheduled none none jobs))
  unfolding enqueue queued job_for
  queued-enqueue = elim (enqueue_renewal-Enqueued (r.fresh k) (r.clock k) its_job jobs) [
    | Enqueued.nameless e eq ↦ rw (eq, enqueue) (unchanged cert jobs n, λ named h. absurd (named e))
    | Enqueued.already i existing at same is_open eq ↦
        rw (eq, enqueue)
          (
            unchanged cert jobs n,
            λ named h. omega (
              arith,
              h cert.id,
              total-get (counts_for cert.id) jobs i existing at,
              open_counts i existing same is_open,
            ),
          )
    | Enqueued.creates free eq ↦ rw (eq, enqueue) (appended free)
  ]

scan_from-Grown :
    (r : Readings) (k : ℕ) (certs : List Certificate) (jobs : List RenewalJob) (n : ℕ)
    → Grown jobs n (scan_from r k certs jobs n).0 (scan_from r k certs jobs n).1
unfolding scan_from
scan_from-Grown r k [] jobs n = record {
  kept = λ c. omega arith;
  one_each = λ h. h;
  counted = refl;
}
scan_from-Grown r k (cert ∷ certs) jobs n =
    let step = queued jobs n (enqueue r k cert Reason.scheduled none none jobs) in
    let one = (queued-enqueue r k cert jobs n).0 in
    let rest = scan_from-Grown r (suc k) certs step.0 step.1 in
    record {
      kept = λ c. omega (arith, one.kept c, rest.kept c);
      one_each = λ h. rest.one_each (one.one_each h);
      counted = omega (arith, one.counted, rest.counted);
    }

-- The certificate has one outstanding job, if it has a name.
abbrev pub HasOne : List RenewalJob → Certificate → Type 0
HasOne jobs cert = cert.id ≢ empty_text → load cert.id jobs ≡ 1

scan_from-HasOne :
    (r : Readings) (k : ℕ) (certs : List Certificate) (jobs : List RenewalJob) (n : ℕ)
    → OneEach jobs
    → All (HasOne (scan_from r k certs jobs n).0) certs
unfolding scan_from
scan_from-HasOne r k [] jobs n h = tt
scan_from-HasOne r k (cert ∷ certs) jobs n h =
    let step = queued jobs n (enqueue r k cert Reason.scheduled none none jobs) in
    let one = queued-enqueue r k cert jobs n in
    let rest = scan_from-Grown r (suc k) certs step.0 step.1 in
    let each = one.0.one_each h in
    (
      λ named. omega (arith, one.1 named h, rest.kept cert.id, rest.one_each each cert.id),
      scan_from-HasOne r (suc k) certs step.0 step.1 each,
    )

-- A sweep over a queue in which no certificate has two outstanding jobs leaves such a queue, in which every certificate that is due and has a name has exactly one outstanding job, no certificate has fewer than before, and as many rows are new as the sweep counts.
pub run_scan-HasOne :
    (r : Readings) (at : Time) (lead_days : ℕ) (certs : List Certificate) (jobs : List RenewalJob)
    → OneEach jobs
    → OneEach (run_scan r at lead_days certs jobs).0
      × All
          (λ c. is_due at lead_days c ≡ true → HasOne (run_scan r at lead_days certs jobs).0 c)
          certs
      × ((c : Text) → load c jobs ≤ load c (run_scan r at lead_days certs jobs).0)
      × ((run_scan r at lead_days certs jobs).1 + length jobs
          ≡ length (run_scan r at lead_days certs jobs).0)
unfolding run_scan
run_scan-HasOne r at lead_days certs jobs h =
    let due = certificates_due at lead_days certs in
    let grown = scan_from-Grown r 0 due jobs 0 in
    (
      grown.one_each h,
      (All-certificates_due (HasOne (scan_from r 0 due jobs 0).0) at lead_days certs).0
          (scan_from-HasOne r 0 due jobs 0 h),
      grown.kept,
      omega (arith, grown.counted),
    )
