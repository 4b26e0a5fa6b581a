-- ===== src/Renewal/Store/Enqueue.antt =====
-- EnqueueRenewal on each of its branches.
use certpilot.Prelude.{
  ℕ, suc, ◌≡◌, refl, inl, inr, Bool, true, false, ◌&&◌, none, some, List, [], ◌∷◌, ◌++◌, Text, Time,
  empty_text, arith, ◌==◌, Bool-cases, Option-cases, get_elem?, if◌then◌else◌, Result, ok, err,
}
use certpilot.Renewal.Job.{RenewalJob, outstanding, pending}
use certpilot.Renewal.Store.{
  StoreError, needs_certificate, find_outstanding, stored_job, or_pending, enqueue_renewal,
}
use certpilot.Renewal.Store.Invariant.{load, counts_for}

-- What an enqueue may answer: a refusal, the outstanding job of the certificate with the queue left
-- as it is, or a new row at the end of the queue.
pub data Enqueued (fresh : Text) (clock : Time) (job : RenewalJob) (jobs : List RenewalJob)
    (r : Result StoreError (List RenewalJob × Bool × RenewalJob)) : Type 0 where
  nameless :
      job.certificate_id ≡ empty_text → r ≡ err needs_certificate → Enqueued fresh clock job jobs r
  already :
      (i : ℕ) (existing : RenewalJob)
      → get_elem? jobs i ≡ some existing
      → existing.certificate_id ≡ job.certificate_id
      → outstanding existing ≡ true
      → r ≡ ok (jobs, false, existing)
      → Enqueued fresh clock job jobs r
  creates :
      load job.certificate_id jobs ≡ 0
      → r ≡ ok (jobs ++ stored_job fresh clock job ∷ [], true, stored_job fresh clock job)
      → Enqueued fresh clock job jobs r

find_outstanding-load :
    (cert : Text) (jobs : List RenewalJob) → find_outstanding cert jobs ≡ none → load cert jobs ≡ 0
unfolding find_outstanding
find_outstanding-load cert [] h = refl
find_outstanding-load cert (j ∷ js) h = ground (arith, find_outstanding-load cert js)

find_outstanding-get :
    (cert : Text) (jobs : List RenewalJob) (e : RenewalJob)
    → find_outstanding cert jobs ≡ some e
    → (i : ℕ) × (get_elem? jobs i ≡ some e) × (e.certificate_id ≡ cert) × (outstanding e ≡ true)
unfolding find_outstanding
find_outstanding-get cert [] e h = cc
find_outstanding-get cert (j ∷ js) e h =
    elim (Bool-cases (j.certificate_id == cert && outstanding j)) [
      | inl hit ↦ (0, ground arith, ground arith, ground arith)
      | inr miss ↦
          let (i, at, same, is_open) = find_outstanding-get cert js e (rw miss at h) in
          (suc i, at, same, is_open)
    ]

-- An enqueue is refused for a job with no certificate, hands back the certificate's outstanding job if
-- there is one, and otherwise appends the row, which happens only if the certificate has none.
pub enqueue_renewal-Enqueued :
    (fresh : Text) (clock : Time) (job : RenewalJob) (jobs : List RenewalJob)
    → Enqueued fresh clock job jobs (enqueue_renewal fresh clock job jobs)
unfolding enqueue_renewal
enqueue_renewal-Enqueued fresh clock job jobs =
    elim (Bool-cases (job.certificate_id == empty_text)) [
      | inl e ↦ Enqueued.nameless (ground arith) (rw e)
      | inr named ↦ elim (Option-cases (find_outstanding job.certificate_id jobs)) [
        | inl e ↦ Enqueued.creates (find_outstanding-load _ jobs e) (rw (named, e, enqueue_renewal))
        | inr (x, e) ↦
            let (i, at, same, is_open) = find_outstanding-get _ jobs x e in
            Enqueued.already i x at same is_open (rw (named, e, enqueue_renewal))
      ]
    ]

pub counts_for-stored_job :
    (fresh : Text) (clock : Time) (job : RenewalJob) (cert : Text)
    → job.status ≡ pending
    → counts_for cert (stored_job fresh clock job) ≡ (if job.certificate_id == cert then 1 else 0)
unfolding stored_job or_pending
counts_for-stored_job fresh clock job cert h = rw h (ground arith)
