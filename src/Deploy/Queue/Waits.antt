-- ===== src/Deploy/Queue/Waits.antt =====
-- core/store/inmemory.go, heldBackByAFailure and heldBackByAnEarlierWave: which jobs need not wait.
use certpilot.Prelude.{
  ◌≡◌, ◌≢◌, ◌⊎◌, refl, ap, inl, inr, Bool, true, false, ◌&&◌, ◌||◌, List, [], ◌∷◌, Text, Time,
  Duration, empty_text, arith, ◌==◌, ltb_ℤ, Bool-cases, All-both, All-map, All,
}
use certpilot.Deploy.Job.{DeploymentJob, is_failed, outstanding}
use certpilot.Deploy.Queue.{
  any_job, blocks_wave, held_back_by_a_failure, held_back_by_an_earlier_wave, is_failing_sibling,
  is_latest_job_for_binding, leased,
}

any_job-false :
    (test : DeploymentJob → Bool) (jobs : List DeploymentJob)
    → any_job test jobs ≡ false
    → All (λ j. test j ≡ false) jobs
unfolding any_job
any_job-false test [] h = tt
any_job-false test (j ∷ js) h = (ground arith, any_job-false test js (ground arith))

All-any_job :
    (test : DeploymentJob → Bool) (jobs : List DeploymentJob)
    → All (λ j. test j ≡ false) jobs
    → any_job test jobs ≡ false
unfolding any_job
All-any_job test [] h = refl
All-any_job test (j ∷ js) h = let rest = All-any_job test js h.1 in simp (h.0, rest)

-- The job need not wait for the others: every earlier wave of its certificate is settled and did not end in a failure that
-- nothing newer has followed, and while it has not failed itself no other job of the certificate is failing.
pub record MayGo (jobs : List DeploymentJob) (job : DeploymentJob) : Type 0 where
  pub earlier_settled :
      All
        (λ other.
          other.certificate_id ≡ job.certificate_id
          → ltb_ℤ other.deploy_order job.deploy_order ≡ true
          → outstanding other ≡ false)
        jobs
  pub earlier_accepted :
      All
        (λ other.
          other.certificate_id ≡ job.certificate_id
          → ltb_ℤ other.deploy_order job.deploy_order ≡ true
          → is_failed other.status ≡ true
          → is_latest_job_for_binding jobs other ≡ false)
        jobs
  pub no_canary_failing :
      job.last_error ≡ empty_text
      → All
          (λ other.
            other.certificate_id ≡ job.certificate_id
            → outstanding other ≡ true
            → (other.id ≡ job.id) ⊎ (other.last_error ≡ empty_text))
          jobs

settled_by :
    (jobs : List DeploymentJob) (job other : DeploymentJob)
    → blocks_wave jobs job other ≡ false
    → other.certificate_id ≡ job.certificate_id
    → ltb_ℤ other.deploy_order job.deploy_order ≡ true
    → (outstanding other ≡ false)
      × (is_failed other.status ≡ true → is_latest_job_for_binding jobs other ≡ false)
unfolding blocks_wave
settled_by jobs job other h same earlier =
    let same' : (other.certificate_id == job.certificate_id) ≡ true = ground arith in
    let either : (outstanding other
          || is_failed other.status && is_latest_job_for_binding jobs other)
        ≡ false =
      rw (same', earlier) at h in
    elim (Bool-cases (outstanding other)) [
      | inl e ↦ absurd (cc (rw (e) at either))
      | inr e ↦ (e, λ f. rw (e, f) at either)
    ]

quiet_by :
    (job other : DeploymentJob)
    → is_failing_sibling job other ≡ false
    → other.certificate_id ≡ job.certificate_id
    → outstanding other ≡ true
    → (other.id ≡ job.id) ⊎ (other.last_error ≡ empty_text)
unfolding is_failing_sibling
quiet_by job other h same open_still = elim (Bool-cases (other.id == job.id)) [
  | inl e ↦ inl (ground arith)
  | inr e ↦ inr (ground arith)
]

pub free-MayGo :
    (jobs : List DeploymentJob) (job : DeploymentJob)
    → held_back_by_a_failure jobs job ≡ false
    → held_back_by_an_earlier_wave jobs job ≡ false
    → MayGo jobs job
unfolding held_back_by_a_failure held_back_by_an_earlier_wave
free-MayGo jobs job canary earlier_waves =
    let waves = any_job-false (blocks_wave jobs job) jobs (ground arith) in
    record {
      earlier_settled =
          All-map _ _ jobs (λ o b same earlier. (settled_by jobs job o b same earlier).0) waves;
      earlier_accepted =
          All-map _ _ jobs (λ o b same earlier f. (settled_by jobs job o b same earlier).1 f) waves;
      no_canary_failing = λ fine.
          All-map _ _ jobs (λ o q same open_still. quiet_by job o q same open_still)
            (any_job-false (is_failing_sibling job) jobs (ground arith));
    }

blocks_wave-false :
    (jobs : List DeploymentJob) (job other : DeploymentJob)
    → (other.certificate_id ≡ job.certificate_id
        → ltb_ℤ other.deploy_order job.deploy_order ≡ true
        → outstanding other ≡ false)
    → (other.certificate_id ≡ job.certificate_id
        → ltb_ℤ other.deploy_order job.deploy_order ≡ true
        → is_failed other.status ≡ true
        → is_latest_job_for_binding jobs other ≡ false)
    → blocks_wave jobs job other ≡ false
unfolding blocks_wave
blocks_wave-false jobs job other settled accepted =
    elim (Bool-cases (other.certificate_id == job.certificate_id)) [
      | inr e ↦ simp e
      | inl e ↦ elim (Bool-cases (ltb_ℤ other.deploy_order job.deploy_order)) [
        | inr f ↦ simp (e, f)
        | inl f ↦
            let calm = settled (ground arith) f in
            elim (Bool-cases (is_failed other.status)) [
              | inr g ↦ simp (e, f, calm, g)
              | inl g ↦ let newer = accepted (ground arith) f g in simp (e, f, calm, g, newer)
            ]
      ]
    ]

is_failing_sibling-false :
    (job other : DeploymentJob)
    → (other.certificate_id ≡ job.certificate_id
        → outstanding other ≡ true
        → (other.id ≡ job.id) ⊎ (other.last_error ≡ empty_text))
    → is_failing_sibling job other ≡ false
unfolding is_failing_sibling
is_failing_sibling-false job other quiet =
    elim (Bool-cases (other.certificate_id == job.certificate_id)) [
      | inr e ↦ ground arith
      | inl e ↦ elim (Bool-cases (outstanding other)) [
        | inr f ↦ ground arith
        | inl f ↦ elim (quiet (ground arith) f) [ inl g ↦ ground arith | inr g ↦ ground arith ]
      ]
    ]

pub MayGo-held_back_by_an_earlier_wave :
    (jobs : List DeploymentJob) (job : DeploymentJob)
    → MayGo jobs job
    → held_back_by_an_earlier_wave jobs job ≡ false
unfolding held_back_by_an_earlier_wave
MayGo-held_back_by_an_earlier_wave jobs job may = All-any_job (blocks_wave jobs job) jobs (
    All-both _ _ _ jobs (λ o settled accepted. blocks_wave-false jobs job o settled accepted)
      may.earlier_settled may.earlier_accepted)

pub MayGo-held_back_by_a_failure :
    (jobs : List DeploymentJob) (job : DeploymentJob)
    → MayGo jobs job
    → held_back_by_a_failure jobs job ≡ false
unfolding held_back_by_a_failure
MayGo-held_back_by_a_failure jobs job may = elim (Bool-cases (job.last_error == empty_text)) [
  | inr e ↦ simp e
  | inl e ↦
      let quiet = All-any_job (is_failing_sibling job) jobs (
        All-map _ _ jobs (λ o q. is_failing_sibling-false job o q)
          (may.no_canary_failing (ground arith))) in
      simp (e, quiet)
]

-- A lease is seen in the row: it counts the attempt.
pub leased-moves :
    (worker : Text) (lease : Duration) (now clock : Time) (j : DeploymentJob)
    → leased worker lease now clock j ≢ j
unfolding leased
leased-moves worker lease now clock j e = let more = ap (λ x. x.attempts) e in omega arith
