-- ===== src/Deploy/Queue/Outstanding.antt =====
-- core/store/inmemory.go, EnqueueDeployment: the outstanding jobs of a binding.
use certpilot.Prelude.{
  ℕ, ◌+◌, ◌≤◌, ◌≡◌, ◌≢◌, refl, ap, ◌∙◌, inl, inr, Bool, Bool-cases, Option-cases, true, false, ◌&&◌,
  none, some, List, [], ◌∷◌, ◌++◌, Text, Time, empty_text, arith, ◌==◌, if◌then◌else◌, total,
  total-append, total-single, ok,
}
use certpilot.Deploy.Job.{DeploymentJob, outstanding}
use certpilot.Deploy.Queue.{enqueue_deployment, find_binding, stored_deployment, or_pending}

abbrev pub counts_for : Text → DeploymentJob → ℕ
counts_for binding j = if j.deployment_id == binding && outstanding j then 1 else 0

-- How many outstanding jobs a binding has.
abbrev pub load : Text → List DeploymentJob → ℕ
load binding jobs = total (counts_for binding) jobs

find_binding-none :
    (binding : Text) (jobs : List DeploymentJob)
    → find_binding binding jobs ≡ none
    → load binding jobs ≡ 0
unfolding find_binding
find_binding-none binding [] h = refl
find_binding-none binding (j ∷ js) h = ground (arith, find_binding-none binding js)

find_binding-some :
    (binding : Text) (jobs : List DeploymentJob) (e : DeploymentJob)
    → find_binding binding jobs ≡ some e
    → (e.deployment_id ≡ binding) × (outstanding e ≡ true) × (1 ≤ load binding jobs)
unfolding find_binding
find_binding-some binding [] e h = cc
find_binding-some binding (j ∷ js) e h =
    elim (Bool-cases (j.deployment_id == binding && outstanding j)) [
      | inl hit ↦ (ground arith, ground arith, ground arith)
      | inr miss ↦
          let (same, is_open, some_load) = find_binding-some binding js e (rw miss at h) in
          (same, is_open, omega arith)
    ]

stored_load :
    (fresh : Text) (clock : Time) (job : DeploymentJob) (binding : Text)
    → outstanding job ≡ true
    → counts_for binding (stored_deployment fresh clock job)
      ≡ (if job.deployment_id == binding then 1 else 0)
unfolding stored_deployment or_pending
stored_load fresh clock job binding h = ground arith

load-appended :
    (fresh : Text) (clock : Time) (job : DeploymentJob) (jobs : List DeploymentJob) (binding : Text)
    → outstanding job ≡ true
    → load binding (jobs ++ stored_deployment fresh clock job ∷ [])
      ≡ load binding jobs + (if job.deployment_id == binding then 1 else 0)
load-appended fresh clock job jobs binding h =
    let stored = stored_deployment fresh clock job in
    total-append (counts_for binding) jobs (stored ∷ [])
    ∙ ap (λ more. load binding jobs + more)
        (total-single (counts_for binding) stored ∙ stored_load fresh clock job binding h)

elsewhere : (x b n : ℕ) → b ≢ x → n + (if x == b then 1 else 0) ≡ n
elsewhere x b n other = elim (Bool-cases (x == b)) [
  | inl e ↦ absurd (other (ground arith))
  | inr e ↦ rw (e) (omega arith)
]

-- Enqueueing an outstanding job with a binding succeeds and hands back an outstanding job of that binding; afterwards the binding has exactly one, if none had more than one before, and every other binding has as many as before.
pub enqueue_deployment-one :
    (fresh : Text) (clock : Time) (job : DeploymentJob) (jobs : List DeploymentJob)
    → job.deployment_id ≢ empty_text
    → outstanding job ≡ true
    → ((binding : Text) → load binding jobs ≤ 1)
    → (ys : List DeploymentJob) × (created : Bool) × (seen : DeploymentJob) × (enqueue_deployment
          fresh clock job jobs
        ≡ ok (ys, created, seen))
      × (seen.deployment_id ≡ job.deployment_id)
      × (outstanding seen ≡ true)
      × (load job.deployment_id ys ≡ 1)
      × ((binding : Text) → binding ≢ job.deployment_id → load binding ys ≡ load binding jobs)
unfolding enqueue_deployment stored_deployment or_pending
enqueue_deployment-one fresh clock job jobs named open_now one =
    let has_name : (job.deployment_id == empty_text) ≡ false = ground arith in
    let stored = stored_deployment fresh clock job in
    elim (Option-cases (find_binding job.deployment_id jobs)) [
      | inl e ↦
          let free = find_binding-none job.deployment_id jobs e in
          (
            jobs ++ stored ∷ [],
            true,
            stored,
            rw (has_name, e, enqueue_deployment) refl,
            refl,
            ground arith,
            ground (arith, load-appended fresh clock job jobs job.deployment_id open_now, free),
            λ b other.
                load-appended fresh clock job jobs b open_now
                ∙ elsewhere job.deployment_id b (load b jobs) other,
          )
      | inr (x, e) ↦
          let (same, is_open, some_load) = find_binding-some job.deployment_id jobs x e in
          (
            jobs,
            false,
            x,
            rw (has_name, e, enqueue_deployment) refl,
            same,
            is_open,
            omega (arith, one job.deployment_id),
            λ b other. refl,
          )
    ]
