-- ===== src/Deploy/Rollout/Queued.antt =====
-- core/engine/deploy/rollout.go: what a rollout leaves in the queue.
use certpilot.Prelude.{
  ℕ, suc, ◌+◌, ◌≤◌, ◌≡◌, ◌≢◌, refl, sym, ap, subst, inl, inr, Bool, Bool-cases, Option-cases, true,
  not, ◌&&◌, none, List, [], ◌∷◌, Text, Time, empty_text, arith, ◌==◌, if◌then◌else◌, length,
  length-append, All, ok, ok_injective,
}
use certpilot.Deploy.Job.{DeploymentJob}
use certpilot.Deploy.Queue.{enqueue_deployment, find_binding, stored_deployment}
use certpilot.Deploy.Queue.Outstanding.{enqueue_deployment-one, load}
use certpilot.Deploy.Rollout.{
  CertificateDeployment, Progress, Rollout, Trigger, counted, empty_rollout, enqueue_for,
  is_automatic, is_chosen, job_for, place, place_from, total_of,
}

-- No binding has two outstanding jobs.
abbrev pub OneEach : List DeploymentJob → Type 0
OneEach queue = (binding : Text) → load binding queue ≤ 1

-- The queue grows by the rows that the rollout counts, and no binding loses or doubles a job.
pub record Grown (xs : List DeploymentJob) (o : Rollout) (k : ℕ) (p : Progress) : Type 0 where
  pub kept : (binding : Text) → load binding xs ≤ load binding p.queue
  pub one_each : OneEach p.queue
  pub rows : p.rollout.queued + length xs ≡ o.queued + length p.queue
  pub totals : total_of p.rollout ≡ k + total_of o
  pub no_failure : p.failure ≡ none

enqueue_deployment-rows :
    (fresh : Text) (clock : Time) (job : DeploymentJob) (queue ys : List DeploymentJob)
    (created : Bool) (row : DeploymentJob)
    → enqueue_deployment fresh clock job queue ≡ ok (ys, created, row)
    → length ys ≡ length queue + (if created then 1 else 0)
unfolding enqueue_deployment
enqueue_deployment-rows fresh clock job queue ys created row e =
    elim (Bool-cases (job.deployment_id == empty_text)) [
      | inl n ↦ let bad = rw (n) at e in cc
      | inr n ↦ elim (Option-cases (find_binding job.deployment_id queue)) [
        | inl f ↦
            let same = ok_injective (rw (n, f) at e) in
            let rows = ap (λ r. length r.0) same in
            let made = ap (λ r. r.1) same in
            ground (arith, rows, made, length-append queue (stored_deployment fresh clock job ∷ []))
        | inr (x, f) ↦
            let same = ok_injective (rw (n, f) at e) in
            let rows = ap (λ r. length r.0) same in
            let made = ap (λ r. r.1) same in ground (arith, rows, made)
      ]
    ]

same_queue :
    (queue : List DeploymentJob) (out out2 : Rollout)
    → OneEach queue
    → out2.queued ≡ out.queued
    → total_of out2 ≡ 1 + total_of out
    → Grown queue out 1 (record { queue = queue; rollout = out2; failure = none })
same_queue queue out out2 one q more = record {
  kept = λ k. omega arith;
  one_each = one;
  rows = omega (arith, q);
  totals = more;
  no_failure = refl;
}

module _ (t : Trigger) where
  -- One turn of the loop for a binding.
  Placed : CertificateDeployment → List DeploymentJob → Rollout → Progress → Type 0
  Placed b queue out p = Grown queue out 1 p × (is_chosen t b ≡ true → load b.id p.queue ≡ 1)

  counted-Grown :
      (n : ℕ) (b : CertificateDeployment) (queue : List DeploymentJob) (out : Rollout)
      → b.id ≢ empty_text
      → OneEach queue
      → let p =
          counted queue out (enqueue_deployment (t.fresh n) (t.clock n) (job_for t b) queue) in
        Grown queue out 1 p × (load b.id p.queue ≡ 1)
  unfolding counted job_for total_of
  counted-Grown n b queue out named one =
      let (ys, created, row, eq, same, is_open, here, others) =
        enqueue_deployment-one (t.fresh n) (t.clock n) (job_for t b) queue named refl one in
      let rows =
        enqueue_deployment-rows (t.fresh n) (t.clock n) (job_for t b) queue ys created row eq in
      let at_binding : (k : Text) → (load k queue ≤ load k ys) × (load k ys ≤ 1) = λ k.
        elim (Bool-cases (k == b.id)) [
          | inl e ↦
              let is_b : k ≡ b.id = ground (arith, e) in
              subst (λ i. (load i queue ≤ load i ys) × (load i ys ≤ 1)) (sym is_b)
                (omega (arith, one b.id, here), omega (arith, here))
          | inr e ↦
              let other = others k (λ is_b. ground (arith, e, is_b)) in
              (omega (arith, other), omega (arith, other, one k))
        ] in
      rw (eq) (
        record {
          kept = λ k. (at_binding k).0;
          one_each = λ k. (at_binding k).1;
          rows = ground (arith, rows);
          totals = ground arith;
          no_failure = refl;
        },
        here,
      )

  place-Placed :
      (n : ℕ) (b : CertificateDeployment) (queue : List DeploymentJob) (out : Rollout)
      → b.id ≢ empty_text
      → OneEach queue
      → Placed b queue out (place t n b queue out)
  unfolding place is_chosen Placed total_of
  place-Placed n b queue out named one = elim (Bool-cases b.is_enabled) [
    | inr e ↦ rw (e) (same_queue queue out _ one refl (omega arith), λ h. cc)
    | inl e ↦ elim (Bool-cases (is_automatic t.reason && not b.deploy_on_renewal)) [
      | inl f ↦ rw (e, f) (same_queue queue out _ one refl (omega arith), λ h. cc)
      | inr f ↦ let r = counted-Grown n b queue out named one in rw (e, f) (r.0, λ h. r.1)
    ]
  ]

  place_from-turn :
      (n : ℕ) (b : CertificateDeployment) (bindings : List CertificateDeployment)
      (queue : List DeploymentJob) (out : Rollout)
      → (place t n b queue out).failure ≡ none
      → place_from t n (b ∷ bindings) queue out
        ≡ place_from t
            (suc n)
            bindings
            (place t n b queue out).queue
            (place t n b queue out).rollout
  unfolding place_from
  place_from-turn n b bindings queue out h = rw (h, place_from) refl

  place_from-Grown :
      (n : ℕ) (bindings : List CertificateDeployment) (queue : List DeploymentJob) (out : Rollout)
      → All (λ b. b.id ≢ empty_text) bindings
      → OneEach queue
      → Grown queue out (length bindings) (place_from t n bindings queue out)
        × All
            (λ b. is_chosen t b ≡ true → load b.id (place_from t n bindings queue out).queue ≡ 1)
            bindings
  unfolding place_from Placed
  place_from-Grown n [] queue out named one = (
    record {
      kept = λ k. omega arith;
      one_each = one;
      rows = refl;
      totals = omega arith;
      no_failure = refl;
    },
    tt,
  )
  place_from-Grown n (b ∷ bindings) queue out named one =
      let turn = place t n b queue out in
      let (grown, placed) = place-Placed n b queue out named.0 one in
      let (rest, others) =
        place_from-Grown (suc n) bindings turn.queue turn.rollout named.1 grown.one_each in
      subst
        (λ p.
          Grown queue out (suc (length bindings)) p
          × ((is_chosen t b ≡ true → load b.id p.queue ≡ 1)
              × All (λ c. is_chosen t c ≡ true → load c.id p.queue ≡ 1) bindings))
        (sym (place_from-turn n b bindings queue out grown.no_failure))
        (
          record {
            kept = λ k. omega (arith, grown.kept k, rest.kept k);
            one_each = rest.one_each;
            rows = omega (arith, grown.rows, rest.rows);
            totals = omega (arith, grown.totals, rest.totals);
            no_failure = rest.no_failure;
          },
          (λ h. omega (arith, placed h, rest.kept b.id, rest.one_each b.id), others),
        )

-- A rollout over named bindings, from a queue in which no binding has two outstanding jobs, meets no error
-- and leaves such a queue: every binding that is switched on, and for a renewal deploys automatically, has
-- exactly one outstanding job, no binding has fewer than before, as many rows are new as are counted as
-- queued, and the four counts add up to the number of bindings.
pub enqueue_for-HasOne :
    (t : Trigger) (bindings : List CertificateDeployment) (queue : List DeploymentJob)
    → All (λ b. b.id ≢ empty_text) bindings
    → OneEach queue
    → ((enqueue_for t bindings queue).failure ≡ none)
      × OneEach (enqueue_for t bindings queue).queue
      × All
          (λ b. is_chosen t b ≡ true → load b.id (enqueue_for t bindings queue).queue ≡ 1)
          bindings
      × ((k : Text) → load k queue ≤ load k (enqueue_for t bindings queue).queue)
      × ((enqueue_for t bindings queue).rollout.queued + length queue
          ≡ length (enqueue_for t bindings queue).queue)
      × (total_of (enqueue_for t bindings queue).rollout ≡ length bindings)
unfolding enqueue_for total_of
enqueue_for-HasOne t bindings queue named one =
    let (grown, each) = place_from-Grown t 0 bindings queue empty_rollout named one in
    (
      grown.no_failure,
      grown.one_each,
      each,
      grown.kept,
      omega (arith, grown.rows),
      omega (arith, grown.totals),
    )
