-- ===== src/Renewal/Store/Named.antt =====
-- Updates by name, where names are distinct.
use certpilot.Prelude.{
  ◌≤◌, ◌≡◌, refl, subst, inl, inr, Bool, true, false, List, [], ◌∷◌, Text, Time, arith, Bool-cases,
  All, All-map, Result, ok, err, map_ok-ok, map_ok-err, ok_injective, or_unchanged, update_first,
}
use certpilot.Renewal.Job.{Status, RenewalAttempt, RenewalJob}
use certpilot.Renewal.Store.{
  StoreError, not_found, has_id, completed, deferred_job, complete_renewal_job, defer_renewal_job,
}
use certpilot.Renewal.Store.Invariant.{copies}

no_copies :
    (id : Text) (jobs : List RenewalJob) → copies id jobs ≡ 0 → All (λ j. has_id id j ≡ false) jobs
no_copies id [] h = tt
no_copies id (j ∷ js) h = (ground arith, no_copies id js (ground arith))

-- The rows after an update that always succeeds: each of that name is the change of some row.
abbrev pub Changed : Text → (RenewalJob → RenewalJob) → List RenewalJob → Type 0
Changed id change = All λ j. has_id id j ≡ true → (x : RenewalJob) × (j ≡ change x)

update_first-Changed :
    (id : Text) (change : RenewalJob → RenewalJob) (missing : StoreError) (jobs : List RenewalJob)
    {ys : List RenewalJob}
    → copies id jobs ≤ 1
    → update_first (has_id id) (λ j. ok (change j)) missing jobs ≡ ok ys
    → Changed id change ys
update_first-Changed id change missing [] h e = cc
update_first-Changed id change missing (j ∷ js) {ys} h e = elim (Bool-cases (has_id id j)) [
  | inl hit ↦
      subst (Changed id change) (ok_injective {E = StoreError} (rw (hit, update_first) at e)) (
        λ _. (j, refl),
        All-map (λ k. has_id id k ≡ false) _ js (λ k n y. cc) (no_copies id js (ground arith)),
      )
  | inr miss ↦
      let (zs, u, q) =
        map_ok-ok (λ zs. j ∷ zs) (update_first (has_id id) (λ k. ok (change k)) missing js)
          (rw (miss, update_first) at e) in
      subst (Changed id change) q
        (λ y. cc, update_first-Changed id change missing js (ground arith) u)
]

-- If the update finds no row, there is none.
update_first-absent :
    (id : Text) (change : RenewalJob → RenewalJob) (missing e : StoreError) (jobs : List RenewalJob)
    → update_first (has_id id) (λ j. ok (change j)) missing jobs ≡ err e
    → Changed id change jobs
update_first-absent id change missing e [] h = tt
update_first-absent id change missing e (j ∷ js) h = elim (Bool-cases (has_id id j)) [
  | inl hit ↦ cc (rw (hit, update_first) at h)
  | inr miss ↦ (
    λ y. cc,
    update_first-absent id change missing e js (
        map_ok-err (λ zs. j ∷ zs) (update_first (has_id id) (λ k. ok (change k)) missing js)
          (rw (miss, update_first) at h)),
  )
]

update-Changed :
    (id : Text) (change : RenewalJob → RenewalJob) (missing : StoreError) (jobs : List RenewalJob)
    → copies id jobs ≤ 1
    → Changed id change
        (or_unchanged jobs (update_first (has_id id) (λ j. ok (change j)) missing jobs))
update-Changed id change missing jobs h =
    go (update_first (has_id id) (λ j. ok (change j)) missing jobs) refl
  where
    go :
        (r : Result StoreError (List RenewalJob))
        → update_first (has_id id) (λ j. ok (change j)) missing jobs ≡ r
        → Changed id change (or_unchanged jobs r)
    go (ok ys) e = update_first-Changed id change missing jobs h e
    go (err x) e = update_first-absent id change missing x jobs e

pub complete-Changed :
    (id : Text) (status : Status) (attempt : RenewalAttempt) (run_after : Time) (escalate : Bool)
    (clock : Time) (jobs : List RenewalJob)
    → copies id jobs ≤ 1
    → Changed id
        (completed status attempt run_after escalate clock)
        (or_unchanged jobs (complete_renewal_job id status attempt run_after escalate clock jobs))
unfolding complete_renewal_job
complete-Changed id status attempt run_after escalate clock jobs h =
    update-Changed id (completed status attempt run_after escalate clock) (not_found id) jobs h

pub defer-Changed :
    (id : Text) (run_after : Time) (reason : Text) (escalate : Bool) (clock : Time)
    (jobs : List RenewalJob)
    → copies id jobs ≤ 1
    → Changed id
        (deferred_job run_after reason escalate clock)
        (or_unchanged jobs (defer_renewal_job id run_after reason escalate clock jobs))
unfolding defer_renewal_job
defer-Changed id run_after reason escalate clock jobs h =
    update-Changed id (deferred_job run_after reason escalate clock) (not_found id) jobs h
