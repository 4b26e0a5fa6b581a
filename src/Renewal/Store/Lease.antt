-- ===== src/Renewal/Store/Lease.antt =====
-- core/store/inmemory.go: the lease that ClaimRenewalJob gives to a worker.
use native.Mathlib.Decide.{ℕ_discrete}
use certpilot.Prelude.{
  ℕ, ◌+◌, ◌≤◌, ◌≡◌, ◌≢◌, ◌∙◌, refl, sym, inl, inr, ◌⊎◌, Bool, false, Option, some, List, [], ◌∷◌,
  ◌++◌, Text, Time, Duration, arith, get_elem?, get_elem?-append, get_elem?-set_self, total-two,
  Replaced, Replaced-get, Replaced-set, Result, ok, ap, some_injective, update_first,
  update_first-Updated, subst,
}
use certpilot.Renewal.Job.{RenewalJob, running}
use certpilot.Renewal.Store.{
  StoreError, not_found, not_outstanding, completed, cancel_one, deferred_job, stored_job, leased,
  is_ready, has_id, claim_renewal_job, extend_one, extend_renewal_lease, complete_renewal_job,
  cancel_renewal_job, defer_renewal_job, enqueue_renewal,
}
use certpilot.Renewal.Store.Claim.{BestOf, Claimed, claim_renewal_job-Claimed}
use certpilot.Renewal.Store.Invariant.{Inv, counts_id}
use certpilot.Renewal.Store.Enqueue.{Enqueued, enqueue_renewal-Enqueued}
use certpilot.Renewal.Store.Steps.{Step, enqueues, claims, extends, completes, cancels, defers}

-- The worker holds the job of this name until `until` at least.
pub record Held (id worker : Text) (until : Time) (jobs : List RenewalJob) : Type 0 where
  pub place : ℕ
  pub row : RenewalJob
  pub expiry : Time
  pub found : get_elem? jobs place ≡ some row
  pub named : row.id ≡ id
  pub runs : row.status ≡ running
  pub owned : row.locked_by ≡ some worker
  pub expires : row.locked_until ≡ some expiry
  pub long_enough : until ≤ expiry

-- The calls that respect the lease: claims made before it runs out, and calls about other jobs.
abbrev pub Respects : {jobs ys : List RenewalJob} → Text → Text → Time → Step jobs ys → Type 0
Respects id worker until (enqueues fresh clock job n h) = Unit {0}
Respects id worker until (claims w lease now clock) = now ≤ until
Respects id worker until (extends i w u clock h) = (i ≢ id) ⊎ (w ≢ worker)
Respects id worker until (completes i status attempt run_after escalate clock idle open_before h) =
    i ≢ id
Respects id worker until (cancels i clock h) = i ≢ id
Respects id worker until (defers i run_after reason escalate clock open_before h) = i ≢ id

leased_not_ready :
    (now until : Time) (j : RenewalJob)
    → j.status ≡ running
    → j.locked_until ≡ some until
    → now ≤ until
    → is_ready now j ≡ false
unfolding is_ready
leased_not_ready now until j r l h = ground arith

-- The job that a claim hands out is held by its worker for the length of the lease.
pub claim_renewal_job-Held :
    (worker : Text) (lease : Duration) (now clock : Time) (jobs ys : List RenewalJob)
    (b : RenewalJob)
    → claim_renewal_job worker lease now clock jobs ≡ (ys, some b)
    → Held b.id worker (now + lease) ys
unfolding leased
claim_renewal_job-Held worker lease now clock jobs ys b h =
    go (claim_renewal_job worker lease now clock jobs)
      (claim_renewal_job-Claimed worker lease now clock jobs) h
  where
    go :
        (r : List RenewalJob × Option RenewalJob)
        → Claimed worker lease now clock jobs r
        → r ≡ (ys, some b)
        → Held b.id worker (now + lease) ys
    go _ (Claimed.idle e) q = cc
    go _ (Claimed.takes i j e) q = record {
      place = i;
      row = leased worker lease now clock j;
      expiry = now + lease;
      found =
          subst (λ l. get_elem? l i ≡ some (leased worker lease now clock j)) (ap (λ p. p.0) q)
            (get_elem?-set_self jobs i _ j e.0);
      named = ground arith;
      runs = refl;
      owned = refl;
      expires = refl;
      long_enough = omega arith;
    }

still :
    {id worker : Text} {until : Time} {xs ys : List RenewalJob} (h : Held id worker until xs)
    → get_elem? ys h.place ≡ some h.row
    → Held id worker until ys
still h there_too = record {
  place = h.place;
  row = h.row;
  expiry = h.expiry;
  found = there_too;
  named = h.named;
  runs = h.runs;
  owned = h.owned;
  expires = h.expires;
  long_enough = h.long_enough;
}

kept_Held :
    {id worker : Text} {until : Time} {xs ys : List RenewalJob} {x y : RenewalJob}
    → Replaced x y xs ys
    → x.id ≢ id
    → Held id worker until xs
    → Held id worker until ys
kept_Held {ys = ys} {x = x} r other h = still h (elim (Replaced-get r h.place h.row h.found) [
  | inl (same, _) ↦ absurd (other (rw (← same) h.named))
  | inr e ↦ e
])

appended_Held :
    {id worker : Text} {until : Time} {jobs : List RenewalJob} (more : List RenewalJob)
    → Held id worker until jobs
    → Held id worker until (jobs ++ more)
appended_Held {jobs = jobs} more h = still h (get_elem?-append jobs more h.place h.row h.found)

-- A claim made while the lease stands takes another row, under another name.
taken_elsewhere :
    {id worker : Text} {until : Time} {jobs : List RenewalJob} (now : Time) (i : ℕ) (j : RenewalJob)
    → Held id worker until jobs
    → Inv jobs
    → now ≤ until
    → BestOf now jobs (some (i, j))
    → (j.id ≢ id)
taken_elsewhere {id} {jobs = jobs} now i j h v early best same = elim (ℕ_discrete i h.place) [
  | yes p ↦ cc (
    leased_not_ready now h.expiry h.row h.runs h.expires (omega (arith, h.long_enough)),
    best.1,
    same_row p,
  )
  | no n ↦ absurd (
      omega (
        arith,
        total-two (counts_id id) jobs i h.place j h.row best.0 h.found n,
        v.distinct id,
        one j same,
        one h.row h.named,
      ))
]
  where
    same_row : i ≡ h.place → j ≡ h.row
    same_row p = some_injective (sym best.0 ∙ ap (get_elem? jobs) p ∙ h.found)

    one : (x : RenewalJob) → x.id ≡ id → counts_id id x ≡ 1
    one x e = ground arith

updated_Held :
    {id worker : Text} {until : Time} {xs ys : List RenewalJob} (i : Text)
    (change : RenewalJob → Result StoreError RenewalJob) (missing : StoreError)
    → i ≢ id
    → update_first (has_id i) change missing xs ≡ ok ys
    → Held id worker until xs
    → Held id worker until ys
updated_Held {xs = xs} i change missing other e h =
    let u = update_first-Updated (has_id i) change missing xs e in
    kept_Held u.replaced (λ same. other (ground (arith, u.hits))) h

claimed_Held :
    {id w : Text} {until : Time} (worker : Text) (lease : Duration) (now clock : Time)
    (jobs : List RenewalJob)
    → now ≤ until
    → Inv jobs
    → Held id w until jobs
    → Held id w until (claim_renewal_job worker lease now clock jobs).0
claimed_Held {id} {w} {until} worker lease now clock jobs early v h =
    go (claim_renewal_job worker lease now clock jobs)
      (claim_renewal_job-Claimed worker lease now clock jobs)
  where
    go :
        (r : List RenewalJob × Option RenewalJob)
        → Claimed worker lease now clock jobs r
        → Held id w until r.0
    go _ (Claimed.idle e) = h
    go _ (Claimed.takes i j e) =
        kept_Held (Replaced-set jobs i (leased worker lease now clock j) e.0)
          (taken_elsewhere now i j h v early e) h

-- In a queue that meets the invariant, while a lease stands no claim hands the job to a worker.
pub claim_while-Held :
    (id holder : Text) (until : Time) (worker : Text) (lease : Duration) (now clock : Time)
    (jobs ys : List RenewalJob) (b : RenewalJob)
    → Inv jobs
    → Held id holder until jobs
    → now ≤ until
    → claim_renewal_job worker lease now clock jobs ≡ (ys, some b)
    → b.id ≢ id
unfolding leased
claim_while-Held id holder until worker lease now clock jobs ys b v h early e =
    go (claim_renewal_job worker lease now clock jobs)
      (claim_renewal_job-Claimed worker lease now clock jobs) e
  where
    go :
        (r : List RenewalJob × Option RenewalJob)
        → Claimed worker lease now clock jobs r
        → r ≡ (ys, some b)
        → b.id ≢ id
    go _ (Claimed.idle _) q = cc
    go _ (Claimed.takes i j best) q = λ same. taken_elsewhere now i j h v early best (ground arith)

refused :
    (i w : Text) (u clock : Time) (x y : RenewalJob) {worker : Text}
    → extend_one i w u clock x ≡ ok y
    → x.locked_by ≡ some worker
    → w ≢ worker
    → ⊥
unfolding extend_one
refused i w u clock x y e l n = ground arith

extended_Held :
    {id worker : Text} {until : Time} {xs ys : List RenewalJob} (i w : Text) (u clock : Time)
    → (i ≢ id) ⊎ (w ≢ worker)
    → extend_renewal_lease i w u clock xs ≡ ok ys
    → Held id worker until xs
    → Held id worker until ys
unfolding extend_renewal_lease
extended_Held {xs = xs} {ys} i w u clock other e h =
    let updated = update_first-Updated (has_id i) (extend_one i w u clock) (not_found i) xs e in
    elim other [
      | inl n ↦ updated_Held i (extend_one i w u clock) (not_found i) n e h
      | inr n ↦ still h (elim (Replaced-get updated.replaced h.place h.row h.found) [
        | inl (same, _) ↦
            absurd (refused i w u clock h.row updated.new (rw same updated.changed) h.owned n)
        | inr f ↦ f
      ])
    ]

enqueued_Held :
    {id worker : Text} {until : Time} {xs ys : List RenewalJob} (fresh : Text) (clock : Time)
    (job : RenewalJob) {created : Bool} {seen : RenewalJob}
    → enqueue_renewal fresh clock job xs ≡ ok (ys, created, seen)
    → Held id worker until xs
    → Held id worker until ys
enqueued_Held {id} {worker} {until} {xs} {ys} fresh clock job e h =
    go (enqueue_renewal-Enqueued fresh clock job xs)
  where
    go : Enqueued fresh clock job xs (enqueue_renewal fresh clock job xs) → Held id worker until ys
    go (Enqueued.nameless _ r) = cc
    go (Enqueued.already i existing at same open_before r) = subst (Held id worker until) (cc) h
    go (Enqueued.creates free r) =
        subst (Held id worker until) (cc) (appended_Held (stored_job fresh clock job ∷ []) h)

-- In a queue that meets the invariant, a lease stands until it runs out under every call that respects it: claims made before that, and calls about other jobs.
pub Step-Held :
    (id worker : Text) (until : Time) {xs ys : List RenewalJob} (s : Step xs ys)
    → Respects id worker until s
    → Inv xs
    → Held id worker until xs
    → Held id worker until ys
unfolding complete_renewal_job cancel_renewal_job defer_renewal_job
Step-Held id worker until {xs} (enqueues fresh clock job n e) r v h =
    enqueued_Held fresh clock job e h
Step-Held id worker until {xs} (claims w lease now clock) r v h =
    claimed_Held w lease now clock xs r v h
Step-Held id worker until (extends i w u clock e) r v h = extended_Held i w u clock r e h
Step-Held id worker until (completes i status attempt run_after escalate clock idle open_before e) r
      v h =
    updated_Held i (λ j. ok (completed status attempt run_after escalate clock j)) (not_found i) r e
      h
Step-Held id worker until (cancels i clock e) r v h =
    updated_Held i (cancel_one i clock) (not_outstanding i) r e h
Step-Held id worker until (defers i run_after reason escalate clock open_before e) r v h =
    updated_Held i (λ j. ok (deferred_job run_after reason escalate clock j)) (not_found i) r e h
