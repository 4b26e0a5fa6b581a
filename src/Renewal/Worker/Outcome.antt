-- ===== src/Renewal/Worker/Outcome.antt =====
-- What one run leaves in the queue.
use certpilot.Prelude.{
  ◌≤◌, ◌≡◌, refl, sym, subst, inl, inr, Bool, true, false, ◌&&◌, Option, none, some, Text, Time,
  if◌then◌else◌, is_none, Bool-cases, All, All-map,
}
use certpilot.Renewal.Job.{
  Status, RenewalAttempt, RenewalJob, pending, succeeded, cancelled, is_running,
}
use certpilot.Renewal.Certificate.{Certificate}
use certpilot.Renewal.Lead.{held_elsewhere}
use certpilot.Renewal.Store.{has_id, completed, deferred_job}
use certpilot.Renewal.Store.Invariant.{copies}
use certpilot.Renewal.Store.Named.{complete-Changed, defer-Changed}
use certpilot.Renewal.Pacing.{retry_at, should_escalate}
use certpilot.Renewal.Worker.Published.{publish_if-jobs}
use certpilot.Renewal.Worker.{
  World, Run, Renewer, Event, attempt_of, finish, publish, put_off, conclude, already_renewed,
  paced, on_certificate, execute, rate_limited, outlasts,
}

abbrev finished : Run → RenewalJob → Status → Option Text → Bool → RenewalJob → RenewalJob
finished r job status cause escalate =
    completed status (attempt_of r job cause)
      (retry_at r.floats r.bytes job.attempts job.not_after r.started) escalate r.clock

-- How a run may leave the row of its job: closed, or back on the queue, and never with a lease.
pub record Released (j : RenewalJob) : Type 0 where
  pub idle : is_running j.status ≡ false
  pub unheld : j.locked_by ≡ none
  pub untimed : j.locked_until ≡ none

-- Every row of this name has been released.
abbrev pub AllReleased : Text → World → Type 0
AllReleased id w = All (λ j. has_id id j ≡ true → Released j) w.jobs

completed-Released :
    (status : Status) (attempt : RenewalAttempt) (run_after : Time) (escalate : Bool) (clock : Time)
    (x : RenewalJob)
    → is_running status ≡ false
    → Released (completed status attempt run_after escalate clock x)
unfolding completed
completed-Released status attempt run_after escalate clock x h = record {
  idle = h;
  unheld = refl;
  untimed = refl;
}

finish-Released :
    (r : Run) (job : RenewalJob) (status : Status) (cause : Option Text) (escalate : Bool)
    (w : World)
    → is_running status ≡ false
    → copies job.id w.jobs ≤ 1
    → AllReleased job.id (finish r job status cause escalate w)
unfolding finish
finish-Released r job status cause escalate w idle h =
    All-map _ (λ j. has_id job.id j ≡ true → Released j) _
      (λ j changed named.
        let (x, e) = changed named in
        subst Released (sym e) (completed-Released status _ _ escalate r.clock x idle))
      (complete-Changed job.id status _ _ escalate r.clock w.jobs h)

publish_if-Released :
    (c : Bool) (r : Run) (e : Event) (id : Text) (w : World)
    → AllReleased id w
    → AllReleased id (if c then publish r e w else w)
publish_if-Released c r e id w h =
    subst (All (λ j. has_id id j ≡ true → Released j)) (sym (publish_if-jobs c r e w)) h

conclude-Released :
    (r : Run) (job : RenewalJob) (cert : Certificate) (w : World) (answer : Option Text)
    → copies job.id w.jobs ≤ 1
    → AllReleased job.id (conclude r job cert w answer)
unfolding conclude
conclude-Released r job cert w none h = finish-Released r job succeeded none false w refl h
conclude-Released r job cert w (some e) h =
    let escalate = should_escalate job.attempts job.not_after r.started in
    publish_if-Released (escalate && is_none job.escalated_at) r
      (Event.renewal_failing cert.id job.attempts job.id e) job.id _
      (finish-Released r job pending (some e) escalate w refl h)

put_off-Released :
    (r : Run) (job : RenewalJob) (cert : Certificate) (until : Time) (reason : Text) (w : World)
    → copies job.id w.jobs ≤ 1
    → AllReleased job.id (put_off r job cert until reason w)
unfolding put_off deferred_job
put_off-Released r job cert until reason w h =
    publish_if-Released (outlasts until job.not_after && is_none job.escalated_at) r _ job.id _ (
      All-map (λ j. has_id job.id j ≡ true → (x : RenewalJob) × (j ≡ _))
        (λ j. has_id job.id j ≡ true → Released j) _
        (λ j changed named.
          let (x, e) = changed named in
          subst Released (sym e) (record { idle = refl; unheld = refl; untimed = refl }))
        (defer-Changed job.id until reason (outlasts until job.not_after) r.clock w.jobs h))

module _ (r : Run) (renew : Renewer) (job : RenewalJob)
    (distinct : (w : World)
      → copies job.id w.jobs ≤ 1
      → copies job.id (renew job.certificate_id w).0.jobs ≤ 1) where
  paced-Released :
      (cert : Certificate) (w : World) (o : Option (Time × Text))
      → copies job.id w.jobs ≤ 1
      → AllReleased job.id (paced r renew job cert w o)
  unfolding paced
  paced-Released cert w none h =
      conclude-Released r job cert (renew job.certificate_id w).0 (renew job.certificate_id w).1
        (distinct w h)
  paced-Released cert w (some (until, reason)) h = put_off-Released r job cert until reason w h

  on_certificate-Released :
      (w : World) (o : Option Certificate)
      → copies job.id w.jobs ≤ 1
      → AllReleased job.id (on_certificate r renew job w o)
  unfolding on_certificate
  on_certificate-Released w none h = finish-Released r job cancelled _ false w refl h
  on_certificate-Released w (some cert) h = elim (Bool-cases (held_elsewhere cert.key_custody)) [
    | inl e ↦ rw e (finish-Released r job cancelled _ false w refl h)
    | inr e ↦ elim (Bool-cases (already_renewed job cert)) [
      | inl d ↦ rw (e, d) (finish-Released r job succeeded none false w refl h)
      | inr d ↦ rw (e, d) (paced-Released cert w (rate_limited r w r.started job.ca_account_id) h)
    ]
  ]

  -- Whatever happens in a run, and whatever others do to the queue while the renewer works, the run ends with every row of the job released: closed, or pending, and with no lease; names are distinct before the run and the renewer keeps them so.
  pub execute-Released :
      (w : World) → copies job.id w.jobs ≤ 1 → AllReleased job.id (execute r renew job w)
  unfolding execute
  execute-Released w h = on_certificate-Released w (w.certificates job.certificate_id) h
