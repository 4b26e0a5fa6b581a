-- ===== src/Renewal/Worker/Escalation.antt =====
-- Who is told of a renewal that fails, and how often.
use certpilot.Prelude.{
  ◌≤◌, ◌≡◌, refl, sym, ap, ◌∙◌, subst, inl, inr, ◌⊎◌, Bool, true, false, ◌&&◌, Option, none, some,
  [], ◌∷◌, ◌++◌, Text, Time, arith, if◌then◌else◌, is_none, Bool-cases, All, All-map,
}
use certpilot.Renewal.Job.{Status, RenewalAttempt, RenewalJob, pending, succeeded, cancelled}
use certpilot.Renewal.Certificate.{Certificate}
use certpilot.Renewal.Lead.{held_elsewhere}
use certpilot.Renewal.Store.{has_id, completed, deferred_job}
use certpilot.Renewal.Store.Invariant.{copies}
use certpilot.Renewal.Store.Named.{complete-Changed, defer-Changed}
use certpilot.Renewal.Pacing.{should_escalate}
use certpilot.Renewal.Worker.{
  World, Run, Renewer, Event, finish, publish, put_off, conclude, already_renewed, paced,
  on_certificate, execute, rate_limited, outlasts,
}

-- Every row of this name carries the mark of an escalation.
abbrev pub AllMarked : Text → World → Type 0
AllMarked id w = All (λ j. has_id id j ≡ true → is_none j.escalated_at ≡ false) w.jobs

-- A run announces nothing; or the job was not marked, the run announces one event, and the rows of the
-- job's name are marked.
abbrev pub Announces : RenewalJob → World → World → Type 0
Announces job w w' =
    (w'.published ≡ w.published)
    ⊎ ((job.escalated_at ≡ none)
        × (e : Event) × (w'.published ≡ w.published ++ e ∷ [])
        × AllMarked job.id w')

finish-published :
    (r : Run) (job : RenewalJob) (status : Status) (cause : Option Text) (escalate : Bool)
    (w : World)
    → (finish r job status cause escalate w).published ≡ w.published
unfolding finish
finish-published r job status cause escalate w = refl

completed-marked :
    (status : Status) (attempt : RenewalAttempt) (run_after clock : Time) (x : RenewalJob)
    (escalate : Bool)
    → escalate ≡ true
    → is_none (completed status attempt run_after escalate clock x).escalated_at ≡ false
unfolding completed
completed-marked status attempt run_after clock x escalate h = ground arith

deferred-marked :
    (run_after : Time) (reason : Text) (clock : Time) (x : RenewalJob) (escalate : Bool)
    → escalate ≡ true
    → is_none (deferred_job run_after reason escalate clock x).escalated_at ≡ false
unfolding deferred_job
deferred-marked run_after reason clock x escalate h = ground arith

finish-AllMarked :
    (r : Run) (job : RenewalJob) (status : Status) (cause : Option Text) (escalate : Bool)
    (w : World)
    → copies job.id w.jobs ≤ 1
    → escalate ≡ true
    → AllMarked job.id (finish r job status cause escalate w)
unfolding finish
finish-AllMarked r job status cause escalate w h marks =
    All-map _ (λ j. has_id job.id j ≡ true → is_none j.escalated_at ≡ false) _
      (λ j changed named.
        let (x, e) = changed named in
        subst (λ k. is_none k.escalated_at ≡ false) (sym e)
          (completed-marked status _ _ r.clock x escalate marks))
      (complete-Changed job.id status _ _ escalate r.clock w.jobs h)

-- The state that an announcement ends in, with or without a broker.
announced :
    (r : Run) (e : Event) (job : RenewalJob) (w w' : World)
    → job.escalated_at ≡ none
    → w'.published ≡ w.published
    → AllMarked job.id w'
    → Announces job w (publish r e w')
unfolding publish
announced r e job w w' fresh same marked = elim (Bool-cases r.has_broker) [
  | inl b ↦ rw b (inr (fresh, e, rw same, marked))
  | inr b ↦ rw b (inl same)
]

Announces-if :
    (escalate : Bool) (at : Option Time) (r : Run) (e : Event) (job : RenewalJob) (w w' : World)
    → job.escalated_at ≡ at
    → w'.published ≡ w.published
    → (escalate ≡ true → AllMarked job.id w')
    → Announces job w (if escalate && is_none at then publish r e w' else w')
Announces-if false at r e job w w' now same marks = inl same
Announces-if true none r e job w w' now same marks = announced r e job w w' now same (marks refl)
Announces-if true (some t) r e job w w' now same marks = inl same

-- The same history of events before.
Announces-from :
    (job : RenewalJob) (w v w' : World)
    → v.published ≡ w.published
    → Announces job v w'
    → Announces job w w'
Announces-from job w v w' same (inl e) = inl (e ∙ same)
Announces-from job w v w' same (inr (fresh, e, one, marked)) =
    inr (fresh, e, one ∙ ap (λ l. l ++ e ∷ []) same, marked)

conclude-Announces :
    (r : Run) (job : RenewalJob) (cert : Certificate) (w : World) (answer : Option Text)
    → copies job.id w.jobs ≤ 1
    → Announces job w (conclude r job cert w answer)
unfolding conclude
conclude-Announces r job cert w none h = inl (finish-published r job succeeded none false w)
conclude-Announces r job cert w (some e) h =
    let escalate = should_escalate job.attempts job.not_after r.started in
    Announces-if escalate job.escalated_at r _ job w _ refl
      (finish-published r job pending (some e) escalate w)
      (finish-AllMarked r job pending (some e) escalate w h)

put_off-Announces :
    (r : Run) (job : RenewalJob) (cert : Certificate) (until : Time) (reason : Text) (w : World)
    → copies job.id w.jobs ≤ 1
    → Announces job w (put_off r job cert until reason w)
unfolding put_off
put_off-Announces r job cert until reason w h =
    let doomed = outlasts until job.not_after in
    Announces-if doomed job.escalated_at r _ job w _ refl refl (λ marks.
      All-map _ (λ j. has_id job.id j ≡ true → is_none j.escalated_at ≡ false) _
        (λ j changed named.
          let (x, e) = changed named in
          subst (λ k. is_none k.escalated_at ≡ false) (sym e)
            (deferred-marked until reason r.clock x doomed marks))
        (defer-Changed job.id until reason doomed r.clock w.jobs h))

-- The renewer keeps the names distinct, and publishes nothing itself.
pub record Keeps (id : Text) (w w' : World) : Type 0 where
  pub distinct : copies id w.jobs ≤ 1 → copies id w'.jobs ≤ 1
  pub silent : w'.published ≡ w.published

module _ (r : Run) (renew : Renewer) (job : RenewalJob)
    (keeps : (w : World) → Keeps job.id w (renew job.certificate_id w).0) where
  paced-Announces :
      (cert : Certificate) (w : World) (o : Option (Time × Text))
      → copies job.id w.jobs ≤ 1
      → Announces job w (paced r renew job cert w o)
  unfolding paced
  paced-Announces cert w none h =
      let (w', answer) = renew job.certificate_id w in
      Announces-from job w w' (conclude r job cert w' answer) (keeps w).silent
        (conclude-Announces r job cert w' answer ((keeps w).distinct h))
  paced-Announces cert w (some (until, reason)) h = put_off-Announces r job cert until reason w h

  on_certificate-Announces :
      (w : World) (o : Option Certificate)
      → copies job.id w.jobs ≤ 1
      → Announces job w (on_certificate r renew job w o)
  unfolding on_certificate
  on_certificate-Announces w none h = inl (finish-published r job cancelled _ false w)
  on_certificate-Announces w (some cert) h = elim (Bool-cases (held_elsewhere cert.key_custody)) [
    | inl e ↦ rw e (inl (finish-published r job cancelled _ false w))
    | inr e ↦ elim (Bool-cases (already_renewed job cert)) [
      | inl d ↦ rw (e, d) (inl (finish-published r job succeeded none false w))
      | inr d ↦ rw (e, d) (paced-Announces cert w (rate_limited r w r.started job.ca_account_id) h)
    ]
  ]

  -- A run announces one event at most, and only for a job that has not been escalated before; then it leaves the rows of the job marked, so that no later run of them announces anything, if names are distinct, and the renewer keeps them so and publishes nothing itself.
  pub execute-Announces :
      (w : World) → copies job.id w.jobs ≤ 1 → Announces job w (execute r renew job w)
  unfolding execute
  execute-Announces w h = on_certificate-Announces w (w.certificates job.certificate_id) h
