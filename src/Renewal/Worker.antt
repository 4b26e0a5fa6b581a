-- ===== src/Renewal/Worker.antt =====
-- core/engine/renewal/queue.go: what a worker does with a job that it claimed. The wall clock and the
-- random bytes are arguments; the renewer is the interface that the code declares, a function on the
-- whole state, so that whatever else happens while it runs (heartbeats, other workers, a cancellation)
-- is part of it.
pub mod Published
pub mod Outcome
pub mod Escalation
pub mod Retry
pub mod Quota
mod Examples
use certpilot.Prelude.{
  ℕ, suc, ◌+◌, ◌-◌, ◌*◌, ◌/◌, Bool, true, false, ◌&&◌, ◌||◌, not, Option, none, some, List, [], ◌∷◌,
  ◌++◌, Text, Time, Duration, empty_text, is_none, minute, hour, ltb, leb, ◌==◌, if◌then◌else◌,
  or_unchanged, ℤ, pos, negsuc, mul_int64, ltb_ℤ,
}
use certpilot.Renewal.Job.{Status, RenewalAttempt, RenewalJob, pending, succeeded, cancelled}
use certpilot.Renewal.Certificate.{Certificate}
use certpilot.Renewal.Lead.{held_elsewhere}
use certpilot.Renewal.Store.{
  claim_renewal_job, complete_renewal_job, defer_renewal_job, count_recent_renewals,
}
use certpilot.Renewal.Pacing.{Floats, retry_at, should_escalate}

pub record Account : Type 0 where
  pub id : Text
  pub renewal_rate_limit : ℤ
  pub renewal_rate_window_hours : ℤ

-- The events that the queue publishes, with the topic and the severity that both share.
pub data Event : Type 0 where
  renewal_failing : (certificate attempts job error : ℕ) → Event
  quota_outlasts : (certificate attempts job blocked_until not_after : ℕ) → Event

pub record World : Type 0 where
  pub jobs : List RenewalJob
  pub certificates : Text → Option Certificate
  pub accounts : Text → Option Account
  pub published : List Event

-- The texts that the code formats, as functions of what it puts into them.
pub record Texts : Type 0 where
  pub certificate_gone : Text
  pub key_held : Certificate → Text
  pub limited : Account → ℕ → Time → Text

-- One run of a job: the worker, its readings of the clock when it starts and when it ends, that of the
-- store, the random draw, and whether there is a broker.
pub record Run : Type 0 where
  pub worker : Text
  pub started : Time
  pub ended : Time
  pub clock : Time
  pub bytes : Option (ℕ × ℕ)
  pub floats : Floats
  pub texts : Texts
  pub has_broker : Bool

abbrev pub Renewer : Type 0
Renewer = Text → World → World × Option Text

error_text : Option Text → Text
error_text none = empty_text
error_text (some e) = e

pub attempt_of : Run → RenewalJob → Option Text → RenewalAttempt
unfolding error_text
attempt_of r job cause = record {
  number = job.attempts;
  started_at = r.started;
  duration_ms = (r.ended - r.started) / 1_000_000;
  deferred = false;
  reason = empty_text;
  worker = r.worker;
  error = error_text cause;
}

-- The closure `finish` of `execute`.
pub finish : Run → RenewalJob → Status → Option Text → Bool → World → World
finish r job status cause escalate w =
    let run_after = retry_at r.floats r.bytes job.attempts job.not_after r.started in
    record w {
      jobs = or_unchanged w.jobs (
          complete_renewal_job job.id status (attempt_of r job cause) run_after escalate r.clock
            w.jobs);
    }

pub publish : Run → Event → World → World
publish r e w = if r.has_broker then record w { published = w.published ++ e ∷ [] } else w

pub window_of : ℤ → Duration
window_of (negsuc n) = 168 * hour
window_of (pos d) = if leb d 0 then 168 * hour else d

-- time.Duration(hours) * time.Hour, with a week for what is not positive.
pub rate_window : Account → Duration
unfolding window_of
rate_window a = window_of (mul_int64 a.renewal_rate_window_hours hour)

pub slot_opens : Time → Duration → Option Time → Time
slot_opens now window none = now + window + minute
slot_opens now window (some oldest) = oldest + window + minute

pub limited_by : Run → World → Time → Account → Option (Time × Text)
unfolding slot_opens
limited_by r w now a =
    if not (ltb_ℤ (pos 0) a.renewal_rate_limit)
    then none
    else let window = rate_window a in
      let (count, oldest) = count_recent_renewals a.id (now - window) w.jobs in
      if ltb_ℤ (pos count) a.renewal_rate_limit
      then none
      else let until = slot_opens now window oldest in some (until, r.texts.limited a count until)

pub account_limit : Run → World → Time → Option Account → Option (Time × Text)
account_limit r w now none = none
account_limit r w now (some a) = limited_by r w now a

pub rate_limited : Run → World → Time → Option Text → Option (Time × Text)
unfolding account_limit
rate_limited r w now none = none
rate_limited r w now (some account) =
    if account == empty_text then none else account_limit r w now (w.accounts account)

pub outlasts : Time → Option Time → Bool
outlasts until none = false
outlasts until (some not_after) = ltb not_after until

or_zero : Option Time → Time
or_zero none = 0
or_zero (some t) = t

pub put_off : Run → RenewalJob → Certificate → Time → Text → World → World
unfolding outlasts or_zero
put_off r job cert until reason w =
    let doomed = outlasts until job.not_after in
    let put_back = record w {
      jobs = or_unchanged w.jobs (defer_renewal_job job.id until reason doomed r.clock w.jobs);
    } in
    if doomed && is_none job.escalated_at
    then publish r (Event.quota_outlasts cert.id job.attempts job.id until (or_zero job.not_after))
        put_back
    else put_back

-- The end of `execute`, with what the renewer answered.
pub conclude : Run → RenewalJob → Certificate → World → Option Text → World
conclude r job cert w none = finish r job succeeded none false w
conclude r job cert w (some e) =
    let escalate = should_escalate job.attempts job.not_after r.started in
    let failed = finish r job pending (some e) escalate w in
    if escalate && is_none job.escalated_at
    then publish r (Event.renewal_failing cert.id job.attempts job.id e) failed
    else failed

-- The certificate has moved on since the job was created.
pub already_renewed : RenewalJob → Certificate → Bool
already_renewed job cert =
    not (job.fingerprint_at_enqueue == empty_text)
    && not (cert.fingerprint_sha256 == empty_text)
    && not (cert.fingerprint_sha256 == job.fingerprint_at_enqueue)

pub paced : Run → Renewer → RenewalJob → Certificate → World → Option (Time × Text) → World
paced r renew job cert w (some (until, reason)) = put_off r job cert until reason w
paced r renew job cert w none =
    let (w', answer) = renew job.certificate_id w in conclude r job cert w' answer

pub on_certificate : Run → Renewer → RenewalJob → World → Option Certificate → World
unfolding paced
on_certificate r renew job w none = finish r job cancelled (some r.texts.certificate_gone) false w
on_certificate r renew job w (some cert) =
    if held_elsewhere cert.key_custody
    then finish r job cancelled (some (r.texts.key_held cert)) false w
    else if already_renewed job cert
    then finish r job succeeded none false w
    else paced r renew job cert w (rate_limited r w r.started job.ca_account_id)

pub execute : Run → Renewer → RenewalJob → World → World
unfolding on_certificate
execute r renew job w = on_certificate r renew job w (w.certificates job.certificate_id)

-- RunOnce: claims one job and runs it; says whether there was one.
pub run_once : Run → Renewer → Duration → Time → World → World × Bool
run_once r renew lease now w =
    let (jobs, claimed) = claim_renewal_job r.worker lease now r.clock w.jobs in
    elim claimed [
      | none ↦ (record w { jobs = jobs }, false)
      | some job ↦ (execute r renew job (record w { jobs = jobs }), true)
    ]
